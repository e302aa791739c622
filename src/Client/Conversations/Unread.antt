-- ===== src/Client/Conversations/Unread.antt =====
-- ConversationListModel: one entry for each conversation.
use bit_atm.Prelude.{
  ℕ, ◌≡◌, refl, inl, inr, Bool, false, Option, none, some, List, [], ◌∷◌, map, arith, ◌==◌,
  if◌then◌else◌, Bool-cases, any, is_empty, All, Str, text, str_eq_refl,
}
use bit_atm.Client.Sql.{Key, has_key}
use bit_atm.Client.Sql.Unique.{Keyed, Keyed-append}
use bit_atm.Client.Conversations.{
  ConvEntry, ConversationList, change_first, find_first, drop_first, matches, named, is_group_of,
  add_or_update, add_or_update_group, mark_read, mark_found, remove, clear, set_unread_count,
}

-- A group is told by its id, a user by the name.
abbrev pub conversation_key : ConvEntry → Key
conversation_key e = if e.is_group then text "group" ∷ e.group_id ∷ [] else e.username ∷ []

abbrev pub IsUniqueList : ConversationList → Type 0
IsUniqueList m = Keyed conversation_key m.entries

keys-change_first :
    (p : ConvEntry → Bool) (f : ConvEntry → ConvEntry) (l : List ConvEntry)
    → ((e : ConvEntry) → conversation_key (f e) ≡ conversation_key e)
    → map conversation_key (change_first p f l) ≡ map conversation_key l
unfolding change_first
keys-change_first p f [] k = refl
keys-change_first p f (e ∷ l) k = elim (Bool-cases (p e)) [
  | inl h ↦ rw (h, k e)
  | inr h ↦ rw (h, keys-change_first p f l k)
]

Keyed-change_first :
    (p : ConvEntry → Bool) (f : ConvEntry → ConvEntry) (l : List ConvEntry)
    → ((e : ConvEntry) → conversation_key (f e) ≡ conversation_key e)
    → Keyed conversation_key l
    → Keyed conversation_key (change_first p f l)
Keyed-change_first p f l k u = rw (keys-change_first p f l k) u

absent_user :
    (name : Str) (l : List ConvEntry)
    → any (named name) l ≡ false
    → any (has_key conversation_key (name ∷ [])) l ≡ false
absent_user name [] h = refl
absent_user name (x ∷ l) h = ground (arith, absent_user name l)

absent_group :
    (g : Str) (l : List ConvEntry)
    → any (is_group_of g) l ≡ false
    → any (has_key conversation_key (text "group" ∷ g ∷ [])) l ≡ false
absent_group g [] h = refl
absent_group g (x ∷ l) h = ground (arith, absent_group g l, str_eq_refl (text "group"))

All-drop_first :
    (P : Key → Type 0) (p : ConvEntry → Bool) (l : List ConvEntry)
    → All P (map conversation_key l)
    → All P (map conversation_key (drop_first p l))
unfolding drop_first
All-drop_first P p [] h = tt
All-drop_first P p (e ∷ l) (h, hs) = elim (Bool-cases (p e)) [
  | inl b ↦ rw b hs
  | inr b ↦ rw b (h, All-drop_first P p l hs)
]

Keyed-drop_first :
    (p : ConvEntry → Bool) (l : List ConvEntry)
    → Keyed conversation_key l
    → Keyed conversation_key (drop_first p l)
unfolding drop_first
Keyed-drop_first p [] u = tt
Keyed-drop_first p (e ∷ l) (u, us) = elim (Bool-cases (p e)) [
  | inl b ↦ rw b us
  | inr b ↦ rw b (All-drop_first _ p l u, Keyed-drop_first p l us)
]

add_or_update-IsUniqueList :
    (name msg ts : Str) (more : Bool) (m : ConversationList)
    → IsUniqueList m
    → IsUniqueList (add_or_update name msg ts more m)
unfolding add_or_update
add_or_update-IsUniqueList name msg ts more m u = elim (Bool-cases (any (named name) m.entries)) [
  | inl h ↦ rw h (Keyed-change_first (named name) _ m.entries (λ e. refl) u)
  | inr h ↦ rw h (Keyed-append conversation_key m.entries _ (absent_user name m.entries h) u)
]

add_or_update_group-IsUniqueList :
    (g name msg ts : Str) (more : Bool) (m : ConversationList)
    → IsUniqueList m
    → IsUniqueList (add_or_update_group g name msg ts more m)
unfolding add_or_update_group
add_or_update_group-IsUniqueList g name msg ts more m u =
    elim (Bool-cases (any (is_group_of g) m.entries)) [
      | inl h ↦ rw h (Keyed-change_first (is_group_of g) _ m.entries (λ e. refl) u)
      | inr h ↦ rw h (Keyed-append conversation_key m.entries _ (absent_group g m.entries h) u)
    ]

mark_found-IsUniqueList :
    (peer : Str) (o : Option ConvEntry) (m : ConversationList)
    → IsUniqueList m
    → IsUniqueList (mark_found peer o m)
mark_found-IsUniqueList peer none m u = u
mark_found-IsUniqueList peer (some e) m u = elim (Bool-cases (e.unread_count == 0)) [
  | inl h ↦ rw h u
  | inr h ↦ rw h (Keyed-change_first (matches peer) _ m.entries (λ e. refl) u)
]

set_keeps :
    (count : ℕ) (e : ConvEntry)
    → conversation_key (if e.unread_count == count then e else record e { unread_count = count })
      ≡ conversation_key e
set_keeps count e = elim (Bool-cases (e.unread_count == count)) [ inl h ↦ rw h | inr h ↦ rw h ]

clear-IsUniqueList : (m : ConversationList) → IsUniqueList m → IsUniqueList (clear m)
unfolding clear
clear-IsUniqueList m u = elim (Bool-cases (is_empty m.entries)) [ inl h ↦ rw h u | inr h ↦ rw h tt ]

-- If no conversation stands twice in the list, then none does after addOrUpdate, addOrUpdateGroup,
-- markRead, remove, clear and setUnreadCount, for every conversation.
pub list-IsUniqueList :
    (peer name msg ts : Str) (more : Bool) (count : ℕ) (m : ConversationList)
    → IsUniqueList m
    → IsUniqueList (add_or_update peer msg ts more m)
      × IsUniqueList (add_or_update_group peer name msg ts more m)
      × IsUniqueList (mark_read peer m)
      × IsUniqueList (remove peer m)
      × IsUniqueList (clear m)
      × IsUniqueList (set_unread_count peer count m)
unfolding mark_read remove set_unread_count
list-IsUniqueList peer name msg ts more count m u = (
  add_or_update-IsUniqueList peer msg ts more m u,
  add_or_update_group-IsUniqueList peer name msg ts more m u,
  mark_found-IsUniqueList peer (find_first (matches peer) m.entries) m u,
  Keyed-drop_first (matches peer) m.entries u,
  clear-IsUniqueList m u,
  Keyed-change_first (matches peer) _ m.entries (set_keeps count) u,
)
