-- ===== src/Client/Conversations/Badges.antt =====
-- ConversationListModel: the unread counts of the conversations.
use bit_atm.Prelude.{
  ℕ, ◌≡◌, refl, sym, ap, ◌∙◌, inl, inr, Bool, true, false, ◌&&◌, ◌||◌, Option, none, some, List, [],
  ◌∷◌, arith, ◌==◌, if◌then◌else◌, Bool-cases, any, All, Str, text, str_eq_refl,
}
use mathlib.Core.Option
use bit_atm.Client.Sql.{Key, key_eq, has_key}
use bit_atm.Client.Sql.Unique.{key_eq→≡, key_eq_refl}
use bit_atm.Client.Conversations.{
  ConvEntry, ConversationList, change_first, find_first, matches, mark_read, mark_found,
}
use bit_atm.Client.Conversations.Unread.{conversation_key}

-- The badge of the conversation with a key, told as `conversation_key` tells users and groups apart.
pub unread_of : Key → ConversationList → Option ℕ
unread_of k m =
    Option.map ConvEntry.unread_count (find_first (has_key conversation_key k) m.entries)

abbrev pub user_key : Str → Key
user_key peer = peer ∷ []

abbrev pub group_key : Str → Key
group_key peer = text "group" ∷ peer ∷ []

-- Whether the list has an entry with the key.
abbrev pub lists : Key → ConversationList → Bool
lists k m = any (has_key conversation_key k) m.entries

matches-user :
    (peer : Str) (e : ConvEntry)
    → has_key conversation_key (group_key peer) e ≡ false
    → matches peer e ≡ has_key conversation_key (user_key peer) e
matches-user peer e h = ground (arith, str_eq_refl (text "group"))

matches-group :
    (peer : Str) (e : ConvEntry)
    → has_key conversation_key (user_key peer) e ≡ false
    → matches peer e ≡ has_key conversation_key (group_key peer) e
matches-group peer e h = ground (arith, str_eq_refl (text "group"))

module _ (p q : ConvEntry → Bool) where
  -- Two tests that agree on a list.
  abbrev Agree : List ConvEntry → Type 0
  Agree l = All (λ e. p e ≡ q e) l

  find_first-Agree : (l : List ConvEntry) → Agree l → find_first p l ≡ find_first q l
  unfolding find_first
  find_first-Agree [] h = refl
  find_first-Agree (e ∷ l) (h, hs) = rw (h, find_first-Agree l hs)

  change_first-Agree :
      (f : ConvEntry → ConvEntry) (l : List ConvEntry)
      → Agree l
      → change_first p f l ≡ change_first q f l
  unfolding change_first
  change_first-Agree f [] h = refl
  change_first-Agree f (e ∷ l) (h, hs) = rw (h, change_first-Agree f l hs)

module _ (p q r : ConvEntry → Bool) (agree : (e : ConvEntry) → r e ≡ false → p e ≡ q e) where
  absent-Agree : (l : List ConvEntry) → any r l ≡ false → Agree p q l
  absent-Agree [] h = tt
  absent-Agree (e ∷ l) h = elim (Bool-cases (r e)) [
    | inl b ↦ absurd (ground arith)
    | inr b ↦ (agree e b, absent-Agree l (ground arith))
  ]

clear_badge : ConvEntry → ConvEntry
clear_badge e = record e { unread_count = 0 }

-- markRead of the entry with a key.
clear_key : Key → List ConvEntry → List ConvEntry
clear_key j = change_first (has_key conversation_key j) clear_badge

find_first-clear_key :
    (j k : Key) (l : List ConvEntry)
    → Option.map ConvEntry.unread_count (find_first (has_key conversation_key k) (clear_key j l))
      ≡ (if key_eq j k
          then Option.map
              (λ n. 0)
              (Option.map ConvEntry.unread_count (find_first (has_key conversation_key k) l))
          else Option.map ConvEntry.unread_count (find_first (has_key conversation_key k) l))
unfolding find_first change_first clear_key clear_badge
find_first-clear_key j k [] = ground arith
find_first-clear_key j k (e ∷ l) = elim (Bool-cases (has_key conversation_key j e)) [
  | inl h ↦
      rw (h, key_eq→≡ (conversation_key e) j h)
        (elim (Bool-cases (key_eq j k)) [ inl b ↦ rw (b) | inr b ↦ rw (b) ])
  | inr h ↦ elim (Bool-cases (has_key conversation_key k e)) [
    | inl b ↦ rw (h, b, differs h b)
    | inr b ↦ rw (h, b, find_first-clear_key j k l)
  ]
]
  where
    differs :
        has_key conversation_key j e ≡ false
        → has_key conversation_key k e ≡ true
        → key_eq j k ≡ false
    differs h b = ground (arith, key_eq→≡ j k, ap (key_eq (conversation_key e)))

-- What the badge of k is after the badge of j was cleared.
abbrev cleared : Bool → Option ℕ → Option ℕ
cleared same badge = if same then Option.map (λ n. 0) badge else badge

module _ (p : Str) (j : Key) (m : ConversationList) where
  mark_found_lem :
      (o : Option ConvEntry)
      → find_first (has_key conversation_key j) m.entries ≡ o
      → change_first (matches p) clear_badge m.entries ≡ clear_key j m.entries
      → (k : Key) → unread_of k (mark_found p o m) ≡ cleared (key_eq j k) (unread_of k m)
  unfolding unread_of clear_badge
  mark_found_lem none h same k = elim (Bool-cases (key_eq j k)) [
    | inl b ↦ rw (b, ← key_eq→≡ j k b, h)
    | inr b ↦ rw b
  ]
  mark_found_lem (some e) h same k = elim (Bool-cases (e.unread_count == 0)) [
    | inl z ↦ elim (Bool-cases (key_eq j k)) [
      | inl b ↦ rw (z, b, ← key_eq→≡ j k b, h) (ap some (ground arith))
      | inr b ↦ rw (z, b)
    ]
    | inr z ↦ rw (z, same) (find_first-clear_key j k m.entries)
  ]

  mark_read_lem :
      All (λ e. matches p e ≡ has_key conversation_key j e) m.entries
      → (k : Key) → unread_of k (mark_read p m) ≡ cleared (key_eq j k) (unread_of k m)
  unfolding mark_read clear_key
  mark_read_lem a k =
      mark_found_lem (find_first (matches p) m.entries)
        (sym (find_first-Agree (matches p) (has_key conversation_key j) m.entries a))
        (change_first-Agree (matches p) (has_key conversation_key j) clear_badge m.entries a) k

find_first-absent :
    (p : ConvEntry → Bool) (l : List ConvEntry) → any p l ≡ false → find_first p l ≡ none
unfolding find_first
find_first-absent p [] h = refl
find_first-absent p (e ∷ l) h = ground (arith, find_first-absent p l)

-- A conversation that is not in the list has no badge to clear.
cleared-absent :
    (j k : Key) (same : Bool) (m : ConversationList)
    → lists j m ≡ false
    → cleared same (unread_of k m) ≡ cleared (same || key_eq j k) (unread_of k m)
unfolding unread_of
cleared-absent j k same m h = elim (Bool-cases (key_eq j k)) [
  | inl b ↦
      rw
        (
          ← key_eq→≡ j k b,
          key_eq_refl j,
          find_first-absent (has_key conversation_key j) m.entries h,
        )
        (ground arith)
  | inr b ↦ rw b (ground arith)
]

-- If the list does not have both a user of a name and a group whose id is that name, then markRead
-- of the name sets the badge of the conversation with the user or the group to 0, if it is in the
-- list, and leaves that of every other conversation.
pub unread_of-mark_read :
    (p : Str) (k : Key) (m : ConversationList)
    → lists (user_key p) m && lists (group_key p) m ≡ false
    → unread_of k (mark_read p m) ≡ (
        if key_eq (user_key p) k || key_eq (group_key p) k
        then Option.map (λ n. 0) (unread_of k m)
        else unread_of k m)
unread_of-mark_read p k m h = elim (Bool-cases (lists (group_key p) m)) [
  | inl b ↦
      let no_user : lists (user_key p) m ≡ false = ground arith in
      mark_read_lem p (group_key p) m
        (absent-Agree (matches p) (has_key conversation_key (group_key p))
          (has_key conversation_key (user_key p)) (matches-group p) m.entries no_user)
        k
      ∙ cleared-absent (user_key p) k (key_eq (group_key p) k) m no_user
      ∙ ap (λ b. cleared b (unread_of k m))
          (or_comm (key_eq (group_key p) k) (key_eq (user_key p) k))
  | inr b ↦
      mark_read_lem p (user_key p) m
        (absent-Agree (matches p) (has_key conversation_key (user_key p))
          (has_key conversation_key (group_key p)) (matches-user p) m.entries b)
        k
      ∙ cleared-absent (group_key p) k (key_eq (user_key p) k) m b
]
  where
    or_comm : (a b : Bool) → a || b ≡ b || a
    or_comm a b = ground arith
