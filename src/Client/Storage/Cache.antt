-- ===== src/Client/Storage/Cache.antt =====
-- LocalStorage: what is read back from the cache.
use bit_atm.Prelude.{
  ◌≡◌, refl, sym, ap, ◌∙◌, inl, inr, Bool, true, ◌&&◌, ◌||◌, List, [], ◌∷◌, ◌++◌, arith,
  if◌then◌else◌, Bool-cases, select, any, Str, str_eq, str_eq_refl, str_eq→≡,
}
use mathlib.Core.List.{Perm}
use bit_atm.Client.Sql.Sorted.{IsSorted, sort_by-IsSorted, sort_by-perm, str_less-asym}
use bit_atm.Db.{delete_where}
use bit_atm.Client.Sql.{key_eq, has_key, insert_or_ignore, str_less}
use bit_atm.Client.Sql.Unique.{key_eq→≡, any-insert_or_ignore, insert_or_ignore_again}
use bit_atm.Client.Storage.{MessageRecord, Tables, LocalStorage, messages_key}
use bit_atm.Client.Storage.Messages.{
  put_message, save_message, is_duplicate, has_message, load_messages, messages_of,
  delete_conversation, drop_messages, drop_conversation, or_none, or_false,
}
use bit_atm.Client.Storage.Ready.{
  IsReady, disk-update, update-IsReady, query_lem, update_twice-IsReady, disk-update_twice,
}

same_key :
    (p u ts : Str) (rows : List MessageRecord)
    → any (λ m. str_eq m.peer p && str_eq m.sender u && str_eq m.timestamp ts) rows
      ≡ any (has_key messages_key (p ∷ u ∷ ts ∷ [])) rows
same_key p u ts [] = refl
same_key p u ts (m ∷ rows) = ground (arith, same_key p u ts rows)

any_last :
    {A : Type 0} (p : A → Bool) (rows : List A) (a : A) → p a ≡ true → any p (rows ++ a ∷ []) ≡ true
any_last p [] a h = rw h
any_last p (b ∷ rows) a h = ground (arith, any_last p rows a h)

pub has_message-put_message :
    (m : MessageRecord) (t : Tables)
    → has_message m.peer m.sender m.timestamp (put_message m t) ≡ true
unfolding has_message put_message
has_message-put_message m t = elim (Bool-cases t.messages_dedup) [
  | inl e ↦
      rw (e, same_key m.peer m.sender m.timestamp) (any-insert_or_ignore messages_key m t.messages)
  | inr e ↦ rw e (
      any_last _ t.messages m
        (rw (str_eq_refl m.peer, str_eq_refl m.sender, str_eq_refl m.timestamp)))
]

-- A second insert of the key changes no row.
put_message_again :
    (m n : MessageRecord) (t : Tables)
    → t.messages_dedup ≡ true
    → messages_key n ≡ messages_key m
    → put_message n (put_message m t) ≡ put_message m t
unfolding put_message
put_message_again m n t d e =
    ap (λ rows. record t { messages = rows })
      (rw (d, insert_or_ignore_again messages_key m n t.messages e))

loaded :
    (file q : Str) (s : LocalStorage)
    → IsReady file s
    → (load_messages q s).0 ≡ messages_of q (s.disk file)
unfolding load_messages
loaded file q s r = ap or_none (query_lem file (messages_of q) s r)

saved : Str → Str → Str → Str → Bool → Str → Tables → Tables
saved p u c ts o st =
    put_message
      (record { peer = p; sender = u; content = c; timestamp = ts; is_outgoing = o; status = st })

any-append :
    {A : Type 0} (p : A → Bool) (rows : List A) (a : A) → any p (rows ++ a ∷ []) ≡ p a || any p rows
any-append p [] a = ground arith
any-append p (b ∷ rows) a = ground (arith, any-append p rows a)

-- The three columns of the unique index.
abbrev pub is_message : Str → Str → Str → MessageRecord → Bool
is_message p u ts m = str_eq m.peer p && str_eq m.sender u && str_eq m.timestamp ts

is_message-put_again :
    (p u ts : Str) (m : MessageRecord) (rows : List MessageRecord)
    → any (has_key messages_key (messages_key m)) rows ≡ true
    → any (is_message p u ts) rows ≡ is_message p u ts m || any (is_message p u ts) rows
is_message-put_again p u ts m rows h = elim (Bool-cases (is_message p u ts m)) [
  | inl e ↦
      rw (e, same_key p u ts rows)
        (ap (λ k. any (has_key messages_key k) rows)
            (sym (key_eq→≡ (messages_key m) (p ∷ u ∷ ts ∷ []) (as_key e)))
          ∙ h)
  | inr e ↦ rw e
]
  where
    as_key : is_message p u ts m ≡ true → key_eq (messages_key m) (p ∷ u ∷ ts ∷ []) ≡ true
    as_key e = ground arith

has_message-put_lem :
    (p u ts : Str) (m : MessageRecord) (t : Tables)
    → has_message p u ts (put_message m t) ≡ is_message p u ts m || has_message p u ts t
unfolding has_message put_message insert_or_ignore
has_message-put_lem p u ts m t = elim (Bool-cases t.messages_dedup) [
  | inl d ↦ elim (Bool-cases (any (has_key messages_key (messages_key m)) t.messages)) [
    | inl h ↦ rw (d, h) (is_message-put_again p u ts m t.messages h)
    | inr h ↦ rw (d, h) (any-append (is_message p u ts) t.messages m)
  ]
  | inr d ↦ rw d (any-append (is_message p u ts) t.messages m)
]

asked :
    (file p u ts : Str) (s : LocalStorage)
    → IsReady file s
    → (is_duplicate p u ts s).0 ≡ has_message p u ts (s.disk file)
unfolding is_duplicate
asked file p u ts s r = ap or_false (query_lem file (has_message p u ts) s r)

module _ (file p u c ts st : Str) (o : Bool) (s : LocalStorage) (r : IsReady file s) where
  -- If a database is open and no statement fails, then after saveMessage, whatever its content,
  -- direction and status, isDuplicate says of its peer, sender and timestamp that the message is
  -- one, and of any other peer, sender or timestamp what it said before.
  pub is_duplicate-save_message :
      (q v time : Str)
      → (is_duplicate q v time (save_message p u c ts o st s)).0
        ≡ (str_eq p q && str_eq u v && str_eq ts time) || (is_duplicate q v time s).0
  unfolding save_message saved
  is_duplicate-save_message q v time =
      asked file q v time _ (update-IsReady file (saved p u c ts o st) s r)
      ∙ ap (has_message q v time) (disk-update file (saved p u c ts o st) s r)
      ∙ has_message-put_lem q v time _ (s.disk file)
      ∙ ap (λ b. (str_eq p q && str_eq u v && str_eq ts time) || b) (sym (asked file q v time s r))

  -- If a database is open with its index and no statement fails, then saving the same peer, sender
  -- and timestamp again, with whatever content, direction and status, changes nothing that
  -- loadMessages shows for any peer.
  pub save_message_again :
      (q c' st' : Str) (o' : Bool)
      → (s.disk file).messages_dedup ≡ true
      → (load_messages q (save_message p u c' ts o' st' (save_message p u c ts o st s))).0
        ≡ (load_messages q (save_message p u c ts o st s)).0
  unfolding save_message saved
  save_message_again q c' st' o' d =
      loaded file q _ (update_twice-IsReady file (saved p u c ts o st) (saved p u c' ts o' st') s r)
      ∙ ap (messages_of q) (
          disk-update_twice file (saved p u c ts o st) (saved p u c' ts o' st') s r
          ∙ put_message_again _ _ (s.disk file) d refl
          ∙ sym (disk-update file (saved p u c ts o st) s r))
      ∙ sym (loaded file q _ (update-IsReady file (saved p u c ts o st) s r))

select-delete :
    (p q : Str) (rows : List MessageRecord)
    → select (λ m. str_eq m.peer q) (delete_where (λ m. str_eq m.peer p) rows)
      ≡ (if str_eq p q then [] else select (λ m. str_eq m.peer q) rows)
select-delete p q [] = ground arith
select-delete p q (m ∷ rows) = ground (
  arith,
  select-delete p q rows,
  str_eq→≡ m.peer p,
  str_eq→≡ m.peer q,
  str_eq→≡ p q,
  str_eq_refl p,
  str_eq_refl q,
)

messages_of-drop_messages :
    (p q : Str) (t : Tables)
    → messages_of q (drop_conversation p (drop_messages p t))
      ≡ (if str_eq p q then [] else messages_of q t)
unfolding messages_of drop_messages drop_conversation
messages_of-drop_messages p q t = elim (Bool-cases (str_eq p q)) [
  | inl e ↦ rw (select-delete p q t.messages, e)
  | inr e ↦ rw (select-delete p q t.messages, e)
]

module _ (file p q : Str) (s : LocalStorage) (r : IsReady file s) where
  -- If a database is open and no statement fails, then deleteConversation removes all that
  -- loadMessages shows for the peer and leaves what it shows for every other.
  pub load_messages-delete_conversation :
      (load_messages q (delete_conversation p s)).0
      ≡ (if str_eq p q then [] else (load_messages q s).0)
  unfolding delete_conversation
  load_messages-delete_conversation =
      loaded file q _ (update_twice-IsReady file (drop_messages p) (drop_conversation p) s r)
      ∙ ap (messages_of q) (disk-update_twice file (drop_messages p) (drop_conversation p) s r)
      ∙ messages_of-drop_messages p q (s.disk file)
      ∙ ap (λ rows. if str_eq p q then [] else rows) (sym (loaded file q s r))

-- If a database is open and no statement fails, then loadMessages shows the rows of the peer, each
-- as often as it is stored, in the order of their timestamps.
pub load_messages-IsSorted :
    (file q : Str) (s : LocalStorage)
    → IsReady file s
    → IsSorted (λ a b. str_less a.timestamp b.timestamp) (load_messages q s).0
      × Perm (load_messages q s).0 (select (λ m. str_eq m.peer q) (s.disk file).messages)
unfolding messages_of
load_messages-IsSorted file q s r = rw (loaded file q s r) (
  sort_by-IsSorted (λ a b. str_less a.timestamp b.timestamp)
      (λ a b. str_less-asym a.timestamp b.timestamp)
      (select (λ m. str_eq m.peer q) (s.disk file).messages),
  sort_by-perm (λ a b. str_less a.timestamp b.timestamp)
      (select (λ m. str_eq m.peer q) (s.disk file).messages),
)
