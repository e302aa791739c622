-- ===== src/Client/Storage/Sound/Recipients.antt =====
-- LocalStorage: the statements on recipients, and the invariant.
use bit_atm.Prelude.{
  refl, inl, inr, Bool, true, List, [], ◌∷◌, ◌++◌, Bool-cases, select, any, All, Str,
}
use bit_atm.Db.{update_where}
use bit_atm.Client.Sql.{has_key, insert_or_ignore}
use bit_atm.Client.Sql.Unique.{Keyed-update_where, Keyed-select, Keyed-insert_or_ignore}
use bit_atm.Client.Storage.{Recipient}
use bit_atm.Client.Storage.Recipients.{
  recipients_key, put_recipient, set_delivered, set_seen, drop_recipient, is_recipient,
}
use bit_atm.Client.Storage.Sound.{IsOrdered, Keeps, set_recipients}

All-update_where :
    (P : Recipient → Type 0) (p : Recipient → Bool) (f : Recipient → Recipient)
    (rows : List Recipient)
    → ((r : Recipient) → P r → P (f r))
    → All P rows
    → All P (update_where p f rows)
All-update_where P p f [] k h = tt
All-update_where P p f (r ∷ rows) k (h, hs) = elim (Bool-cases (p r)) [
  | inl e ↦ rw e (k r h, All-update_where P p f rows k hs)
  | inr e ↦ rw e (h, All-update_where P p f rows k hs)
]

All-select :
    (P : Recipient → Type 0) (p : Recipient → Bool) (rows : List Recipient)
    → All P rows
    → All P (select p rows)
All-select P p [] h = tt
All-select P p (r ∷ rows) (h, hs) = elim (Bool-cases (p r)) [
  | inl e ↦ rw e (h, All-select P p rows hs)
  | inr e ↦ rw e (All-select P p rows hs)
]

All-insert_or_ignore :
    (P : Recipient → Type 0) (r : Recipient) (rows : List Recipient)
    → All P rows
    → P r
    → All P (insert_or_ignore recipients_key r rows)
unfolding insert_or_ignore
All-insert_or_ignore P r rows h p =
    elim (Bool-cases (any (has_key recipients_key (recipients_key r)) rows)) [
      | inl e ↦ rw e h
      | inr e ↦ rw e (append rows h)
    ]
  where
    append : (rows : List Recipient) → All P rows → All P (rows ++ r ∷ [])
    append [] h = (p, tt)
    append (b ∷ rows) (h, hs) = (h, append rows hs)

pub put_recipient-IsSound : (g ts m : Str) → Keeps (put_recipient g ts m)
unfolding put_recipient
put_recipient-IsSound g ts m t v =
    set_recipients t v _ (Keyed-insert_or_ignore recipients_key _ t.recipients v.recipients)
      (All-insert_or_ignore IsOrdered _ t.recipients v.seen (λ h. h))

pub set_delivered-IsSound : (g ts m : Str) → Keeps (set_delivered g ts m)
unfolding set_delivered
set_delivered-IsSound g ts m t v =
    set_recipients t v _
      (Keyed-update_where recipients_key _ _ t.recipients (λ r. refl) v.recipients)
      (All-update_where IsOrdered (is_recipient g ts m) (λ r. record r { delivered = true })
        t.recipients (λ r o h. refl) v.seen)

pub set_seen-IsSound : (g ts m : Str) → Keeps (set_seen g ts m)
unfolding set_seen
set_seen-IsSound g ts m t v =
    set_recipients t v _
      (Keyed-update_where recipients_key _ _ t.recipients (λ r. refl) v.recipients)
      (All-update_where IsOrdered (is_recipient g ts m)
        (λ r. record r { delivered = true; seen = true }) t.recipients (λ r o h. refl) v.seen)

pub drop_recipient-IsSound : (g ts m : Str) → Keeps (drop_recipient g ts m)
unfolding drop_recipient
drop_recipient-IsSound g ts m t v =
    set_recipients t v _ (Keyed-select recipients_key _ t.recipients v.recipients)
      (All-select IsOrdered _ t.recipients v.seen)
