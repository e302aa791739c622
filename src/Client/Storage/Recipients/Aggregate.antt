-- ===== src/Client/Storage/Recipients/Aggregate.antt =====
-- LocalStorage: whether all recipients of a message have received and read it.
use bit_atm.Prelude.{
  ℕ, ◌≡◌, refl, ap, ◌∙◌, inl, inr, Bool, true, false, not, ◌&&◌, ◌||◌, Option, some, List, [], ◌∷◌,
  arith, ltb, ◌==◌, if◌then◌else◌, Bool-cases, select, any, every, length, Str,
}
use bit_atm.Client.Storage.{Recipient, Tables, LocalStorage, query}
use bit_atm.Client.Storage.Recipients.{
  is_of, count_of, none_left, recipient_count, or_zero, all_recipients_delivered,
  all_recipients_seen,
}
use bit_atm.Client.Storage.Ready.{IsReady, query_lem, query-IsReady}

module _ (file g ts : Str) (s : LocalStorage) (r : IsReady file s) where
  counted : (recipient_count g ts s).0 ≡ count_of g ts (λ r. true) (s.disk file)
  unfolding recipient_count
  counted = ap or_zero (query_lem file (count_of g ts (λ r. true)) s r)

-- The answer for a database in which some rows are left and others done.
verdict : Str → Str → (Recipient → Bool) → Tables → Bool
verdict g ts p t = if count_of g ts p t == 0 then ltb 0 (count_of g ts (λ r. true) t) else false

module _ (file g ts : Str) (p : Recipient → Bool) (s : LocalStorage) (r : IsReady file s) where
  none_left-query : (none_left g ts (query (count_of g ts p) s)).0 ≡ verdict g ts p (s.disk file)
  unfolding verdict query
  none_left-query =
      answered (query (count_of g ts p) s) (query_lem file (count_of g ts p) s r)
        (counted file g ts _ (query-IsReady file (count_of g ts p) s r))
    where
      answered :
          (a : Option ℕ × LocalStorage)
          → a.0 ≡ some (count_of g ts p (s.disk file))
          → (recipient_count g ts a.1).0 ≡ count_of g ts (λ r. true) (s.disk file)
          → (none_left g ts a).0 ≡ (
              if count_of g ts p (s.disk file) == 0
              then ltb 0 (count_of g ts (λ r. true) (s.disk file))
              else false)
      answered (o, s') e c = elim (Bool-cases (count_of g ts p (s.disk file) == 0)) [
        | inl z ↦ rw (e, z, c)
        | inr z ↦ rw (e, z)
      ]

-- Whether the message has recipients in the table and all of them are `done`.
pub everyone : Str → Str → (Recipient → Bool) → Tables → Bool
everyone g ts done t =
    any (is_of g ts) t.recipients && every (λ r. not (is_of g ts r) || done r) t.recipients

none_remain :
    (g ts : Str) (done : Recipient → Bool) (rows : List Recipient)
    → (length (select (λ r. is_of g ts r && not (done r)) rows) == 0)
      ≡ every (λ r. not (is_of g ts r) || done r) rows
none_remain g ts done [] = refl
none_remain g ts done (r ∷ rows) = ground (arith, none_remain g ts done rows)

some_there :
    (g ts : Str) (rows : List Recipient)
    → ltb 0 (length (select (λ r. is_of g ts r && true) rows)) ≡ any (is_of g ts) rows
some_there g ts [] = refl
some_there g ts (r ∷ rows) = ground (arith, some_there g ts rows)

verdict-everyone :
    (g ts : Str) (done : Recipient → Bool) (t : Tables)
    → verdict g ts (λ r. not (done r)) t ≡ everyone g ts done t
unfolding verdict everyone
verdict-everyone g ts done t =
    rw (none_remain g ts done t.recipients, some_there g ts t.recipients) (ground arith)

-- If a database is open and no statement fails, then allRecipientsDelivered answers whether the
-- message has recipients and each of them has received it, and allRecipientsSeen whether it has
-- recipients and each of them has read it.
pub all_recipients_lem :
    (file g ts : Str) (s : LocalStorage)
    → IsReady file s
    → ((all_recipients_delivered g ts s).0 ≡ everyone g ts Recipient.delivered (s.disk file))
      × ((all_recipients_seen g ts s).0 ≡ everyone g ts Recipient.seen (s.disk file))
unfolding all_recipients_seen all_recipients_delivered
all_recipients_lem file g ts s r = (
  none_left-query file g ts (λ r. not (Recipient.delivered r)) s r
      ∙ verdict-everyone g ts Recipient.delivered (s.disk file),
  none_left-query file g ts (λ r. not (Recipient.seen r)) s r
      ∙ verdict-everyone g ts Recipient.seen (s.disk file),
)
