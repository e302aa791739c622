-- ===== src/Client/Storage/Recipients.antt =====
-- LocalStorage: who has received and read each outgoing group message.
pub mod Aggregate
pub mod Removal
use bit_atm.Prelude.{
  ℕ, Bool, true, false, not, ◌&&◌, Option, none, some, List, [], ◌∷◌, ◌++◌, map, ltb, ◌==◌,
  if◌then◌else◌, select, any, length, Str, str_eq,
}
use bit_atm.Db.{update_where, delete_where}
use bit_atm.Client.Sql.{Key, key_eq, str_less, sort_by, insert_or_ignore}
use bit_atm.Client.Storage.{Recipient, Tables, LocalStorage, update, query}

abbrev pub recipients_key : Recipient → Key
recipients_key r = r.group_id ∷ r.timestamp ∷ r.member ∷ []

unfoldable pub put_recipient : Str → Str → Str → Tables → Tables
unfolding insert_or_ignore
put_recipient group_id timestamp member t = record t {
  recipients =
      insert_or_ignore recipients_key
        (record {
          group_id = group_id;
          timestamp = timestamp;
          member = member;
          delivered = false;
          seen = false;
        })
        t.recipients;
}

-- One INSERT OR IGNORE for each member; a failure is logged and the loop goes on.
unfoldable pub save_recipient_snapshot : Str → Str → List Str → LocalStorage → LocalStorage
unfolding update put_recipient
save_recipient_snapshot group_id timestamp [] s = s
save_recipient_snapshot group_id timestamp (m ∷ rest) s =
    save_recipient_snapshot group_id timestamp rest (update (put_recipient group_id timestamp m) s)

abbrev pub is_of : Str → Str → Recipient → Bool
is_of group_id timestamp r = str_eq r.group_id group_id && str_eq r.timestamp timestamp

abbrev pub is_recipient : Str → Str → Str → Recipient → Bool
is_recipient group_id timestamp member r =
    str_eq r.group_id group_id && str_eq r.timestamp timestamp && str_eq r.member member

unfoldable pub set_delivered : Str → Str → Str → Tables → Tables
set_delivered group_id timestamp member t = record t {
  recipients =
      update_where (is_recipient group_id timestamp member) (λ r. record r { delivered = true })
        t.recipients;
}

unfoldable pub mark_recipient_delivered : Str → Str → Str → LocalStorage → LocalStorage
unfolding update set_delivered
mark_recipient_delivered group_id timestamp member =
    update (set_delivered group_id timestamp member)

unfoldable pub set_seen : Str → Str → Str → Tables → Tables
set_seen group_id timestamp member t = record t {
  recipients =
      update_where (is_recipient group_id timestamp member)
        (λ r. record r { delivered = true; seen = true }) t.recipients;
}

unfoldable pub mark_recipient_seen : Str → Str → Str → LocalStorage → LocalStorage
unfolding update set_seen
mark_recipient_seen group_id timestamp member = update (set_seen group_id timestamp member)

abbrev pub or_zero : Option ℕ → ℕ
or_zero none = 0
or_zero (some n) = n

abbrev pub count_of : Str → Str → (Recipient → Bool) → Tables → ℕ
count_of group_id timestamp p t =
    length (select (λ r. is_of group_id timestamp r && p r) t.recipients)

unfoldable pub recipient_count : Str → Str → LocalStorage → ℕ × LocalStorage
unfolding query
recipient_count group_id timestamp s =
    let (n, s') = query (count_of group_id timestamp (λ r. true)) s in (or_zero n, s')

-- The count of rows not done yet, and if that is 0 the count of all.
abbrev pub none_left : Str → Str → Option ℕ × LocalStorage → Bool × LocalStorage
none_left group_id timestamp (none, s) = (false, s)
none_left group_id timestamp (some n, s) =
    if n == 0
    then (ltb 0 (recipient_count group_id timestamp s).0, (recipient_count group_id timestamp s).1)
    else (false, s)

unfoldable pub all_recipients_delivered : Str → Str → LocalStorage → Bool × LocalStorage
unfolding query recipient_count
all_recipients_delivered group_id timestamp s =
    none_left group_id timestamp
      (query (count_of group_id timestamp (λ r. not (Recipient.delivered r))) s)

unfoldable pub all_recipients_seen : Str → Str → LocalStorage → Bool × LocalStorage
unfolding query recipient_count
all_recipients_seen group_id timestamp s =
    none_left group_id timestamp
      (query (count_of group_id timestamp (λ r. not (Recipient.seen r))) s)

abbrev pub or_nothing : {A : Type 0} → Option (List A) → List A
or_nothing none = []
or_nothing (some rows) = rows

-- A row of the result shows its member and its two flags.
unfoldable pub recipient_states : Str → Str → LocalStorage → List (Str × Bool × Bool) × LocalStorage
unfolding query sort_by str_less
recipient_states group_id timestamp s =
    let (rows, s') =
      query
        (λ t.
          map (λ r. (Recipient.member r, Recipient.delivered r, Recipient.seen r))
            (sort_by (λ a b. str_less a.member b.member)
              (select (is_of group_id timestamp) t.recipients)))
        s in
    (or_nothing rows, s')

abbrev pub contains : List Str → Str → Bool
contains names name = any (λ n. str_eq n name) names

-- The rows to delete, and the timestamps they have, each once.
abbrev pub is_doomed : Str → List Str → Recipient → Bool
is_doomed group_id members r = str_eq r.group_id group_id && not (contains members r.member)

unfoldable pub doomed_of : Str → List Str → Tables → List (Str × Str)
doomed_of group_id members t =
    map (λ r. (Recipient.timestamp r, Recipient.member r))
      (select (is_doomed group_id members) t.recipients)

unfoldable pub once : List Str → List Str → List Str
once seen [] = seen
once seen (ts ∷ rest) =
    let added = once (seen ++ ts ∷ []) rest in
    let kept = once seen rest in if contains seen ts then kept else added

unfoldable pub drop_recipient : Str → Str → Str → Tables → Tables
drop_recipient group_id timestamp member t = record t {
  recipients = delete_where (is_recipient group_id timestamp member) t.recipients;
}

unfoldable pub drop_recipients : Str → List (Str × Str) → LocalStorage → LocalStorage
unfolding update drop_recipient
drop_recipients group_id [] s = s
drop_recipients group_id ((ts, m) ∷ rest) s =
    drop_recipients group_id rest (update (drop_recipient group_id ts m) s)

-- The timestamps that still have recipients.
unfoldable pub with_rows : Str → List Str → LocalStorage → List Str × LocalStorage
unfolding recipient_count
with_rows group_id [] s = ([], s)
with_rows group_id (ts ∷ rest) s =
    let (n, s') = recipient_count group_id ts s in
    let (affected, s'') = with_rows group_id rest s' in
    (if ltb 0 n then ts ∷ affected else affected, s'')

abbrev pub drop_doomed : Str → Option (List (Str × Str)) × LocalStorage → List Str × LocalStorage
drop_doomed group_id (none, s) = ([], s)
drop_doomed group_id (some doomed, s) =
    with_rows group_id (once [] (map (λ d. d.0) doomed)) (drop_recipients group_id doomed s)

unfoldable pub remove_recipients_not_in : Str → List Str → LocalStorage → List Str × LocalStorage
unfolding query doomed_of drop_recipients with_rows once
remove_recipients_not_in group_id members s =
    drop_doomed group_id (query (doomed_of group_id members) s)
