-- ===== src/Client/Storage/Recipients/Removal.antt =====
-- LocalStorage::removeRecipientsNotIn: its loop of deletions as one.
use bit_atm.Prelude.{
  ◌≡◌, refl, sym, ap, ◌∙◌, inl, inr, Bool, true, false, not, Option, some, List, [], ◌∷◌, map,
  arith, if◌then◌else◌, Bool-cases, select, All, Str, str_eq_refl, str_eq→≡,
}
use bit_atm.Db.{delete_where}
use bit_atm.Client.Storage.{Recipient, Tables, LocalStorage, query}
use bit_atm.Client.Storage.Recipients.{
  count_of, is_recipient, is_doomed, doomed_of, drop_recipient, drop_recipients, drop_doomed,
  with_rows, once, recipient_count, remove_recipients_not_in,
}
use bit_atm.Client.Storage.Ready.{IsReady, query_lem, query-IsReady, disk-update, update-IsReady}

-- A row that one of the deletions of the loop removes.
hit : Str → List (Str × Str) → Recipient → Bool
hit g [] r = false
hit g ((ts, m) ∷ l) r = if is_recipient g ts m r then true else hit g l r

key_of : Recipient → Str × Str
key_of r = (r.timestamp, r.member)

select-delete :
    (p q : Recipient → Bool) (rows : List Recipient)
    → select (λ r. not (q r)) (delete_where p rows)
      ≡ select (λ r. not (if p r then true else q r)) rows
select-delete p q [] = refl
select-delete p q (r ∷ rows) = elim (Bool-cases (p r)) [
  | inl e ↦ rw e (select-delete p q rows)
  | inr e ↦ elim (Bool-cases (q r)) [
    | inl f ↦ rw (e, f) (select-delete p q rows)
    | inr f ↦ rw (e, f, select-delete p q rows)
  ]
]

select_all : (rows : List Recipient) → select (λ r. true) rows ≡ rows
select_all [] = refl
select_all (r ∷ rows) = rw (select_all rows)

module _ (file g : Str) where
  spare : List (Str × Str) → Tables → Tables
  spare l t = record t { recipients = select (λ r. not (hit g l r)) t.recipients }

  disk-drop_recipients :
      (l : List (Str × Str)) (s : LocalStorage)
      → IsReady file s
      → ((drop_recipients g l s).disk file) ≡ record (s.disk file) {
        recipients = select (λ r. not (hit g l r)) (s.disk file).recipients;
      }
  unfolding drop_recipients hit spare drop_recipient
  disk-drop_recipients [] s r =
      ap (λ rows. record (s.disk file) { recipients = rows })
        (sym (select_all (s.disk file).recipients))
  disk-drop_recipients ((ts, m) ∷ l) s r =
      disk-drop_recipients l _ (update-IsReady file (drop_recipient g ts m) s r)
      ∙ ap (spare l) (disk-update file (drop_recipient g ts m) s r)
      ∙ ap (λ rows. record (s.disk file) { recipients = rows })
          (select-delete (is_recipient g ts m) (hit g l) (s.disk file).recipients)

select_same :
    (p q : Recipient → Bool) (rows : List Recipient)
    → All (λ r. p r ≡ q r) rows
    → select p rows ≡ select q rows
select_same p q [] h = refl
select_same p q (r ∷ rows) (h, hs) = rw (h, select_same p q rows hs)

module _ (g : Str) (ms : List Str) where
  hit_doomed :
      (r : Recipient) (rows : List Recipient)
      → hit g (map key_of (select (is_doomed g ms) rows)) r ≡ true
      → is_doomed g ms r ≡ true
  unfolding hit key_of
  hit_doomed r [] h = ground arith
  hit_doomed r (x ∷ rows) h =
      ground (arith, hit_doomed r rows, str_eq→≡ r.member x.member, str_eq→≡ r.group_id g)

  doomed_hit :
      (r : Recipient) (rows : List Recipient)
      → is_doomed g ms r ≡ true
      → hit g (map key_of (select (is_doomed g ms) (r ∷ rows))) r ≡ true
  unfolding hit key_of
  doomed_hit r rows h = ground (arith, str_eq_refl r.timestamp, str_eq_refl r.member)

  more :
      (x : Recipient) (rows l : List Recipient)
      → All
          (λ r.
            is_doomed g ms r ≡ true → hit g (map key_of (select (is_doomed g ms) rows)) r ≡ true)
          l
      → All
          (λ r.
            is_doomed g ms r ≡ true
            → hit g (map key_of (select (is_doomed g ms) (x ∷ rows))) r ≡ true)
          l
  unfolding hit key_of
  more x rows [] h = tt
  more x rows (r ∷ l) (h, hs) = (λ d. ground (arith, h d), more x rows l hs)

  doomed_hits :
      (rows : List Recipient)
      → All
          (λ r.
            is_doomed g ms r ≡ true → hit g (map key_of (select (is_doomed g ms) rows)) r ≡ true)
          rows
  doomed_hits [] = tt
  doomed_hits (r ∷ rows) = (doomed_hit r rows, more r rows rows (doomed_hits rows))

  -- The deletions remove the doomed rows and no other.
  exact :
      (l rows : List Recipient)
      → All
          (λ r. is_doomed g ms r ≡ true → hit g (map key_of (select (is_doomed g ms) l)) r ≡ true)
          rows
      → select (λ r. not (hit g (map key_of (select (is_doomed g ms) l)) r)) rows
        ≡ delete_where (is_doomed g ms) rows
  exact l [] h = refl
  exact l (r ∷ rows) (h, hs) = elim (Bool-cases (is_doomed g ms r)) [
    | inl e ↦ rw (h e, e) (exact l rows hs)
    | inr e ↦ elim (Bool-cases (hit g (map key_of (select (is_doomed g ms) l)) r)) [
      | inl f ↦ absurd (distinct (sym (hit_doomed r l f) ∙ e))
      | inr f ↦ rw (f, e, exact l rows hs)
    ]
  ]
    where
      distinct : true ≡ false → ⊥
      distinct h = ground arith

disk-with_rows :
    (file g : Str) (ts : List Str) (s : LocalStorage) → (with_rows g ts s).1.disk file ≡ s.disk file
unfolding with_rows recipient_count query
disk-with_rows file g [] s = refl
disk-with_rows file g (t ∷ ts) s = disk-with_rows file g ts (query (count_of g t (λ r. true)) s).1

module _ (file g : Str) (ms : List Str) (s : LocalStorage) (r : IsReady file s) where
  disk-drop_doomed :
      (a : Option (List (Str × Str)) × LocalStorage) (l : List (Str × Str))
      → a.0 ≡ some l
      → (drop_doomed g a).1.disk file ≡ (drop_recipients g l a.1).disk file
  disk-drop_doomed (o, s') l e =
      rw e (disk-with_rows file g (once [] (map (λ d. d.0) l)) (drop_recipients g l s'))

  -- If a database is open and no statement fails, then removeRecipientsNotIn does to it what one
  -- deletion of the group's rows of other members than the listed ones does.
  pub disk-remove_recipients_not_in :
      (remove_recipients_not_in g ms s).1.disk file
      ≡ record (s.disk file) { recipients = delete_where (is_doomed g ms) (s.disk file).recipients }
  unfolding remove_recipients_not_in query doomed_of key_of
  disk-remove_recipients_not_in =
      disk-drop_doomed (query (doomed_of g ms) s) _ (query_lem file (doomed_of g ms) s r)
      ∙ disk-drop_recipients file g (doomed_of g ms (s.disk file)) _
          (query-IsReady file (doomed_of g ms) s r)
      ∙ ap (λ rows. record (s.disk file) { recipients = rows })
          (exact g ms (s.disk file).recipients (s.disk file).recipients
            (doomed_hits g ms (s.disk file).recipients))
