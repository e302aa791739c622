-- ===== src/Repo/Receipts/Queue.antt =====
-- The unique index of offline_read_receipts, the queue of receipts for users who are offline.
use bit_atm.Prelude.{
  ◌≡◌, ap, ◌∙◌, inl, inr, Bool, true, Option, List, [], ◌∷◌, ◌++◌, arith, Bool-cases, any, Str,
  str_eq_refl, ℤ,
}
use bit_atm.World.{World}
use bit_atm.Db.{ReadReceipt}
use bit_atm.Repo.Receipts.{insert_read_receipt, same_receipt}

any-append :
    (p : ReadReceipt → Bool) (rows : List ReadReceipt) (r : ReadReceipt)
    → p r ≡ true
    → any p (rows ++ r ∷ []) ≡ true
any-append p [] r h = rw h
any-append p (x ∷ rows) r h = ground (arith, any-append p rows r h)

queued :
    (f t ts k : Str) (g : Option ℤ) (w : World)
    → any (same_receipt f t ts) (insert_read_receipt f t ts g k w).offline_read_receipts ≡ true
queued f t ts k g w = elim (Bool-cases (any (same_receipt f t ts) w.db.offline_read_receipts)) [
  | inl e ↦ rw (e, e)
  | inr e ↦ rw e (
      any-append _ w.db.offline_read_receipts _ (rw (str_eq_refl f, str_eq_refl t, str_eq_refl ts)))
]

-- Once a receipt of a pair of users and a timestamp is queued, any later one of the same pair and
-- timestamp is dropped, at any time and whatever its kind and group are.
pub insert_read_receipt_again :
    (f t ts k k' : Str) (g g' : Option ℤ) (w x : World)
    → x.db ≡ insert_read_receipt f t ts g k w
    → insert_read_receipt f t ts g' k' x ≡ x.db
insert_read_receipt_again f t ts k k' g g' w x e =
    rw (ap (λ d. any (same_receipt f t ts) d.offline_read_receipts) e ∙ queued f t ts k g w)
