-- ===== src/Wire/Fields.antt =====
-- The fields of a packet that was parsed.
use bit_atm.Prelude.{
  ℕ, ◌≡◌, ap, ◌≢◌, inl, inr, Bool, true, false, Option, none, some, [], ◌∷◌, ◌==◌, Bool-cases, Str,
  ℤ,
}
use mathlib.Core.Path.{subst}
use bit_atm.Error.{Error, Result, ok, err}
use bit_atm.Packet.{Packet, PacketType}
use bit_atm.Wire.{extract, finish, deserialize}
use bit_atm.Wire.RoundTrip.{Lacks}
use bit_atm.Wire.Stream.{IStream, open_stream, getline, take_until, line_at, good}

take_until-Lacks : (d : ℕ) (s : Str) → Lacks d (take_until d s).0
unfolding take_until
take_until-Lacks d [] = tt
take_until-Lacks d (c ∷ s) = elim (Bool-cases (c == d)) [
  | inl e ↦ rw e tt
  | inr e ↦ rw e (e, take_until-Lacks d s)
]

line_at-Lacks : (d : ℕ) (s : Str) → Lacks d (line_at d s).0
unfolding line_at
line_at-Lacks d [] = tt
line_at-Lacks d (c ∷ s) = take_until-Lacks d (c ∷ s)

getline-Lacks : (d : ℕ) (s : IStream) → Lacks d (getline d [] s).0
unfolding getline
getline-Lacks d s = elim (Bool-cases (good s)) [
  | inl e ↦ rw e (line_at-Lacks d s.rest)
  | inr e ↦ rw e tt
]

extract-Lacks : (t0 : ℤ) (s : IStream) → Lacks b'|' (extract t0 s).1.key
unfolding extract
extract-Lacks t0 s = getline-Lacks b'|' _

err_not_ok : (x : Error) (p : Packet) → ◌≢◌ {A = Result Packet} (err x) (ok p)
err_not_ok x p e = cc

abbrev key_of : Result Packet → Str
key_of (ok p) = p.key
key_of (err e) = []

finish-Lacks :
    (t : ℤ) (q p : Packet) (o : Option PacketType) (fail : Bool)
    → Lacks b'|' q.key
    → finish t q o fail ≡ ok p
    → Lacks b'|' p.key
unfolding finish
finish-Lacks t q p none fail h e = absurd (err_not_ok _ p e)
finish-Lacks t q p (some ty) true h e = absurd (err_not_ok _ p e)
finish-Lacks t q p (some ty) false h e = subst (λ k. Lacks b'|' k) (ap key_of e) h

-- No field of a parsed packet but the last can hold the delimiter; stated of the key.
pub deserialize-Lacks : (t0 : ℤ) (s : Str) (p : Packet) → deserialize t0 s ≡ ok p → Lacks b'|' p.key
unfolding deserialize
deserialize-Lacks t0 [] p e = absurd (err_not_ok _ p e)
deserialize-Lacks t0 (c ∷ s) p e = finish-Lacks _ _ p _ _ (extract-Lacks t0 (open_stream (c ∷ s))) e
