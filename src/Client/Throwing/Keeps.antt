-- ===== src/Client/Throwing/Keeps.antt =====
-- Predicates of the state that a computation keeps, whether it returns or throws.
use bit_atm.Prelude.{Bool, true, false, if◌then◌else◌}
use bit_atm.Error.{Error, Result, ok, err}
use bit_atm.Client.Throwing.{Throwing, caught, next, returns, try_catch, ◌>>=◌, gets, modify}

pub record Keeps {S A : Type 0} (Q : S → Type 0) (m : Throwing S A) : Type 0 where
  pub at : (s : S) → Q s → Q (m s).1

module _ {S A : Type 0} {Q : S → Type 0} where
  pub Keeps-returns : (a : A) → Keeps Q (returns a)
  unfolding returns
  Keeps-returns a = record { at = λ s h. h }

  pub Keeps-gets : (f : S → A) → Keeps Q (gets f)
  unfolding gets
  Keeps-gets f = record { at = λ s h. h }

  pub Keeps-if :
      (b : Bool) (m k : Throwing S A) → Keeps Q m → Keeps Q k → Keeps Q (if b then m else k)
  Keeps-if true m k km kk = km
  Keeps-if false m k km kk = kk

  handled :
      (h : Error → Throwing S A)
      → ((e : Error) → Keeps Q (h e))
      → (r : Result A × S) → Q r.1
      → Q (caught h r).1
  handled h kh (ok a, s) q = q
  handled h kh (err e, s) q = (kh e).at s q

  pub Keeps-try_catch :
      (m : Throwing S A) (h : Error → Throwing S A)
      → Keeps Q m
      → ((e : Error) → Keeps Q (h e))
      → Keeps Q (try_catch m h)
  unfolding try_catch
  Keeps-try_catch m h km kh = record { at = λ s q. handled h kh (m s) (km.at s q) }

module _ {S : Type 0} {Q : S → Type 0} where
  pub Keeps-modify : (f : S → S) → ((s : S) → Q s → Q (f s)) → Keeps Q (modify f)
  unfolding modify
  Keeps-modify f k = record { at = k }

module _ {S A B : Type 0} {Q : S → Type 0} where
  went_on :
      (k : A → Throwing S B)
      → ((a : A) → Keeps Q (k a))
      → (r : Result A × S) → Q r.1
      → Q (next k r).1
  went_on k kk (ok a, s) q = (kk a).at s q
  went_on k kk (err e, s) q = q

  pub Keeps-bind :
      (m : Throwing S A) (k : A → Throwing S B)
      → Keeps Q m
      → ((a : A) → Keeps Q (k a))
      → Keeps Q (m >>= k)
  unfolding ◌>>=◌
  Keeps-bind m k km kk = record { at = λ s q. went_on k kk (m s) (km.at s q) }

pub ruleset keeping_rules = (Keeps-returns, Keeps-gets, Keeps-if, Keeps-try_catch, Keeps-bind)
