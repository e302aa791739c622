-- ===== src/Client/Throwing.antt =====
-- Computations on a state that return or throw, and keep what was done before a throw.
pub mod Keeps
use bit_atm.Prelude.{Bool, Option, none, some, List, [], ◌∷◌, if◌then◌else◌, Str}
use bit_atm.Error.{Error, crypto, Result, ok, err}

abbrev pub Throwing : Type 0 → Type 0 → Type 0
Throwing S A = S → Result A × S

-- A call that gives something or fails.
abbrev pub given : {A : Type 0} → Str → Option A → Result A
given m none = err (crypto m)
given m (some a) = ok a

module _ {S A : Type 0} where
  unfoldable pub returns : A → Throwing S A
  returns a t = (ok a, t)

  -- throw CryptoException(message)
  unfoldable pub throws : Str → Throwing S A
  throws m t = (err (crypto m), t)

  abbrev pub caught : (Error → Throwing S A) → Result A × S → Result A × S
  caught h (ok a, t) = (ok a, t)
  caught h (err e, t) = h e t

  -- try { m } catch (const std::exception& e) { h e }
  unfoldable pub try_catch : Throwing S A → (Error → Throwing S A) → Throwing S A
  try_catch m h t = caught h (m t)

module _ {S A B : Type 0} where
  abbrev pub next : (A → Throwing S B) → Result A × S → Result B × S
  next f (ok a, t) = f a t
  next f (err e, t) = (err e, t)

  infixl 5 ◌>>=◌
  unfoldable pub ◌>>=◌ : Throwing S A → (A → Throwing S B) → Throwing S B
  ◌>>=◌ m f t = next f (m t)

infixl 5 ◌>>◌
abbrev pub ◌>>◌ : {S B : Type 0} → Throwing S (Unit {0}) → Throwing S B → Throwing S B
m >> k = m >>= λ _. k

module _ {S : Type 0} where
  abbrev pub skip : Throwing S (Unit {0})
  skip = returns tt

  unfoldable pub gets : {A : Type 0} → (S → A) → Throwing S A
  gets f t = (ok (f t), t)

  unfoldable pub modify : (S → S) → Throwing S (Unit {0})
  modify f t = (ok tt, f t)

  abbrev pub when : Bool → Throwing S (Unit {0}) → Throwing S (Unit {0})
  when b m = if b then m else skip

  -- for (const auto& a : list)
  unfoldable pub for_each :
      {A : Type 0} → (A → Throwing S (Unit {0})) → List A → Throwing S (Unit {0})
  unfolding ◌>>=◌ returns
  for_each f [] = skip
  for_each f (a ∷ rest) = f a >> for_each f rest
