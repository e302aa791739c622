-- ===== src/Action/Leads.antt =====
-- Actions that lead from one property of the tables to another, and reads of the tables.
use bit_atm.Prelude.{
  suc, ◌≡◌, refl, sym, ◌⊎◌, inl, inr, Bool, true, false, ◌++◌, if◌then◌else◌, Option-cases, Str,
}
use mathlib.Core.Path.{subst}
use bit_atm.Error.{Error, protocol, db}
use bit_atm.Db.{Db}
use bit_atm.World.{World}
use bit_atm.Action.{
  go_on, Run, done, threw, Action, after, pure, throw, gets, ◌>>=◌, skip, require, try_catch, query,
  session, statement, next_tick,
}
use bit_atm.Action.Keeps.{Keeps}

-- From a world whose tables satisfy `P`, `m` ends in one whose tables satisfy `Q`.
pub record Leads {A : Type 0} (P Q : Db → Type 0) (m : Action A) : Type 0 where
  pub at : (w : World) → P w.db → Q (after (m w)).db

-- What a read gives back: a value that is a function of the tables, or a throw; the tables stay.
pub data Gave {A : Type 0} (f : Db → A) (d : Db) (r : Run A) : Type 0 where
  value : (w : World) → r ≡ done (f d) w → w.db ≡ d → Gave f d r
  failed : (e : Error) (w : World) → r ≡ threw e w → w.db ≡ d → Gave f d r

pub record Reads {A : Type 0} (f : Db → A) (m : Action A) : Type 0 where
  pub at : (w : World) → Gave f w.db (m w)

module _ {A : Type 0} {P Q : Db → Type 0} where
  pub Keeps-Leads : (m : Action A) → Keeps Q m → ((d : Db) → P d → Q d) → Leads P Q m
  Keeps-Leads m k h = record { at = λ w p. k.at w (h w.db p) }

module _ {A B : Type 0} {Q : Db → Type 0} where
  read_run :
      (f : Db → A) (k : A → Action B) (d : Db) (r : Run A)
      → Gave f d r
      → Q d
      → Leads (λ x. x ≡ d) Q (k (f d))
      → Q (after (go_on k r)).db
  read_run f k d r (value w e s) q l = rw e (l.at w s)
  read_run f k d r (failed x w e s) q l = rw e (subst Q (sym s) q)

module _ {A B : Type 0} {P Q : Db → Type 0} where
  pub Leads-read :
      (f : Db → A) (m : Action A) (k : A → Action B)
      → Reads f m
      → ((d : Db) → P d → Q d)
      → ((d : Db) → P d → Leads (λ x. x ≡ d) Q (k (f d)))
      → Leads P Q (m >>= k)
  unfolding ◌>>=◌
  Leads-read f m k reads h l = record {
    at = λ w p. read_run f k w.db (m w) (reads.at w) (h w.db p) (l w.db p);
  }

module _ {A : Type 0} {P Q : Db → Type 0} where
  -- A guard: what follows may use that its test holds.
  pub Leads-require :
      (b : Bool) (t : Str) (k : Action A)
      → ((d : Db) → P d → Q d)
      → (b ≡ true → Leads P Q k)
      → Leads P Q (require b t >>= λ _. k)
  unfolding ◌>>=◌ pure throw
  Leads-require true t k h l = record { at = λ w p. (l refl).at w p }
  Leads-require false t k h l = record { at = λ w p. h w.db p }

pub Leads-Keeps : {A : Type 0} {Q : Db → Type 0} (m : Action A) → Leads Q Q m → Keeps Q m
Leads-Keeps m l = record { at = l.at }

-- Where nothing else is known of the tables.
pub from_here : (Q : Db → Type 0) (d : Db) → Q d → (x : Db) → x ≡ d → Q x
from_here Q d q x e = subst Q (sym e) q

module _ {A : Type 0} (c : Str) (f : Db → A) where
  unfold_query : (w : World) → Gave f w.db (query c (λ x. f x.db) w)
  unfolding query session statement next_tick ◌>>=◌ pure throw gets try_catch
  unfold_query w = elim (Option-cases (w.env.session_fails w.tick)) [
    | inr (m, e) ↦ failed (db m) (record w { tick = suc w.tick }) (rw e) refl
    | inl e ↦ elim (Option-cases (w.env.statement_fails (suc w.tick))) [
      | inr (m, e') ↦ failed (db (c ++ m)) (record w { tick = suc (suc w.tick) }) (rw (e, e')) refl
      | inl e' ↦ value (record w { tick = suc (suc w.tick) }) (rw (e, e')) refl
    ]
  ]

  pub Reads-query : Reads f (query c (λ w. f w.db))
  Reads-query = record { at = unfold_query }

-- An action that only tests: it leaves the world alone, and returns only if `C` holds; else it
-- throws a ProtocolException.
pub record Guards (C : Type 0) (m : Action (Unit {0})) : Type 0 where
  pub at : (w : World) → ((m w ≡ done tt w) × C) ⊎ ((t : Str) × (m w ≡ threw (protocol t) w))

pub Guards-skip : Guards (Unit {0}) skip
unfolding pure
Guards-skip = record { at = λ w. inl (refl, tt) }

pub Guards-require : (b : Bool) (t : Str) → Guards (b ≡ true) (require b t)
unfolding pure throw
Guards-require true t = record { at = λ w. inl (refl, refl) }
Guards-require false t = record { at = λ w. inr (t, refl) }

pub Guards-if :
    {C D : Type 0} (b : Bool) (m k : Action (Unit {0}))
    → Guards C m
    → Guards D k
    → Guards (if b then C else D) (if b then m else k)
Guards-if true m k g h = g
Guards-if false m k g h = h

module _ {C D : Type 0} (m k : Action (Unit {0})) where
  both :
      (w : World)
      → ((m w ≡ done tt w) × C) ⊎ ((t : Str) × (m w ≡ threw (protocol t) w))
      → ((k w ≡ done tt w) × D) ⊎ ((t : Str) × (k w ≡ threw (protocol t) w))
      → (((m >>= λ _. k) w ≡ done tt w) × (C × D))
        ⊎ ((t : Str) × ((m >>= λ _. k) w ≡ threw (protocol t) w))
  unfolding ◌>>=◌
  both w (inl (e, c)) (inl (f, d)) = inl (rw (e, f), (c, d))
  both w (inl (e, c)) (inr (x, f)) = inr (x, rw (e, f))
  both w (inr (x, e)) s = inr (x, rw e)

  pub Guards-bind : Guards C m → Guards D k → Guards (C × D) (m >>= λ _. k)
  Guards-bind g h = record { at = λ w. both w (g.at w) (h.at w) }

module _ {B : Type 0} {C : Type 0} {P Q : Db → Type 0} (m : Action (Unit {0})) (k : Action B) where
  guarded :
      (w : World)
      → ((m w ≡ done tt w) × C) ⊎ ((t : Str) × (m w ≡ threw (protocol t) w))
      → P w.db
      → (P w.db → Q w.db)
      → (C → Leads P Q k)
      → Q (after ((m >>= λ _. k) w)).db
  unfolding ◌>>=◌
  guarded w (inl (e, c)) p h l = rw e ((l c).at w p)
  guarded w (inr (x, e)) p h l = rw e (h p)

  pub Leads-guard :
      Guards C m → ((d : Db) → P d → Q d) → (C → Leads P Q k) → Leads P Q (m >>= λ _. k)
  Leads-guard g h l = record { at = λ w p. guarded w (g.at w) p (h w.db) l }
