-- ===== src/Action/Atomic.antt =====
-- Transactions: an action that changes the tables in full or not at all.
use bit_atm.Prelude.{suc, ◌≡◌, refl, ap, ◌∙◌, Option, none, some, List, [], ◌∷◌, Str}
use bit_atm.Error.{Error, db}
use bit_atm.World.{World}
use bit_atm.Db.{Db}
use bit_atm.Action.{
  Run, done, threw, Action, pure, throw, gets, ◌>>=◌, try_catch, handle_run, in_repo, as_db, set_db,
  session, statement, next_tick, modify, go_on, raise_if, for_each, transaction, roll_back,
}

-- A run that returned has changed the tables by `f`.
abbrev pub Changed : {A : Type 0} → (Db → Db) → Db → Run A → Type 0
Changed f d (done a w) = w.db ≡ f d
Changed f d (threw e w) = Unit {0}

-- A run that returned has changed the tables by `f`, and one that threw has left them.
abbrev pub IsAllOrNothing : {A : Type 0} → (Db → Db) → Db → Run A → Type 0
IsAllOrNothing f d (done a w) = w.db ≡ f d
IsAllOrNothing f d (threw e w) = w.db ≡ d

pub record Changes {A : Type 0} (f : Db → Db) (m : Action A) : Type 0 where
  pub at : (w : World) → Changed f w.db (m w)

pub Changes-set_db : (f : Db → Db) → Changes f (set_db (λ w. f w.db))
unfolding set_db modify
Changes-set_db f = record { at = λ w. refl }

raised : (o : Option Str) (k : Str → Error) (w : World) → Changed (λ d. d) w.db (raise_if k o w)
unfolding pure throw
raised none k w = refl
raised (some m) k w = tt

pub Changes-statement : Changes (λ d. d) statement
unfolding statement next_tick ◌>>=◌ gets
Changes-statement = record {
  at = λ w. raised (w.env.statement_fails w.tick) _ (record w { tick = suc w.tick });
}

pub Changes-pure : {A : Type 0} (a : A) → Changes (λ d. d) (pure a)
unfolding pure
Changes-pure a = record { at = λ w. refl }

module _ {A B : Type 0} (f g : Db → Db) (k : A → Action B) (kk : (a : A) → Changes g (k a)) where
  then_on : (d : Db) (r : Run A) → Changed f d r → Changed (λ d. g (f d)) d (go_on k r)
  then_on d (done a w) e = moved (k a w) ((kk a).at w)
    where
      moved : (r : Run B) → Changed g w.db r → Changed (λ d. g (f d)) d r
      moved (done b x) h = h ∙ ap g e
      moved (threw t x) h = tt
  then_on d (threw t w) e = tt

  pub Changes-bind : (m : Action A) → Changes f m → Changes (λ d. g (f d)) (m >>= k)
  unfolding ◌>>=◌
  Changes-bind m c = record { at = λ w. then_on w.db (m w) (c.at w) }

-- for (x : xs) on the tables.
pub each : {A : Type 0} → (A → Db → Db) → List A → Db → Db
each f [] d = d
each f (x ∷ xs) d = each f xs (f x d)

pub Changes-for_each :
    {A : Type 0} (f : A → Db → Db) (m : A → Action (Unit {0})) (xs : List A)
    → ((a : A) → Changes (f a) (m a))
    → Changes (each f xs) (for_each m xs)
unfolding for_each each
Changes-for_each f m [] h = Changes-pure tt
Changes-for_each f m (x ∷ xs) h =
    Changes-bind (f x) (each f xs) _ (λ _. Changes-for_each f m xs h) (m x) (h x)

rolled :
    (f : Db → Db) (d : Db) (r : Run (Unit {0})) → Changed f d r → IsAllOrNothing f d (roll_back d r)
rolled f d (done a w) e = e
rolled f d (threw t w) e = refl

transaction-IsAllOrNothing :
    (f : Db → Db) (m : Action (Unit {0})) (w : World)
    → Changes f m
    → IsAllOrNothing f w.db (transaction m w)
unfolding transaction
transaction-IsAllOrNothing f m w c = rolled f w.db (m w) (c.at w)

module _ (c : Str) (f : Db → Db) where
  recast :
      (d : Db) (r : Run (Unit {0}))
      → IsAllOrNothing f d r
      → IsAllOrNothing f d (handle_run (λ e. throw (as_db c e)) r)
  unfolding throw
  recast d (done a w) h = h
  recast d (threw e w) h = h

  -- A session, and the transaction in it.
  pub in_repo-IsAllOrNothing :
      (m : Action (Unit {0})) (w : World)
      → Changes f m
      → IsAllOrNothing f w.db (in_repo c (session >>= λ _. transaction m) w)
  unfolding session next_tick try_catch ◌>>=◌ gets throw pure
  in_repo-IsAllOrNothing m w h = recast w.db _ (opened (w.env.session_fails w.tick))
    where
      opened :
          (o : Option Str)
          → IsAllOrNothing f w.db
              (go_on (λ _. transaction m) (raise_if db o (record w { tick = suc w.tick })))
      opened none = transaction-IsAllOrNothing f m (record w { tick = suc w.tick }) h
      opened (some t) = refl
