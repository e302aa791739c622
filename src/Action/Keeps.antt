-- ===== src/Action/Keeps.antt =====
-- Invariants of the tables under an action, one rule for each way to build an action. They hold
-- whatever the environment does.
use bit_atm.Prelude.{
  ℕ, ◌≡◌, refl, Bool, true, false, Option, none, some, List, [], ◌∷◌, if◌then◌else◌, Str,
}
use bit_atm.Error.{Error, protocol, network, db, crypto, poco, std_error}
use bit_atm.Packet.{Packet}
use bit_atm.Db.{Db}
use bit_atm.World.{World}
use bit_atm.Action.{
  roll_back, transaction, handle_run, go_on, Run, done, threw, Action, after, pure, throw, gets,
  modify, ◌>>=◌, or_throw, try_catch, on_network, query, execute, set_db, session, statement,
  for_each, next_tick, send, raise_if, cast_timestamp, cast_or_raise,
}

-- `m` keeps `Q` of the tables, whether it returns or throws.
pub record Keeps {A : Type 0} (Q : Db → Type 0) (m : Action A) : Type 0 where
  pub at : (w : World) → Q w.db → Q (after (m w)).db

module _ {A : Type 0} {Q : Db → Type 0} where
  pub Keeps-pure : (a : A) → Keeps Q (pure a)
  unfolding pure
  Keeps-pure a = record { at = λ w h. h }

  pub Keeps-throw : (e : Error) → Keeps Q (throw {A = A} e)
  unfolding throw
  Keeps-throw e = record { at = λ w h. h }

  pub Keeps-gets : (f : World → A) → Keeps Q (gets f)
  unfolding gets
  Keeps-gets f = record { at = λ w h. h }

  pub Keeps-if :
      (b : Bool) (m n : Action A)
      → (b ≡ true → Keeps Q m)
      → (b ≡ false → Keeps Q n)
      → Keeps Q (if b then m else n)
  Keeps-if true m n km kn = km refl
  Keeps-if false m n km kn = kn refl

  handled :
      (h : Error → Action A)
      → ((e : Error) → Keeps Q (h e))
      → (r : Run A) → Q (after r).db
      → Q (after (handle_run h r)).db
  handled h kh (done a w) q = q
  handled h kh (threw e w) q = (kh e).at w q

  pub Keeps-try_catch :
      (m : Action A) (h : Error → Action A)
      → Keeps Q m
      → ((e : Error) → Keeps Q (h e))
      → Keeps Q (try_catch m h)
  unfolding try_catch
  Keeps-try_catch m h km kh = record { at = λ w q. handled h kh (m w) (km.at w q) }

  pub Keeps-on_network : (m : Action A) (e : Error) → Keeps Q m → Keeps Q (on_network m e)
  Keeps-on_network m (network t) k = k
  Keeps-on_network m (protocol t) k = Keeps-throw (protocol t)
  Keeps-on_network m (db t) k = Keeps-throw (db t)
  Keeps-on_network m (crypto t) k = Keeps-throw (crypto t)
  Keeps-on_network m (poco t) k = Keeps-throw (poco t)
  Keeps-on_network m (std_error t) k = Keeps-throw (std_error t)

  pub Keeps-or_throw : (o : Option A) (t : Str) → Keeps Q (or_throw o t)
  Keeps-or_throw none t = Keeps-throw (protocol t)
  Keeps-or_throw (some a) t = Keeps-pure a

module _ {A B : Type 0} {Q : Db → Type 0} where
  went_on :
      (k : A → Action B)
      → ((a : A) → Keeps Q (k a))
      → (r : Run A) → Q (after r).db
      → Q (after (go_on k r)).db
  went_on k kk (done a w) q = (kk a).at w q
  went_on k kk (threw e w) q = q

  pub Keeps-bind :
      (m : Action A) (k : A → Action B) → Keeps Q m → ((a : A) → Keeps Q (k a)) → Keeps Q (m >>= k)
  unfolding ◌>>=◌
  Keeps-bind m k km kk = record { at = λ w q. went_on k kk (m w) (km.at w q) }

module _ {A B C : Type 0} (m : Action A) (f : A → Action B) (k : B → Action C) where
  assoc_run : (r : Run A) → go_on (λ a. f a >>= k) r ≡ go_on k (go_on f r)
  unfolding ◌>>=◌
  assoc_run (done a w) = refl
  assoc_run (threw e w) = refl

  -- A chain, from what its first two parts keep together.
  pub Keeps-assoc : {Q : Db → Type 0} → Keeps Q (m >>= f >>= k) → Keeps Q (m >>= λ a. f a >>= k)
  unfolding ◌>>=◌
  Keeps-assoc c = record { at = λ w q. rw (assoc_run (m w)) (c.at w q) }

rolled_back :
    (Q : Db → Type 0) (w : World)
    → Q w.db
    → (r : Run (Unit {0})) → Q (after r).db
    → Q (after (roll_back w.db r)).db
rolled_back Q w h (done a x) q = q
rolled_back Q w h (threw e x) q = h

module _ {Q : Db → Type 0} where
  pub Keeps-next_tick : Keeps Q next_tick
  unfolding next_tick
  Keeps-next_tick = record { at = λ w h. h }

  pub Keeps-raise_if : (kind : Str → Error) (o : Option Str) → Keeps Q (raise_if kind o)
  Keeps-raise_if kind none = Keeps-pure tt
  Keeps-raise_if kind (some t) = Keeps-throw (kind t)

  -- A change of the world that is none of the tables.
  pub Keeps-modify : (f : World → World) → ((w : World) → Q w.db → Q (f w).db) → Keeps Q (modify f)
  unfolding modify
  Keeps-modify f h = record { at = h }

  pub Keeps-set_db : (f : World → Db) → ((w : World) → Q w.db → Q (f w)) → Keeps Q (set_db f)
  unfolding set_db modify
  Keeps-set_db f h = record { at = h }

  pub Keeps-statement : Keeps Q statement
  unfolding statement
  Keeps-statement = search (Keeps-bind, Keeps-next_tick, Keeps-gets, Keeps-raise_if)

  pub Keeps-session : Keeps Q session
  unfolding session
  Keeps-session = search (Keeps-bind, Keeps-next_tick, Keeps-gets, Keeps-raise_if)

  pub Keeps-cast : (o : Option ℕ) → Keeps Q (cast_or_raise o)
  Keeps-cast none = search (Keeps-bind, Keeps-gets, Keeps-throw)
  Keeps-cast (some t) = Keeps-pure t

  pub Keeps-cast_timestamp : (s : Str) → Keeps Q (cast_timestamp s)
  unfolding cast_timestamp
  Keeps-cast_timestamp s = search (Keeps-bind, Keeps-gets, Keeps-cast)

  pub Keeps-execute :
      (c : Str) (f : World → Db) → ((w : World) → Q w.db → Q (f w)) → Keeps Q (execute c f)
  unfolding execute
  Keeps-execute c f h =
      Keeps-try_catch _ _
        (Keeps-bind _ _ Keeps-session (λ _. Keeps-bind _ _ Keeps-statement (λ _. Keeps-set_db f h)))
        (λ e. Keeps-throw _)

  pub Keeps-query : {A : Type 0} (c : Str) (f : World → A) → Keeps Q (query c f)
  unfolding query
  Keeps-query c f =
      search (Keeps-try_catch, Keeps-bind, Keeps-session, Keeps-statement, Keeps-gets, Keeps-throw)

  pub Keeps-send : (sid : ℕ) (p : Packet) → Keeps Q (send sid p)
  unfolding send
  Keeps-send sid p = Keeps-bind _ _ Keeps-next_tick (λ t.
      Keeps-bind _ _ (Keeps-gets _)
        (λ env. Keeps-bind _ _ (Keeps-raise_if _ _) (λ _. Keeps-modify _ (λ w h. h))))

  pub Keeps-for_each :
      {A : Type 0} (f : A → Action (Unit {0})) (xs : List A)
      → ((a : A) → Keeps Q (f a))
      → Keeps Q (for_each f xs)
  unfolding for_each
  Keeps-for_each f [] k = Keeps-pure tt
  Keeps-for_each f (x ∷ xs) k = Keeps-bind _ _ (k x) (λ _. Keeps-for_each f xs k)

  pub Keeps-transaction : (m : Action (Unit {0})) → Keeps Q m → Keeps Q (transaction m)
  unfolding transaction
  Keeps-transaction m k = record { at = λ w h. rolled_back Q w h (m w) (k.at w h) }

pub ruleset keeps_rules = (
  Keeps-pure, Keeps-throw, Keeps-gets, Keeps-if, Keeps-try_catch, Keeps-on_network, Keeps-or_throw,
  Keeps-bind, Keeps-next_tick, Keeps-raise_if, Keeps-statement, Keeps-session, Keeps-cast_timestamp,
  Keeps-query, Keeps-send, Keeps-for_each, Keeps-transaction,
)
