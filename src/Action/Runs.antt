-- ===== src/Action/Runs.antt =====
-- The runs of a query: an answer from the tables two steps later, or a DbException.
use bit_atm.Prelude.{ℕ, suc, ◌≡◌, inl, inr, ◌∷◌, ◌++◌, Option-cases, Str, text}
use bit_atm.Error.{Error, db, network}
use bit_atm.World.{World}
use bit_atm.Packet.{Packet}
use bit_atm.Wire.{serialize}
use bit_atm.Action.{
  Run, done, threw, Action, pure, throw, gets, ◌>>=◌, try_catch, query, session, statement,
  next_tick, send, modify, go_on,
}

-- The same world at another step.
abbrev pub at_tick : ℕ → World → World
at_tick n w = record w { tick = n }

pub data Asked {A : Type 0} (f : World → A) (w : World) (r : Run A) : Type 0 where
  answered : (n : ℕ) → r ≡ done (f (at_tick n w)) (at_tick n w) → Asked f w r
  lost : (m : Str) (n : ℕ) → r ≡ threw (db m) (at_tick n w) → Asked f w r

pub query-run : {A : Type 0} (c : Str) (f : World → A) (w : World) → Asked f w (query c f w)
unfolding query session statement next_tick ◌>>=◌ pure throw gets try_catch
query-run c f w = elim (Option-cases (w.env.session_fails w.tick)) [
  | inr (m, e) ↦ lost m (suc w.tick) (rw e)
  | inl e ↦ elim (Option-cases (w.env.statement_fails (suc w.tick))) [
    | inr (m, e') ↦ lost (c ++ m) (suc (suc w.tick)) (rw (e, e'))
    | inl e' ↦ answered (suc (suc w.tick)) (rw (e, e'))
  ]
]

-- A send puts the packet's frame on the wire, or throws a NetworkException.
pub data Sending (sid : ℕ) (p : Packet) (w : World) (r : Run (Unit {0})) : Type 0 where
  arrived :
      r ≡ done tt (record w { tick = suc w.tick; sent = (sid, serialize p) ∷ w.sent })
      → Sending sid p w r
  broken : (m : Str) → r ≡ threw (network m) (at_tick (suc w.tick) w) → Sending sid p w r

pub send-run : (sid : ℕ) (p : Packet) (w : World) → Sending sid p w (send sid p w)
unfolding send next_tick modify ◌>>=◌ pure throw gets
send-run sid p w = elim (Option-cases (w.env.send_fails w.tick sid)) [
  | inl e ↦ arrived (rw e)
  | inr (m, e) ↦ broken (text "ClientSession::send failed: " ++ m) (rw e)
]

-- What a throw in the first part of a chain makes of the whole.
pub throw-bind :
    {A B C : Type 0} (m : Action A) (f : A → Action B) (k : A → B → Action C) (w w' : World)
    (e : Error)
    → (m >>= f) w ≡ threw e w'
    → (m >>= λ a. f a >>= k a) w ≡ threw e w'
unfolding ◌>>=◌
throw-bind {A} m f k w w' e h = step (m w) h
  where
    inner : {B C : Type 0} (r : Run B) (k : B → Action C) → r ≡ threw e w' → go_on k r ≡ threw e w'
    inner r k h = rw h

    step : (r : Run A) → go_on f r ≡ threw e w' → go_on (λ a. f a >>= k a) r ≡ threw e w'
    step (done a x) h = inner (f a x) (k a) h
    step (threw e' x) h = cc
