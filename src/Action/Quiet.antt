-- ===== src/Action/Quiet.antt =====
-- Runs in an environment in which no statement, session or send fails.
use bit_atm.Prelude.{ℕ, suc, ◌≡◌, none, Str}
use bit_atm.World.{World, Env}
use bit_atm.Db.{Db}
use bit_atm.Action.{
  done, pure, throw, gets, ◌>>=◌, try_catch, query, execute, set_db, session, statement, next_tick,
  modify,
}
use bit_atm.Action.Runs.{at_tick}

pub record IsQuiet (env : Env) : Type 0 where
  pub statements : (t : ℕ) → env.statement_fails t ≡ none
  pub sessions : (t : ℕ) → env.session_fails t ≡ none
  pub sends : (t s : ℕ) → env.send_fails t s ≡ none

module _ (w : World) (q : IsQuiet w.env) where
  pub execute-IsQuiet :
      (c : Str) (f : World → Db)
      → execute c f w
        ≡ done tt (record w { tick = suc (suc w.tick); db = f (at_tick (suc (suc w.tick)) w) })
  unfolding execute set_db session statement next_tick modify ◌>>=◌ pure throw gets try_catch
  execute-IsQuiet c f = rw (q.sessions w.tick, q.statements (suc w.tick))

  pub query-IsQuiet :
      {A : Type 0} (c : Str) (f : World → A)
      → query c f w ≡ done (f (at_tick (suc (suc w.tick)) w)) (at_tick (suc (suc w.tick)) w)
  unfolding query session statement next_tick modify ◌>>=◌ pure throw gets try_catch
  query-IsQuiet c f = rw (q.sessions w.tick, q.statements (suc w.tick))
