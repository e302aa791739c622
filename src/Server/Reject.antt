-- ===== src/Server/Reject.antt =====
-- BaseAuthHandler::authorize on sessions that are not authorised (backend/src/BaseAuthHandler.cpp).
pub mod Handlers
pub mod Packets
pub mod Outsiders
pub mod Creators
pub mod Kicks
use bit_atm.Prelude.{
  ℕ, zero, suc, ◌+◌, ◌-◌, ◌*◌, ◌/◌, ◌%◌, ◌≤◌, ◌<◌, String, ◌≡◌, refl, sym, ap, ◌∙◌, ◌≢◌, ◌↔◌, ◌⊎◌,
  inl, inr, Bool, true, false, not, ◌&&◌, ◌||◌, Option, none, some, List, [], ◌∷◌, ◌++◌, map, arith,
  ltb, leb, ◌==◌, if◌then◌else◌, ==_iff, ==_refl, Bool-cases, Option-cases, length, length-append,
  is_empty, select, head?, last?, any, every, All, Str, text, str_eq, str_eq_refl, str_eq→≡,
  str_eq_iff, is_digit, is_space, split_at, tokens, ℤ, pos, negsuc, int_eq, int_eq_refl, int_eq→≡,
  int_max, in_int, to_string, skip_spaces, read_digits, read_number, stoi,
}
use bit_atm.Error.{Error, protocol, network, db, crypto, poco, std_error}
use bit_atm.Packet.{Packet}
use bit_atm.Db.{Db, Session}
use bit_atm.World.{World, Env, ClientSession}
use bit_atm.Action.{
  Run, done, threw, Action, after, pure, throw, gets, ◌>>=◌, ◌>>◌, require, or_throw, try_catch,
  query, session, statement, next_tick, go_on, skip, now,
}
use bit_atm.Action.Leads.{Guards}
use bit_atm.Action.Runs.{at_tick, Asked, answered, lost, query-run}
use bit_atm.Repo.Row
use bit_atm.Repo.Sessions
use bit_atm.Repo.Sessions.{grants}
use bit_atm.Handler.Base.{Handler, handle, base_authorize, is_authenticated, present}

-- An exception that the connection answers with an ERR.
abbrev pub IsApp : Error → Type 0
IsApp (poco m) = ⊥
IsApp (std_error m) = ⊥
IsApp _ = Unit {0}

-- The run threw, and changed no table, client, session or frame.
pub record Rejected {A : Type 0} (w : World) (r : Run A) : Type 0 where
  pub error : Error
  pub world : World
  pub threw_it : r ≡ threw error world
  pub app : IsApp error
  pub tables : world.db ≡ w.db
  pub clients : world.clients ≡ w.clients
  pub sessions : world.sessions ≡ w.sessions
  pub sent : world.sent ≡ w.sent

-- No active row of the table has the token.
abbrev pub active_token : Str → Session → Bool
active_token token s = str_eq s.session_token token && s.is_active

-- Not authenticated, without a token, or with a token that no active row has.
abbrev pub Unauthorised : World → ℕ → Type 0
Unauthorised w sid =
    (is_authenticated (w.sessions sid).state ≡ false)
    ⊎ (present (w.sessions sid).session_token ≡ false)
    ⊎ (any (active_token (w.sessions sid).session_token) w.db.sessions ≡ false)

none_granted :
    (time : ℕ) (token : Str) (rows : List Session)
    → any (active_token token) rows ≡ false
    → select (grants time token) rows ≡ []
none_granted time token [] h = refl
none_granted time token (s ∷ rest) h = ground (arith, none_granted time token rest)

-- The last step of base_authorize.
look_up-Rejected :
    (token m : Str) (w : World) (r : Run (Option Session))
    → any (active_token token) w.db.sessions ≡ false
    → Asked
        (λ x. Row.present Sessions.token_of (head? (select (grants (now x) token) x.db.sessions)))
        w
        r
    → Rejected w (go_on (λ row. or_throw row m >>= λ _. skip) r)
unfolding ◌>>=◌ pure throw
look_up-Rejected token m w r h (lost x n e) = record {
  error = db x;
  world = at_tick n w;
  threw_it = rw e;
  app = tt;
  tables = refl;
  clients = refl;
  sessions = refl;
  sent = refl;
}
look_up-Rejected token m w r h (answered n e) = record {
  error = protocol m;
  world = at_tick n w;
  threw_it = rw (e, none_granted (w.env.clock n) token w.db.sessions h);
  app = tt;
  tables = refl;
  clients = refl;
  sessions = refl;
  sent = refl;
}

pub Rejected-here :
    {A : Type 0} (w : World) (r : Run A) (m : Str) → r ≡ threw (protocol m) w → Rejected w r
Rejected-here w r m e = record {
  error = protocol m;
  world = w;
  threw_it = e;
  app = tt;
  tables = refl;
  clients = refl;
  sessions = refl;
  sent = refl;
}

last_case :
    (w : World) (sid : ℕ)
    → Unauthorised w sid
    → is_authenticated (w.sessions sid).state ≡ true
    → present (w.sessions sid).session_token ≡ true
    → any (active_token (w.sessions sid).session_token) w.db.sessions ≡ false
last_case w sid (inl u) e e' = cc
last_case w sid (inr (inl u)) e e' = cc
last_case w sid (inr (inr u)) e e' = u

pub base_authorize-Rejected :
    (sid : ℕ) (w : World) → Unauthorised w sid → Rejected w (base_authorize sid w)
unfolding base_authorize ◌>>=◌ gets pure throw Sessions.find_by_token
base_authorize-Rejected sid w u = elim (Bool-cases (is_authenticated (w.sessions sid).state)) [
  | inr e ↦
      Rejected-here w _ (text "BaseAuthHandler: request rejected - session not authenticated")
        (rw e)
  | inl e ↦ elim (Bool-cases (present (w.sessions sid).session_token)) [
    | inr e' ↦
        Rejected-here w _ (text "BaseAuthHandler: request rejected - no session token") (rw (e, e'))
    | inl e' ↦ rw (e, e') (look_up-Rejected _ _ w _ (last_case w sid u e e') (query-run _ _ w))
  ]
]

-- The same rejection, of another run that threw so.
pub as_run :
    {A B : Type 0} {w : World} {r : Run A} (x : Rejected w r)
    → Rejected {A = B} w (threw x.error x.world)
as_run x = record {
  error = x.error;
  world = x.world;
  threw_it = refl;
  app = x.app;
  tables = x.tables;
  clients = x.clients;
  sessions = x.sessions;
  sent = x.sent;
}

module _ {C : Type 0} (validate : Packet → Action (Unit {0}))
    (execute : Packet → ℕ → Action (Unit {0})) where
  -- The template method: validation, then authorisation, and nothing of the execution.
  pub handle-Rejected :
      (p : Packet) (sid : ℕ) (w : World)
      → Guards C (validate p)
      → Unauthorised w sid
      → Rejected w (
          handle
            (record { validate = validate; authorize = base_authorize; execute = execute })
            p
            sid
            w)
  unfolding handle ◌>>=◌
  handle-Rejected p sid w g u = after_validate (g.at w)
    where
      denied : Rejected w (base_authorize sid w)
      denied = base_authorize-Rejected sid w u

      after_validate :
          ((validate p w ≡ done tt w) × C) ⊎ ((t : Str) × (validate p w ≡ threw (protocol t) w))
          → Rejected w (
              handle
                (record { validate = validate; authorize = base_authorize; execute = execute })
                p
                sid
                w)
      after_validate (inl (e, c)) = rw (e, denied.threw_it) (as_run denied)
      after_validate (inr (t, e)) = Rejected-here w _ t (rw e)
