-- ===== src/Action.antt =====
-- Actions on the world that return or throw. What was done before a throw stays done.
pub mod Keeps
pub mod Leads
pub mod Runs
pub mod Quiet
pub mod Atomic
use bit_atm.Prelude.{
  ℕ, zero, suc, ◌+◌, ◌-◌, ◌*◌, ◌/◌, ◌%◌, ◌≤◌, ◌<◌, String, ◌≡◌, refl, sym, ap, ◌∙◌, ◌≢◌, ◌↔◌, ◌⊎◌,
  inl, inr, Bool, true, false, not, ◌&&◌, ◌||◌, Option, none, some, List, [], ◌∷◌, ◌++◌, map, arith,
  ltb, leb, ◌==◌, if◌then◌else◌, ==_iff, ==_refl, Bool-cases, Option-cases, length, length-append,
  is_empty, select, head?, last?, any, every, All, Str, text, str_eq, str_eq_refl, str_eq→≡,
  str_eq_iff, is_digit, is_space, split_at, tokens, ℤ, pos, negsuc, int_eq, int_eq_refl, int_eq→≡,
  int_max, in_int, to_string, skip_spaces, read_digits, read_number, stoi,
}
use bit_atm.Error.{Error, protocol, network, db, crypto, poco, std_error}
use bit_atm.Packet.{Packet}
use bit_atm.Db.{Db}
use bit_atm.World.{World, Env, ClientSession}
use bit_atm.Wire.{serialize}
use mathlib.Core.Option

pub data Run (A : Type 0) : Type 0 where
  done : A → World → Run A
  threw : Error → World → Run A

abbrev pub Action : Type 0 → Type 0
Action A = World → Run A

module _ {A : Type 0} where
  -- The world in which a run ends.
  abbrev pub after : Run A → World
  after (done a w) = w
  after (threw e w) = w

  unfoldable pub pure : A → Action A
  pure a w = done a w

  unfoldable pub throw : Error → Action A
  throw e w = threw e w

  unfoldable pub gets : (World → A) → Action A
  gets f w = done (f w) w

  abbrev pub handle_run : (Error → Action A) → Run A → Run A
  handle_run h (done a w) = done a w
  handle_run h (threw e w) = h e w

  -- try { m } catch: the handler rethrows what it does not catch.
  unfoldable pub try_catch : Action A → (Error → Action A) → Action A
  try_catch m h w = handle_run h (m w)

module _ {A B : Type 0} where
  abbrev pub go_on : (A → Action B) → Run A → Run B
  go_on f (done a w) = f a w
  go_on f (threw e w) = threw e w

  infixl 5 ◌>>=◌
  unfoldable pub ◌>>=◌ : Action A → (A → Action B) → Action B
  ◌>>=◌ m f w = go_on f (m w)

infixl 5 ◌>>◌
abbrev pub ◌>>◌ : {B : Type 0} → Action (Unit {0}) → Action B → Action B
m >> k = m >>= λ _. k

unfoldable pub modify : (World → World) → Action (Unit {0})
modify f w = done tt (f w)

abbrev pub skip : Action (Unit {0})
skip = pure tt

abbrev pub when : Bool → Action (Unit {0}) → Action (Unit {0})
when b m = if b then m else skip

-- if (!b) throw ProtocolException(message)
abbrev pub require : Bool → Str → Action (Unit {0})
require b m = if b then skip else throw (protocol m)

abbrev pub or_throw : {A : Type 0} → Option A → Str → Action A
or_throw none m = throw (protocol m)
or_throw (some a) m = pure a

-- catch (const NetworkException&) { h }
abbrev pub on_network : {A : Type 0} → Action A → Error → Action A
on_network h (network m) = h
on_network h e = throw e

abbrev pub catch_network : {A : Type 0} → Action A → Action A → Action A
catch_network m h = try_catch m (on_network h)

-- catch (const Poco::Exception& e) { throw DbException(context + e.message()); }
abbrev pub as_db : Str → Error → Error
as_db c (poco m) = db (c ++ m)
as_db c e = e

abbrev pub in_repo : {A : Type 0} → Str → Action A → Action A
in_repo c m = try_catch m (λ e. throw (as_db c e))

module _ {A : Type 0} where
  -- for (x : xs) f(x);
  unfoldable pub for_each : (A → Action (Unit {0})) → List A → Action (Unit {0})
  for_each f [] = skip
  for_each f (x ∷ xs) = f x >>= λ _. for_each f xs

-- The step that the environment is asked at, which then moves on.
unfoldable pub next_tick : Action ℕ
next_tick w = done w.tick (record w { tick = suc w.tick })

abbrev pub raise_if : (Str → Error) → Option Str → Action (Unit {0})
raise_if kind none = skip
raise_if kind (some m) = throw (kind m)

-- Executes one SQL statement, whose effect on the tables and result the caller adds.
unfoldable pub statement : Action (Unit {0})
statement = do t ← next_tick; env ← gets (λ w. w.env); raise_if poco (env.statement_fails t)

-- DbManager::session.
unfoldable pub session : Action (Unit {0})
session = do t ← next_tick; env ← gets (λ w. w.env); raise_if db (env.session_fails t)

-- One statement in a session of its own, translated as each repository method does.
unfoldable pub query : {A : Type 0} → Str → (World → A) → Action A
query c f = in_repo c (do session; statement; gets f)

unfoldable pub set_db : (World → Db) → Action (Unit {0})
set_db f = modify (λ w. record w { db = f w })

unfoldable pub execute : Str → (World → Db) → Action (Unit {0})
execute c f = in_repo c (do session; statement; set_db f)

-- A statement with a cast that PostgreSQL may refuse.
abbrev pub cast_or_raise : Option ℕ → Action ℕ
cast_or_raise none = do env ← gets (λ w. w.env); throw (poco env.cast_message)
cast_or_raise (some t) = pure t

-- $n::timestamptz
unfoldable pub cast_timestamp : Str → Action ℕ
cast_timestamp s = do env ← gets (λ w. w.env); cast_or_raise (env.read_timestamp s)

-- NOW()
abbrev pub now : World → ℕ
now w = w.env.clock w.tick

-- Poco::Data::Transaction: the destructor rolls the tables back unless commit was reached.
abbrev pub roll_back : Db → Run (Unit {0}) → Run (Unit {0})
roll_back old (done a w) = done a w
roll_back old (threw e w) = threw e (record w { db = old })

unfoldable pub transaction : Action (Unit {0}) → Action (Unit {0})
transaction m w = roll_back w.db (m w)

-- ClientSession::send.
unfoldable pub send : ℕ → Packet → Action (Unit {0})
send sid p = do
  t ← next_tick
  env ← gets (λ w. w.env)
  raise_if network
      (Option.map (λ m. text "ClientSession::send failed: " ++ m) (env.send_fails t sid))
  modify (λ w. record w { sent = (sid, serialize p) ∷ w.sent })
