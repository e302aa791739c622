-- ===== src/World.antt =====
-- The state that the handlers share: the database, the map of connected clients, the ClientSession
-- objects and the frames sent, with the environment that decides what the database, the sockets,
-- the clock and the random source do at each step.
use bit_atm.Prelude.{ℕ, Bool, Option, List, Str}
use bit_atm.Db.{Db}

-- The OSSL_PARAM array of a key derivation.
pub record KdfParams : Type 0 where
  pub pass : Str
  pub salt : Str
  pub memcost : ℕ
  pub iter : ℕ
  pub lanes : ℕ

-- What the server does not implement. The number is the step at which it is asked, so every
-- behaviour over time is one environment. A statement that breaks a constraint of the schema is
-- one that fails.
pub record Env : Type 0 where
  -- The message of the Poco::Exception that the statement raises, if it does.
  pub statement_fails : ℕ → Option Str
  -- The message with which SessionPool::get fails, or the pool is missing.
  pub session_fails : ℕ → Option Str
  -- The message with which WebSocket::sendFrame fails on a session.
  pub send_fails : ℕ → ℕ → Option Str
  -- NOW() of the database.
  pub clock : ℕ → ℕ
  -- RAND_bytes: a number of random bytes, or failure.
  pub rand_bytes : ℕ → ℕ → Option Str
  -- EVP_KDF_fetch of an algorithm, EVP_KDF_CTX_new, and EVP_KDF_derive with the algorithm, its
  -- parameters and a number of bytes, which it gives or fails.
  pub kdf_fetch : ℕ → Str → Bool
  pub kdf_ctx_new : ℕ → Bool
  pub kdf_derive : Str → KdfParams → ℕ → Option Str
  -- The cast ::timestamptz, the text of a timestamp column, and to_char with the ISO format.
  pub read_timestamp : Str → Option ℕ
  pub cast_message : Str
  pub timestamp_text : ℕ → Str
  pub timestamp_iso : ℕ → Str

-- ClientSession::State.
pub data State : Type 0 where
  connected authenticating authenticated disconnected : State

-- A ClientSession object, less its socket.
pub record ClientSession : Type 0 where
  pub state : State
  pub username : Str
  pub session_token : Str

-- Sessions are numbered; a number stands for the address of the object.
pub record World : Type 0 where
  pub env : Env
  pub tick : ℕ
  pub db : Db
  pub clients : List (Str × List ℕ)
  pub sessions : ℕ → ClientSession
  -- The newest frame first, with the session that it went to.
  pub sent : List (ℕ × Str)
