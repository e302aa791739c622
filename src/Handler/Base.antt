-- ===== src/Handler/Base.antt =====
-- backend/src/ICommandHandler.h and BaseAuthHandler.cpp, and what several handlers share.
use bit_atm.Prelude.{
  ℕ, Bool, true, false, not, ◌&&◌, Option, none, some, List, is_empty, every, Str, text, is_digit,
  ℤ, stoi,
}
use bit_atm.Error.{std_error}
use bit_atm.Packet.{Packet}
use bit_atm.World.{State, authenticated}
use bit_atm.Action.{
  Action, pure, throw, gets, ◌>>=◌, ◌>>◌, skip, require, or_throw, catch_network, send,
}
use bit_atm.Repo.Sessions
use bit_atm.Server.Clients.{get_sessions_for_user, find_client_in}

-- The virtual functions of ICommandHandler.
pub record Handler : Type 0 where
  pub validate : Packet → Action (Unit {0})
  pub authorize : ℕ → Action (Unit {0})
  pub execute : Packet → ℕ → Action (Unit {0})

unfoldable pub handle : Handler → Packet → ℕ → Action (Unit {0})
handle h p sid = do h.validate p; h.authorize sid; h.execute p sid

abbrev pub present : Str → Bool
present s = not (is_empty s)

abbrev pub is_authenticated : State → Bool
is_authenticated authenticated = true
is_authenticated _ = false

-- The session must be authenticated, and its token that of an active, unexpired row.
unfoldable pub base_authorize : ℕ → Action (Unit {0})
base_authorize sid = do
  s ← gets (λ w. w.sessions sid)
  require (is_authenticated s.state)
      (text "BaseAuthHandler: request rejected - session not authenticated")
  require (present s.session_token) (text "BaseAuthHandler: request rejected - no session token")
  row ← Sessions.find_by_token s.session_token
  _ ← or_throw row (text "BaseAuthHandler: request rejected - session expired or revoked")
  skip

-- isNumeric of AckHandler, isNumericGroupId of ReadReceiptHandler.
unfoldable pub is_numeric : Str → Bool
is_numeric s = present s && every is_digit s

-- A std::stoi whose exception nothing catches.
abbrev pub stoi_result : Option ℤ → Action ℤ
stoi_result none = throw (std_error (text "stoi"))
stoi_result (some n) = pure n

unfoldable pub stoi_or_throw : Str → Action ℤ
stoi_or_throw s = stoi_result (stoi s)

abbrev pub username_of : ℕ → Action Str
username_of sid = gets (λ w. (w.sessions sid).username)

abbrev pub find_client : Str → Action (Option ℕ)
find_client u = gets (λ w. find_client_in u w.clients)

abbrev pub sessions_for : Str → Action (List ℕ)
sessions_for u = gets (λ w. get_sessions_for_user u w.clients)

-- try { peer->send(p); } catch (const NetworkException&) {}
abbrev pub send_quietly : ℕ → Packet → Action (Unit {0})
send_quietly sid p = catch_network (send sid p) skip
