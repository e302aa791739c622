-- ===== src/Handler/KeyExchange.antt =====
-- backend/src/KeyExchangeHandler.cpp.
use bit_atm.Prelude.{ℕ, ◌||◌, if◌then◌else◌, text}
use bit_atm.Packet.{key_exchange, ack, Packet, blank}
use bit_atm.Action.{Action, ◌>>=◌, ◌>>◌, when, require, or_throw, send}
use bit_atm.Handler.Base.{Handler, base_authorize, present}
use bit_atm.Repo.Users

unfoldable pub validate : Packet → Action (Unit {0})
validate p = do
  require (present p.from) (text "KEY_EXCHANGE: sender (from) is required")
  require (present p.key || present p.to)
      (text "KEY_EXCHANGE: provide key to upload or 'to' to request a peer key")

unfoldable pub upload : Packet → Action (Unit {0})
upload p = do
  found ← Users.find_by_username p.from
  user ← or_throw found (text "KEY_EXCHANGE: sender not found")
  Users.save (record user { public_key = p.key })

unfoldable pub answer : Packet → ℕ → Action (Unit {0})
answer p sid = do
  found ← Users.find_by_username p.to
  peer ← or_throw found (text "KEY_EXCHANGE: requested user not found")
  send sid (record (blank key_exchange) { from = p.to; to = p.from; key = peer.public_key })

unfoldable pub execute_key_exchange : Packet → ℕ → Action (Unit {0})
unfolding upload answer
execute_key_exchange p sid = do
  when (present p.key) (upload p)
  if present p.to then answer p sid else send sid (record (blank ack) { to = p.from })

unfoldable pub handler : Handler
unfolding validate execute_key_exchange
handler = record { validate = validate; authorize = base_authorize; execute = execute_key_exchange }
