-- ===== src/Handler/Register.antt =====
-- backend/src/RegisterHandler.cpp.
use bit_atm.Prelude.{ℕ, Bool, true, false, Option, none, some, [], leb, length, Str, text, ℤ, pos}
use bit_atm.Packet.{ack, Packet, blank}
use bit_atm.Db.{User, Message, OfflineMessage}
use bit_atm.Action.{Action, gets, ◌>>=◌, ◌>>◌, skip, require, for_each, send}
use bit_atm.Handler.Base.{Handler, present}
use bit_atm.Repo.Users
use bit_atm.Repo.Messages
use bit_atm.Repo.OfflineQueue
use bit_atm.Repo.Sessions
use bit_atm.Handler.Password.{hash_password, register_token}
use bit_atm.Handler.Login.{authenticate, forward}

unfoldable pub validate : Packet → Action (Unit {0})
validate p = do
  require (present p.from) (text "REGISTER: username (from) is required")
  require (present p.body) (text "REGISTER: password (body) is required")
  require (leb (length p.from) 64) (text "REGISTER: username exceeds 64 characters")
  require (leb 8 (length p.body)) (text "REGISTER: password must be at least 8 characters")

abbrev pub absent : {A : Type 0} → Option A → Bool
absent none = true
absent (some a) = false

abbrev pub id_of : Option User → ℤ
id_of none = pos 0
id_of (some u) = u.id

abbrev pub new_user : Str → Str → User
new_user username hash = record {
  id = pos 0;
  username = username;
  password_hash = hash;
  public_key = [];
  last_seen = 0;
  created_at = 0;
}

unfoldable pub flush_found : Str → ℕ → OfflineMessage → Option Message → Action (Unit {0})
flush_found username sid entry none = skip
flush_found username sid entry (some m) = do
  env ← gets (λ w. w.env)
  send sid (forward env username m)
  OfflineQueue.mark_delivered entry.id

unfoldable pub flush : Str → ℕ → OfflineMessage → Action (Unit {0})
unfolding flush_found
flush username sid entry = do
  m ← Messages.find_by_id entry.message_id
  flush_found username sid entry m

unfoldable pub execute_register : Packet → ℕ → Action (Unit {0})
unfolding flush
execute_register p sid = do
  old ← Users.find_by_username p.from
  require (absent old) (text "REGISTER: username already taken")
  hash ← hash_password p.body
  Users.save (new_user p.from hash)
  saved ← Users.find_by_username p.from
  token ← register_token
  Sessions.save (record {
    id = pos 0;
    user_id = id_of saved;
    session_token = token;
    created_at = 0;
    expires_at = 0;
    is_active = true;
  })
  authenticate sid p.from token
  pending ← OfflineQueue.find_undelivered_by_recipient p.from
  for_each (flush p.from sid) pending
  send sid (record (blank ack) { to = p.from; body = token })

unfoldable pub handler : Handler
unfolding validate execute_register
handler = record { validate = validate; authorize = λ sid. skip; execute = execute_register }
