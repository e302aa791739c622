-- ===== src/Client/Network/Packets.antt =====
-- frontend/src/NetworkManager.cpp: the packets that the client sends on its own.
pub mod Frames
pub mod Asked
use bit_atm.Prelude.{
  ℕ, Bool, true, false, not, ◌&&◌, ◌||◌, Option, none, some, List, [], ◌∷◌, ◌++◌, if◌then◌else◌,
  is_empty, any, Str, text, str_eq, pos, to_string,
}
use bit_atm.Packet.{
  Packet, blank, type_code, login, register, message, key_exchange, sync_history, read_receipt,
  group_leave, group_info, delete_group, delete_conversation, group_key_exchange,
}
use bit_atm.Client.Throwing.{returns, ◌>>=◌, ◌>>◌, modify, gets, skip, when, for_each}
use bit_atm.Client.Date.{DateTime, Reading, invalid}
use bit_atm.Client.Map.{Map, contains, value, remove}
use bit_atm.Client.Storage.Messages
use bit_atm.Client.Network.{
  NetworkManager, Net, Request, text_message, conversation_deleted, stored, store, emit, request,
  fail_with, open_url,
}

-- What the ostringstream holds.
unfoldable pub frame : Packet → Str
frame p =
    to_string (pos (type_code p.type))
    ++ text "|"
    ++ to_string p.version
    ++ text "|"
    ++ p.from
    ++ text "|"
    ++ p.to
    ++ text "|"
    ++ p.body
    ++ text "|"
    ++ p.key
    ++ text "|"
    ++ p.timestamp
    ++ text "|"
    ++ p.error_msg

unfoldable pub send_packet : Packet → Net (Unit {0})
unfolding ◌>>=◌ gets fail_with request frame text
send_packet p = do
  up ← gets (λ n. n.is_connected)
  if up then request (text_message (frame p)) else fail_with (text "Not connected to server")

-- A packet of the current user to someone.
unfoldable pub send_as_user : (Str → Packet) → Net (Unit {0})
unfolding ◌>>=◌ gets send_packet
send_as_user f = do user ← gets (λ n. n.current_username); send_packet (f user)

unfoldable pub connect_to_server : Str → Net (Unit {0})
unfolding ◌>>=◌ modify request
connect_to_server url = do
  modify (λ n. record n { server_url = url; intentionally_connecting = true })
  request (open_url url)

unfoldable pub send_register : Str → Str → Net (Unit {0})
unfolding ◌>>=◌ modify send_packet
send_register username password = do
  modify (λ n. record n { pending_register = true })
  send_packet (record (blank register) { from = username; body = password })

unfoldable pub send_login : Str → Str → Net (Unit {0})
unfolding ◌>>=◌ modify send_packet
send_login username password = do
  modify (λ n. record n { pending_register = false })
  send_packet (record (blank login) { from = username; body = password })

unfoldable pub fetch_peer_key : Str → Net (Unit {0})
unfolding send_as_user
fetch_peer_key username =
    send_as_user (λ user. record (blank key_exchange) { from = user; to = username })

abbrev is_read : Reading → Bool
is_read invalid = false
is_read _ = true

unfoldable pub send_sync_history : Net (Unit {0})
unfolding ◌>>=◌ gets stored Messages.newest_timestamp send_as_user
send_sync_history = do
  ts ← stored Messages.newest_timestamp
  valid ← gets (λ n. is_read (n.env.dates.from_string ts) || n.env.reads_iso_date ts)
  send_as_user
      (λ user. record (blank sync_history) { from = user; body = if valid then ts else [] })

unfoldable pub send_read_receipt : Str → Str → Net (Unit {0})
unfolding send_as_user
send_read_receipt peer ts =
    send_as_user (λ user. record (blank read_receipt) { from = user; to = peer; body = ts })

unfoldable pub mark_conversation_read : Str → Net (Unit {0})
unfolding ◌>>=◌ returns gets modify for_each contains value remove send_read_receipt
mark_conversation_read peer = do
  ready ← gets (λ n.
      not (is_empty n.current_username) && n.is_connected && contains peer n.unread_timestamps)
  timestamps ← gets (λ n. value peer n.unread_timestamps)
  when ready (do
    modify (λ n. record n { unread_timestamps = remove peer n.unread_timestamps })
    for_each (send_read_receipt peer) timestamps)

unfoldable pub kick_member : Str → Str → Net (Unit {0})
unfolding send_as_user
kick_member group_id username =
    send_as_user
      (λ user. record (blank group_leave) { from = user; to = group_id; body = username })

unfoldable pub grant_admin : Str → Str → Net (Unit {0})
unfolding send_as_user text
grant_admin group_id username = send_as_user (λ user. record (blank group_info) {
  from = user;
  to = group_id;
  body = text "grant_admin";
  key = username;
})

unfoldable pub revoke_admin : Str → Str → Net (Unit {0})
unfolding send_as_user text
revoke_admin group_id username = send_as_user (λ user. record (blank group_info) {
  from = user;
  to = group_id;
  body = text "revoke_admin";
  key = username;
})

unfoldable pub leave_group : Str → Net (Unit {0})
unfolding send_as_user
leave_group group_id =
    send_as_user (λ user. record (blank group_leave) { from = user; to = group_id })

unfoldable pub delete_group_of : Str → Net (Unit {0})
unfolding send_as_user
delete_group_of group_id =
    send_as_user (λ user. record (blank delete_group) { from = user; to = group_id })

unfoldable pub fetch_group_info : Str → Net (Unit {0})
unfolding send_as_user
fetch_group_info group_id =
    send_as_user (λ user. record (blank group_info) { from = user; to = group_id })

unfoldable pub delete_local : Str → Net (Unit {0})
unfolding ◌>>=◌ store emit Messages.delete_conversation
delete_local peer = do store (Messages.delete_conversation peer); emit (conversation_deleted peer)

unfoldable pub delete_for_everyone : Str → Net (Unit {0})
unfolding ◌>>=◌ delete_local send_as_user
delete_for_everyone peer = do
  delete_local peer
  send_as_user (λ user. record (blank delete_conversation) { from = user; to = peer })

unfoldable pub request_group_key : Str → Net (Unit {0})
unfolding ◌>>=◌ returns gets modify send_as_user
request_group_key group_id = do
  asked ← gets (λ n. any (λ g. str_eq g group_id) n.pending_group_key_requests)
  if asked then skip else (do
    modify (λ n. record n { pending_group_key_requests = group_id ∷ n.pending_group_key_requests })
    send_as_user (λ user. record (blank group_key_exchange) { from = user; to = group_id }))
