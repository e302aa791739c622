-- ===== src/Client/Network/Events.antt =====
-- frontend/src/NetworkManager.cpp: the slots of the socket and of the network state, and logging out.
use bit_atm.Prelude.{
  Bool, true, false, not, ◌&&◌, Option, none, some, List, [], ◌∷◌, ◌++◌, if◌then◌else◌, is_empty,
  Str, text, str_eq, ℤ, to_string,
}
use bit_atm.Packet.{
  PacketType, Packet, type_of_code, err_packet, ack, message, key_exchange, read_receipt,
  group_invite, group_message, group_key_exchange, group_info, group_leave, delete_conversation,
}
use bit_atm.Error.{err, protocol}
use bit_atm.Wire.{extract}
use bit_atm.Wire.Stream.{open_stream}
use bit_atm.Client.Throwing.{returns, ◌>>=◌, ◌>>◌, modify, gets, skip, when}
use bit_atm.Client.Map.{lookup}
use bit_atm.Client.Storage
use bit_atm.Client.Network.{
  NetworkManager, Net, last_message_changed, current_username_changed, connection_changed,
  connected, disconnected, sync_complete, message_received, error_occurred, message_delivered,
  open_url, close_socket, ignore_ssl_errors, store, emit, request,
}
use bit_atm.Client.Network.Login.{handle_login_ack}
use bit_atm.Client.Network.Incoming.{handle_incoming_message}
use bit_atm.Client.Network.PeerKeys.{handle_key_exchange_response}
use bit_atm.Client.Network.Receipts.{
  canonical_of, handle_read_receipt, handle_group_send_ack, handle_group_delivered,
}
use bit_atm.Client.Network.GroupMessages.{handle_group_message}
use bit_atm.Client.Network.Invites.{
  handle_group_invite, handle_group_key_exchange, handle_group_info, handle_group_leave,
  handle_delete_conversation,
}

unfoldable pub logout : Net (Unit {0})
unfolding ◌>>=◌ modify store emit Storage.close
logout = do
  store Storage.close
  modify (λ n. record n {
    current_username = [];
    own_priv_key = [];
    own_pub_key = [];
    peer_keys = [];
    pending_messages = [];
    unread_timestamps = [];
    group_keys = [];
  })
  emit current_username_changed

abbrev or_itself : Str → Option Str → Str
or_itself group_id none = group_id
or_itself group_id (some name) = name

unfoldable pub get_group_name : Str → NetworkManager → Str
unfolding lookup
get_group_name group_id n = or_itself group_id (lookup group_id n.group_names)

-- The socket is in the connected state when the slot runs, and the ping timer starts.
unfoldable pub on_connected : Net (Unit {0})
unfolding ◌>>=◌ modify emit
on_connected = do
  modify (λ n. record n { is_connected = true; intentionally_connecting = false; pinging = true })
  emit connection_changed
  emit connected

unfoldable pub on_disconnected : Net (Unit {0})
unfolding ◌>>=◌ returns gets modify emit
on_disconnected = do
  modify (λ n. record n { is_connected = false; intentionally_connecting = false; pinging = false })
  emit connection_changed
  emit disconnected
  user ← gets (λ n. n.current_username)
  when (not (is_empty user))
      (do modify (λ n. record n { current_username = [] }); emit current_username_changed)

-- What the single-shot timer of onDisconnected does after two seconds, if the url was not empty.
unfoldable pub reconnect : Net (Unit {0})
unfolding ◌>>=◌ returns gets request
reconnect = do
  up ← gets (λ n. n.is_connected)
  url ← gets (λ n. n.server_url)
  when (not up) (request (open_url url))

unfoldable pub handle_ack : Packet → Net (Unit {0})
unfolding ◌>>=◌ returns gets modify emit canonical_of handle_group_delivered handle_group_send_ack
    handle_login_ack text
handle_ack p = do
  modify (λ n. record n { has_error = false })
  user ← gets (λ n. n.current_username)
  ts ← canonical_of p.timestamp
  if str_eq p.error_msg (text "delivered")
      then handle_group_delivered p
      else if not (is_empty p.error_msg) && not (is_empty p.timestamp)
      then handle_group_send_ack p
      else if not (is_empty p.body)
      then handle_login_ack p
      else if not (is_empty p.timestamp)
      then emit (message_delivered ts)
      else when (str_eq p.to user) (emit sync_complete)
  emit last_message_changed

unfoldable pub handle_err : Packet → Net (Unit {0})
unfolding ◌>>=◌ modify emit
handle_err p = do
  modify (λ n. record n { has_error = true; last_message = p.error_msg })
  emit last_message_changed

-- The switch on the type.
unfoldable pub dispatch : PacketType → Packet → Net (Unit {0})
unfolding returns handle_err handle_ack handle_incoming_message handle_key_exchange_response
    handle_read_receipt handle_group_invite handle_group_message handle_group_key_exchange
    handle_group_info handle_group_leave handle_delete_conversation
dispatch err_packet p = handle_err p
dispatch ack p = handle_ack p
dispatch message p = handle_incoming_message p
dispatch key_exchange p = handle_key_exchange_response p
dispatch read_receipt p = handle_read_receipt p
dispatch group_invite p = handle_group_invite p
dispatch group_message p = handle_group_message p
dispatch group_key_exchange p = handle_group_key_exchange p
dispatch group_info p = handle_group_info p
dispatch group_leave p = handle_group_leave p
dispatch delete_conversation p = handle_delete_conversation p
dispatch _ p = skip

unfoldable pub show_text : Str → Net (Unit {0})
unfolding ◌>>=◌ modify emit
show_text frame = do
  modify (λ n. record n { has_error = false; last_message = frame })
  emit last_message_changed
  emit (message_received frame)

unfoldable pub handle_packet : PacketType → Packet → Str → Net (Unit {0})
unfolding ◌>>=◌ dispatch emit
handle_packet t p frame = do dispatch t (record p { type = t }); emit (message_received frame)

unfoldable pub on_ssl_errors : List Str → Net (Unit {0})
unfolding ◌>>=◌ returns modify emit request
on_ssl_errors [] = skip
on_ssl_errors (e ∷ rest) = do
  request ignore_ssl_errors
  modify (λ n. record n { has_error = true; last_message = e })
  emit last_message_changed
  emit (error_occurred e)

unfoldable pub on_reachability_changed : Bool → Net (Unit {0})
unfolding ◌>>=◌ returns gets request
on_reachability_changed online = do
  wanted ←
      gets
        (λ n. not n.is_connected && not (is_empty n.server_url) && not n.intentionally_connecting)
  url ← gets (λ n. n.server_url)
  if online then when wanted (request (open_url url)) else request close_socket

-- The exception of operator>> on an unknown type, which the slot does not catch.
unfoldable pub escapes : ℤ → Net (Unit {0})
unfolding text
escapes t n = (err (protocol (text "unknown packet type: " ++ to_string t)), n)

unfoldable pub on_extracted : ℤ → Packet → Option PacketType → Bool → Str → Net (Unit {0})
unfolding escapes show_text handle_packet
on_extracted t p none fail frame = escapes t
on_extracted t p (some ty) true frame = show_text frame
on_extracted t p (some ty) false frame = handle_packet ty p frame

-- `t0` is what the uninitialised local of operator>> holds.
unfoldable pub on_text_message_received : ℤ → Str → Net (Unit {0})
unfolding extract on_extracted
on_text_message_received t0 frame =
    let (t, p, end) = extract t0 (open_stream frame) in
    on_extracted t p (type_of_code t) end.fail frame
