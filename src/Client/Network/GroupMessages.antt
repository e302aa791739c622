-- ===== src/Client/Network/GroupMessages.antt =====
-- frontend/src/NetworkManager.cpp: a GROUP_MESSAGE from the server.
use bit_atm.Prelude.{not, [], ◌∷◌, ◌++◌, if◌then◌else◌, is_empty, Str, text, str_eq}
use bit_atm.Client.Throwing.{returns, ◌>>=◌, ◌>>◌, modify, gets, skip, when, try_catch}
use bit_atm.Client.Crypto.{decrypt}
use bit_atm.Client.Map.{insert, contains, value}
use bit_atm.Client.Storage.Groups
use bit_atm.Packet.{Packet, blank, ack}
use bit_atm.Client.Network.{Net, group_message_decrypted, crypt, stored, store, emit}
use bit_atm.Client.Network.Packets.{send_packet, request_group_key}
use bit_atm.Client.Network.Incoming.{packet_time}

unfoldable pub buffer_packet : Packet → Net (Unit {0})
unfolding ◌>>=◌ modify insert value request_group_key
buffer_packet p = do
  modify (λ n. record n {
    pending_group_packets =
        insert p.to (value p.to n.pending_group_packets ++ p ∷ []) n.pending_group_packets;
  })
  request_group_key p.to

-- The part of handleGroupMessage behind the search for the key.
unfoldable pub open_group_message : Packet → Str → Str → Net (Unit {0})
unfolding ◌>>=◌ returns gets modify stored store emit crypt decrypt insert value send_packet text
    Groups.is_group_message_duplicate Groups.save_group_message
open_group_message p ts aes_key = do
  user ← gets (λ n. n.current_username)
  let is_outgoing = str_eq p.from user
  when (not is_outgoing) (
      send_packet
        (record (blank ack) { from = user; to = p.to; body = ts; error_msg = text "delivered" }))
  known ← stored (Groups.is_group_message_duplicate p.to p.from ts)
  when (not known) (do
    plaintext ← crypt (λ o. decrypt o p.body aes_key)
    store (Groups.save_group_message p.to p.from plaintext ts is_outgoing)
    when (not is_outgoing) (
        modify (λ n. record n {
          unread_timestamps =
              insert p.to (value p.to n.unread_timestamps ++ ts ∷ []) n.unread_timestamps;
        }))
    emit (group_message_decrypted p.to p.from plaintext ts is_outgoing))

unfoldable pub with_stored_key : Packet → Str → Net (Unit {0})
unfolding ◌>>=◌ gets modify stored insert buffer_packet open_group_message Groups.load_group_key
with_stored_key p ts = do
  kept ← stored (Groups.load_group_key p.to)
  aes_key ← gets (λ n. n.env.ssl.from_base64 kept)
  if is_empty kept then buffer_packet p else (do
    modify (λ n. record n { group_keys = insert p.to aes_key n.group_keys })
    open_group_message p ts aes_key)

unfoldable pub handle_group_message : Packet → Net (Unit {0})
unfolding ◌>>=◌ returns gets try_catch contains value packet_time open_group_message with_stored_key
handle_group_message p = do
  ts ← packet_time p
  known ← gets (λ n. contains p.to n.group_keys)
  aes_key ← gets (λ n. value p.to n.group_keys)
  try_catch (if known then open_group_message p ts aes_key else with_stored_key p ts) (λ e. skip)
