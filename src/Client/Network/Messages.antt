-- ===== src/Client/Network/Messages.antt =====
-- frontend/src/NetworkManager.cpp: sending one-to-one messages.
pub mod EndToEnd
use bit_atm.Prelude.{
  ℕ, Bool, true, false, not, ◌&&◌, ◌||◌, Option, none, some, List, [], ◌∷◌, ◌++◌, if◌then◌else◌,
  is_empty, any, every, is_digit, select, split_at, tokens, ◌==◌, Str, text, str_eq,
}
use bit_atm.Error.{Error, what}
use bit_atm.Packet.{Packet, blank, message, key_exchange}
use bit_atm.Client.Throwing.{returns, ◌>>=◌, ◌>>◌, modify, gets, skip, when, for_each, try_catch}
use bit_atm.Client.Crypto.{
  OpenSsl, generate_key, generate_keypair, encrypt_rsa, decrypt_rsa, encrypt, decrypt,
}
use bit_atm.Client.Date.{DateTime, canonical}
use bit_atm.Client.Map.{Map, insert, contains, value, remove}
use bit_atm.Client.Storage
use bit_atm.Client.Storage.{MessageRecord, ConversationRecord, GroupMessageRecord, GroupRow}
use bit_atm.Client.Storage.Messages
use bit_atm.Client.Storage.Groups
use bit_atm.Client.Storage.Recipients
use bit_atm.Client.Network.{
  NetworkManager, Net, Signal, last_message_changed, current_username_changed, history_sync_message,
  group_history_sync_message, conv_list_updated, group_conv_updated, message_decrypted,
  message_seen, group_message_delivered, group_receipt_updated, crypt, stored, store, utc_now, emit,
  fail_with,
}
use bit_atm.Client.Network.Packets.{send_packet, fetch_peer_key, send_sync_history}

unfoldable pub persist_message : Str → Str → Str → Str → Bool → Net (Unit {0})
unfolding ◌>>=◌ store Messages.save_message Messages.save_conversation text
persist_message peer sender content timestamp is_outgoing = do
  store (Messages.save_message peer sender content timestamp is_outgoing (text "sent"))
  store (Messages.save_conversation peer content timestamp)

-- timestamp.isEmpty() ? QDateTime::currentDateTimeUtc() : timestamp
unfoldable pub or_now : Str → Net Str
unfolding returns utc_now
or_now timestamp = if is_empty timestamp then utc_now else returns timestamp

unfoldable pub message_packet : Str → Str → Str → Str → Str → Str → Packet
message_packet from to body wrapped wrapped_self ts = record (blank message) {
  from = from;
  to = to;
  body = body;
  key = wrapped ++ b';' ∷ wrapped_self;
  timestamp = ts;
}

unfoldable pub encrypt_for : Str → Str → Str → Net (Unit {0})
unfolding ◌>>=◌ gets crypt generate_key encrypt encrypt_rsa or_now send_packet persist_message value
    message_packet
encrypt_for to plaintext timestamp = do
  aes_key ← crypt (λ o. generate_key o)
  body ← crypt (λ o. encrypt o plaintext aes_key)
  peer_key ← gets (λ n. value to n.peer_keys)
  wrapped ← crypt (λ o. encrypt_rsa o aes_key peer_key)
  own_key ← gets (λ n. n.own_pub_key)
  wrapped_self ← crypt (λ o. encrypt_rsa o aes_key own_key)
  ts ← or_now timestamp
  user ← gets (λ n. n.current_username)
  base64 ← gets (λ n. n.env.ssl.to_base64)
  send_packet (message_packet user to body (base64 wrapped) (base64 wrapped_self) ts)
  persist_message to user plaintext ts true

unfoldable pub encrypt_and_send : Str → Str → Str → Net (Unit {0})
unfolding ◌>>=◌ returns gets try_catch encrypt_for fail_with text
encrypt_and_send to plaintext timestamp = do
  user ← gets (λ n. n.current_username)
  if str_eq to user
      then skip
      else try_catch (encrypt_for to plaintext timestamp)
          (λ e. fail_with (text "Encrypt failed: " ++ what e))

unfoldable pub send_message : Str → Str → Str → Net (Unit {0})
unfolding ◌>>=◌ gets modify contains insert value fetch_peer_key encrypt_and_send
send_message to plaintext timestamp = do
  known ← gets (λ n. contains to n.peer_keys)
  if known then encrypt_and_send to plaintext timestamp else (do
    modify (λ n. record n {
      pending_messages =
          insert to (value to n.pending_messages ++ (plaintext, timestamp) ∷ []) n.pending_messages;
    })
    fetch_peer_key to)
