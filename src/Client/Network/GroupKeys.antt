-- ===== src/Client/Network/GroupKeys.antt =====
-- frontend/src/NetworkManager.cpp: messages to groups and the keys of members.
use bit_atm.Prelude.{true, [], ◌∷◌, ◌++◌, if◌then◌else◌, Str, text}
use bit_atm.Error.{what}
use bit_atm.Client.Throwing.{returns, ◌>>=◌, ◌>>◌, modify, gets, skip, when, try_catch}
use bit_atm.Client.Crypto.{generate_key, encrypt_rsa, encrypt}
use bit_atm.Client.Map.{insert, contains, value}
use bit_atm.Client.Storage.Groups
use bit_atm.Packet.{blank, group_message, group_key_exchange}
use bit_atm.Client.Network.{Net, crypt, store, fail_with}
use bit_atm.Client.Network.Packets.{
  send_packet, send_as_user, fetch_peer_key, fetch_group_info, request_group_key,
}
use bit_atm.Client.Network.Messages.{or_now}

unfoldable pub encrypt_for_group : Str → Str → Str → Net (Unit {0})
unfolding ◌>>=◌ gets crypt encrypt value or_now send_packet store Groups.save_group_message
encrypt_for_group group_id plaintext timestamp = do
  aes_key ← gets (λ n. value group_id n.group_keys)
  ciphertext ← crypt (λ o. encrypt o plaintext aes_key)
  ts ← or_now timestamp
  user ← gets (λ n. n.current_username)
  send_packet (record (blank group_message) {
    from = user;
    to = group_id;
    body = ciphertext;
    timestamp = ts;
  })
  store (Groups.save_group_message group_id user plaintext ts true)

unfoldable pub send_group_message : Str → Str → Str → Net (Unit {0})
unfolding ◌>>=◌ gets modify try_catch contains insert value encrypt_for_group request_group_key
    fail_with text
send_group_message group_id plaintext timestamp = do
  known ← gets (λ n. contains group_id n.group_keys)
  if known
      then try_catch (encrypt_for_group group_id plaintext timestamp)
          (λ e. fail_with (text "sendGroupMessage failed: " ++ what e))
      else (do
        modify (λ n. record n {
          pending_group_sends =
              insert group_id (value group_id n.pending_group_sends ++ (plaintext, timestamp) ∷ [])
                n.pending_group_sends;
        })
        request_group_key group_id)

unfoldable pub send_member_key : Str → Str → Net (Unit {0})
unfolding ◌>>=◌ gets crypt encrypt_rsa value send_as_user text
send_member_key group_id username = do
  aes_key ← gets (λ n. value group_id n.group_keys)
  key ← gets (λ n. value username n.peer_keys)
  wrapped ← crypt (λ o. encrypt_rsa o aes_key key)
  base64 ← gets (λ n. n.env.ssl.to_base64)
  send_as_user (λ user. record (blank group_key_exchange) {
    from = user;
    to = group_id;
    key = username ++ text ":" ++ base64 wrapped;
  })

unfoldable pub add_group_member : Str → Str → Net (Unit {0})
unfolding ◌>>=◌ returns gets modify try_catch contains insert value fetch_peer_key send_member_key
add_group_member group_id username = do
  known ← gets (λ n. contains username n.peer_keys)
  has_key ← gets (λ n. contains group_id n.group_keys)
  if known then when has_key (try_catch (send_member_key group_id username) (λ e. skip)) else (do
    modify (λ n. record n {
      pending_group_member_adds =
          insert username (value username n.pending_group_member_adds ++ group_id ∷ [])
            n.pending_group_member_adds;
    })
    fetch_peer_key username)

unfoldable pub rotate_group_key : Str → Net (Unit {0})
unfolding ◌>>=◌ returns gets modify try_catch store crypt generate_key insert fetch_group_info
    Groups.save_group_key
rotate_group_key group_id =
    try_catch
      (do
        new_key ← crypt (λ o. generate_key o)
        modify (λ n. record n { group_keys = insert group_id new_key n.group_keys })
        base64 ← gets (λ n. n.env.ssl.to_base64 new_key)
        store (Groups.save_group_key group_id base64)
        fetch_group_info group_id)
      (λ e. skip)
