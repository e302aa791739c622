-- ===== src/Client/Network/Incoming.antt =====
-- frontend/src/NetworkManager.cpp: a MESSAGE from the server.
pub mod Accept
pub mod Unlock
pub mod Twice
use bit_atm.Prelude.{
  true, false, not, ◌||◌, none, some, [], ◌∷◌, ◌++◌, if◌then◌else◌, is_empty, split_at, Str, text,
  str_eq,
}
use bit_atm.Packet.{Packet}
use bit_atm.Client.Throwing.{returns, ◌>>=◌, ◌>>◌, modify, gets, when, try_catch}
use bit_atm.Client.Crypto.{decrypt_rsa, decrypt}
use bit_atm.Client.Date.{canonical}
use bit_atm.Client.Map.{insert, value}
use bit_atm.Client.Storage.Messages
use bit_atm.Client.Network.{
  Net, history_sync_message, message_decrypted, crypt, stored, utc_now, emit,
}
use bit_atm.Client.Network.Messages.{persist_message}

-- The time of a packet from the server.
unfoldable pub packet_time : Packet → Net Str
unfolding gets utc_now canonical
packet_time p =
    if is_empty p.timestamp then utc_now else gets (λ n. canonical n.env.dates p.timestamp)

-- What stands before and behind the first ';', or all of the field.
unfoldable pub recipient_part : Str → Str
unfolding split_at
recipient_part key = elim (split_at b';' key) [ none ↦ key | some (l, r) ↦ l ]

unfoldable pub sender_part : Str → Str
unfolding split_at
sender_part key = elim (split_at b';' key) [ none ↦ key | some (l, r) ↦ r ]

-- The plaintext of a body under a wrapped key.
unfoldable pub unlock : Str → Str → Net Str
unfolding ◌>>=◌ gets crypt decrypt_rsa decrypt
unlock wrapped_base64 body = do
  wrapped ← gets (λ n. n.env.ssl.from_base64 wrapped_base64)
  own_key ← gets (λ n. n.own_priv_key)
  aes_key ← crypt (λ o. decrypt_rsa o wrapped own_key)
  crypt (λ o. decrypt o body aes_key)

unfoldable pub show_sent : Str → Str → Str → Net (Unit {0})
unfolding ◌>>=◌ gets persist_message emit text
show_sent peer content ts = do
  user ← gets (λ n. n.current_username)
  persist_message peer user content ts true
  emit (history_sync_message peer user content ts true (text "sent"))

unfoldable pub handle_echo : Packet → Str → Net (Unit {0})
unfolding ◌>>=◌ returns gets stored try_catch unlock sender_part show_sent text
    Messages.is_duplicate
handle_echo p ts = do
  user ← gets (λ n. n.current_username)
  when (not (str_eq p.to user)) (do
    known ← stored (Messages.is_duplicate p.to user ts)
    legacy ← gets (λ n. is_empty (sender_part p.key) || is_empty n.own_priv_key)
    when (not known) (
        if legacy
        then show_sent p.to (text "[Sent]") ts
        else try_catch
            (unlock (sender_part p.key) p.body >>= λ plaintext. show_sent p.to plaintext ts)
            (λ e. show_sent p.to (text "[Sent]") ts)))

-- What the try block does with the plaintext of a message of someone else.
unfoldable pub accept : Packet → Str → Str → Net (Unit {0})
unfolding ◌>>=◌ returns gets stored modify emit persist_message insert value Messages.is_duplicate
accept p ts plaintext = do
  user ← gets (λ n. n.current_username)
  when (not (str_eq p.from user)) (do
    known ← stored (Messages.is_duplicate p.from p.from ts)
    when (not known) (do
      persist_message p.from p.from plaintext ts false
      modify (λ n. record n {
        unread_timestamps =
            insert p.from (value p.from n.unread_timestamps ++ ts ∷ []) n.unread_timestamps;
      })
      emit (message_decrypted p.from plaintext ts)))

unfoldable pub receive : Packet → Str → Net (Unit {0})
unfolding ◌>>=◌ unlock recipient_part accept
receive p ts = unlock (recipient_part p.key) p.body >>= accept p ts

unfoldable pub receive_undecryptable : Packet → Str → Net (Unit {0})
unfolding ◌>>=◌ returns gets stored emit persist_message text Messages.is_duplicate
receive_undecryptable p ts = do
  user ← gets (λ n. n.current_username)
  when (not (str_eq p.from user)) (do
    known ← stored (Messages.is_duplicate p.from p.from ts)
    when (not known) (do
      persist_message p.from p.from (text "[Encrypted]") ts false
      emit (message_decrypted p.from (text "[Encrypted]") ts)))

unfoldable pub handle_incoming_message : Packet → Net (Unit {0})
unfolding ◌>>=◌ returns gets try_catch packet_time handle_echo receive receive_undecryptable text
handle_incoming_message p = do
  ts ← packet_time p
  no_key ← gets (λ n. is_empty n.own_priv_key)
  if str_eq p.error_msg (text "1")
      then handle_echo p ts
      else when (not no_key) (try_catch (receive p ts) (λ e. receive_undecryptable p ts))
