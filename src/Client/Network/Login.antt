-- ===== src/Client/Network/Login.antt =====
-- frontend/src/NetworkManager.cpp: the login and the local history.
use bit_atm.Prelude.{
  Bool, true, false, not, ◌&&◌, ◌||◌, [], ◌∷◌, ◌++◌, if◌then◌else◌, is_empty, select, ◌==◌, Str,
  text, str_eq,
}
use bit_atm.Error.{what}
use bit_atm.Packet.{Packet, blank, key_exchange}
use bit_atm.Client.Throwing.{returns, ◌>>=◌, ◌>>◌, modify, gets, when, for_each, try_catch}
use bit_atm.Client.Crypto.{generate_keypair}
use bit_atm.Client.Map.{Map, insert, value}
use bit_atm.Client.Storage
use bit_atm.Client.Storage.{MessageRecord, ConversationRecord, GroupMessageRecord, GroupRow}
use bit_atm.Client.Storage.Messages
use bit_atm.Client.Storage.Groups
use bit_atm.Client.Network.{
  Net, current_username_changed, history_sync_message, group_history_sync_message,
  conv_list_updated, group_conv_updated, crypt, stored, store, emit, fail_with,
}
use bit_atm.Client.Network.Packets.{send_packet, send_sync_history}

abbrev pub_key_name : Str → Str
pub_key_name user = text "crypto/" ++ user ++ text "/pubkey"

abbrev priv_key_name : Str → Str
priv_key_name user = text "crypto/" ++ user ++ text "/privkey"

unfoldable pub new_keypair : Str → Net (Unit {0})
unfolding ◌>>=◌ modify crypt generate_keypair insert text
new_keypair user = do
  pair ← crypt (λ o. generate_keypair o)
  modify (λ n. record n {
    own_pub_key = pair.0;
    own_priv_key = pair.1;
    settings = insert (priv_key_name user) pair.1 (insert (pub_key_name user) pair.0 n.settings);
  })

unfoldable pub load_or_generate_keypair : Net (Unit {0})
unfolding ◌>>=◌ gets modify value new_keypair text
load_or_generate_keypair = do
  user ← gets (λ n. n.current_username)
  pub_key ← gets (λ n. value (pub_key_name user) n.settings)
  priv_key ← gets (λ n. value (priv_key_name user) n.settings)
  if not (is_empty pub_key) && not (is_empty priv_key)
      then modify (λ n. record n { own_pub_key = pub_key; own_priv_key = priv_key })
      else new_keypair user

unfoldable pub show_message : MessageRecord → Net (Unit {0})
unfolding emit
show_message m =
    emit (history_sync_message m.peer m.sender m.content m.timestamp m.is_outgoing m.status)

unfoldable pub show_conversation : ConversationRecord → Net (Unit {0})
unfolding ◌>>=◌ returns gets stored emit for_each show_message Messages.load_messages
show_conversation c = do
  user ← gets (λ n. n.current_username)
  when (not (str_eq c.peer user)) (do
    msgs ← stored (Messages.load_messages c.peer)
    for_each show_message msgs
    emit (conv_list_updated c.peer c.last_message c.last_timestamp c.unread_count))

unfoldable pub show_group_message : GroupMessageRecord → Net (Unit {0})
unfolding emit
show_group_message m =
    emit
      (group_history_sync_message m.group_id m.sender m.content m.timestamp m.is_outgoing m.status)

unfoldable pub show_group : GroupRow → Net (Unit {0})
unfolding ◌>>=◌ returns stored emit modify for_each insert show_group_message Groups.load_group_key
    Groups.load_group_messages
show_group g = do
  modify (λ n. record n { group_names = insert g.group_id g.name n.group_names })
  key ← stored (Groups.load_group_key g.group_id)
  when (not (is_empty key)) (
      modify
        (λ n. record n { group_keys = insert g.group_id (n.env.ssl.from_base64 key) n.group_keys }))
  msgs ← stored (Groups.load_group_messages g.group_id)
  for_each show_group_message msgs
  emit (
      group_conv_updated g.group_id g.name (Messages.or_empty g.last_message)
        (Messages.or_empty g.last_timestamp) g.unread_count)

unfoldable pub load_local_history : Net (Unit {0})
unfolding ◌>>=◌ stored for_each show_conversation show_group Messages.load_conversations
    Groups.load_groups
load_local_history = do
  convs ← stored Messages.load_conversations
  for_each show_conversation convs
  groups ← stored Groups.load_groups
  for_each show_group groups

-- The bytes of `s` behind a prefix.
abbrev has_prefix : Str → Str → Bool
has_prefix [] s = true
has_prefix (a ∷ p) [] = false
has_prefix (a ∷ p) (b ∷ s) = if a == b then has_prefix p s else false

-- settings.remove(key), with the settings below the key.
unfoldable pub remove_setting : Str → Map Str → Map Str
unfolding text
remove_setting key = select (λ s. not (str_eq s.0 key || has_prefix (key ++ text "/") s.0))

unfoldable pub upload_key : Str → Net (Unit {0})
unfolding ◌>>=◌ gets load_or_generate_keypair send_packet
upload_key user = do
  load_or_generate_keypair
  key ← gets (λ n. n.env.ssl.to_base64 n.own_pub_key)
  send_packet (record (blank key_exchange) { from = user; key = key })

-- Whether the key setup came to its end, which its catch block tells.
unfoldable pub set_up_keys : Str → Net Bool
unfolding ◌>>=◌ returns try_catch upload_key fail_with text
set_up_keys user =
    try_catch (upload_key user >> returns true)
      (λ e. fail_with (text "Key setup failed: " ++ what e) >> returns false)

unfoldable pub handle_login_ack : Packet → Net (Unit {0})
unfolding ◌>>=◌ returns gets modify stored store emit set_up_keys load_local_history
    send_sync_history remove_setting text Storage.close Storage.open_for_user
handle_login_ack p = do
  previous ← gets (λ n. n.current_username)
  modify (λ n. record n {
    has_error = false;
    current_username = p.to;
    last_message = text "Logged in as " ++ p.to;
  })
  emit current_username_changed
  when (not (is_empty previous) && not (str_eq previous p.to)) (store Storage.close)
  opened ← stored (Storage.open_for_user p.to)
  fresh ← gets (λ n. n.pending_register)
  when fresh (
      modify (λ n. record n {
        settings = remove_setting (text "history/" ++ p.to) n.settings;
        pending_register = false;
      }))
  ready ← set_up_keys p.to
  when ready (load_local_history >> send_sync_history)
