-- ===== src/Client/Network/Invites.antt =====
-- frontend/src/NetworkManager.cpp: the keys, members and end of a group, as the server tells them.
pub mod Arrived
pub mod Drained
pub mod Waiting
use bit_atm.Prelude.{
  not, Option, none, some, List, [], ◌∷◌, ◌++◌, if◌then◌else◌, select, map, split_at, Str, text,
  str_eq,
}
use bit_atm.Client.Throwing.{returns, ◌>>=◌, ◌>>◌, modify, gets, skip, when, for_each, try_catch}
use bit_atm.Client.Crypto.{decrypt_rsa}
use bit_atm.Client.Map.{insert, contains, value, remove}
use bit_atm.Client.Storage.Groups
use bit_atm.Client.Storage.Recipients
use bit_atm.Packet.{Packet}
use bit_atm.Client.Network.{
  Net, group_receipt_updated, group_invite_received, group_key_updated, group_info_received,
  group_left, crypt, stored, store, emit,
}
use bit_atm.Client.Network.Packets.{delete_local}
use bit_atm.Client.Network.GroupKeys.{send_group_message, rotate_group_key}
use bit_atm.Client.Network.Receipts.{parts, recompute_group_aggregate}
use bit_atm.Client.Network.GroupMessages.{handle_group_message}

-- The buffered packets and messages of a group whose key is there now.
unfoldable pub drain : Str → Net (Unit {0})
unfolding ◌>>=◌ gets modify for_each value remove handle_group_message send_group_message
drain group_id = do
  buffered ← gets (λ n. value group_id n.pending_group_packets)
  modify (λ n. record n { pending_group_packets = remove group_id n.pending_group_packets })
  for_each handle_group_message buffered
  sends ← gets (λ n. value group_id n.pending_group_sends)
  modify (λ n. record n { pending_group_sends = remove group_id n.pending_group_sends })
  for_each (λ m. send_group_message group_id m.0 m.1) sends

-- The group's key out of a packet, kept in memory.
unfoldable pub take_key : Str → Str → Net Str
unfolding ◌>>=◌ returns gets modify crypt decrypt_rsa insert
take_key group_id enc_key = do
  wrapped ← gets (λ n. n.env.ssl.from_base64 enc_key)
  own_key ← gets (λ n. n.own_priv_key)
  aes_key ← crypt (λ o. decrypt_rsa o wrapped own_key)
  modify (λ n. record n { group_keys = insert group_id aes_key n.group_keys })
  returns aes_key

unfoldable pub save_key : Str → Str → Net (Unit {0})
unfolding ◌>>=◌ gets store Groups.save_group_key
save_key group_id aes_key = do
  base64 ← gets (λ n. n.env.ssl.to_base64 aes_key)
  store (Groups.save_group_key group_id base64)

unfoldable pub key_arrived : Str → Net (Unit {0})
unfolding ◌>>=◌ modify emit drain
key_arrived group_id = do
  modify (λ n. record n {
    pending_group_key_requests = select (λ g. not (str_eq g group_id)) n.pending_group_key_requests;
  })
  emit (group_key_updated group_id)
  drain group_id

unfoldable pub handle_group_invite : Packet → Net (Unit {0})
unfolding ◌>>=◌ returns modify try_catch store emit insert take_key save_key key_arrived text
    Groups.save_group
handle_group_invite p =
    try_catch
      (do
        aes_key ← take_key p.body p.key
        modify (λ n. record n { group_names = insert p.body p.error_msg n.group_names })
        store (Groups.save_group p.body p.error_msg (text "member"))
        save_key p.body aes_key
        emit (group_invite_received p.body p.error_msg)
        key_arrived p.body)
      (λ e. skip)

unfoldable pub handle_group_key_exchange : Packet → Net (Unit {0})
unfolding ◌>>=◌ returns try_catch take_key save_key key_arrived
handle_group_key_exchange p =
    try_catch (do aes_key ← take_key p.to p.key; save_key p.to aes_key; key_arrived p.to)
      (λ e. skip)

-- "name:role", or nothing where there is no colon.
abbrev member_of : Option (Str × Str) → List (Str × Str)
member_of none = []
member_of (some m) = m ∷ []

unfoldable pub members_of : List Str → List (Str × Str)
unfolding split_at
members_of [] = []
members_of (entry ∷ rest) = member_of (split_at b':' entry) ++ members_of rest

-- The sentinel key of a group whose creation was just acknowledged.
unfoldable pub claim_sentinel : Str → Net (Unit {0})
unfolding ◌>>=◌ returns gets modify contains value insert remove save_key text
claim_sentinel group_id = do
  created ← gets (λ n. contains (text "0") n.group_keys)
  aes_key ← gets (λ n. value (text "0") n.group_keys)
  when created (do
    modify (λ n. record n { group_keys = insert group_id aes_key (remove (text "0") n.group_keys) })
    save_key group_id aes_key)

unfoldable pub update_receipts : Str → Str → Net (Unit {0})
unfolding ◌>>=◌ emit recompute_group_aggregate
update_receipts group_id ts = do
  emit (group_receipt_updated group_id ts)
  recompute_group_aggregate group_id ts

unfoldable pub handle_group_info : Packet → Net (Unit {0})
unfolding ◌>>=◌ modify stored store emit for_each insert claim_sentinel parts members_of
    update_receipts text Groups.save_group Recipients.remove_recipients_not_in
handle_group_info p = do
  claim_sentinel p.body
  store (Groups.save_group p.body p.error_msg (text "creator"))
  modify (λ n. record n { group_names = insert p.body p.error_msg n.group_names })
  let members = members_of (parts p.key)
  affected ← stored (Recipients.remove_recipients_not_in p.body (map (λ m. m.0) members))
  for_each (update_receipts p.body) affected
  emit (group_info_received p.body p.error_msg members)

unfoldable pub handle_group_leave : Packet → Net (Unit {0})
unfolding ◌>>=◌ modify store emit remove rotate_group_key text Groups.remove_group
handle_group_leave p = if str_eq p.body (text "rotate") then rotate_group_key p.key else (do
  modify (λ n. record n {
    group_keys = remove p.body n.group_keys;
    group_names = remove p.body n.group_names;
  })
  store (Groups.remove_group p.body)
  emit (group_left p.body))

unfoldable pub handle_delete_conversation : Packet → Net (Unit {0})
unfolding delete_local
handle_delete_conversation p = delete_local p.from
