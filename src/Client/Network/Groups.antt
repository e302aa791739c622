-- ===== src/Client/Network/Groups.antt =====
-- frontend/src/NetworkManager.cpp: the creation of groups.
use bit_atm.Prelude.{List, [], ◌∷◌, ◌++◌, if◌then◌else◌, is_empty, map, Str, text}
use bit_atm.Error.{what}
use bit_atm.Client.Throwing.{returns, ◌>>=◌, ◌>>◌, modify, gets, try_catch}
use bit_atm.Client.Crypto.{generate_key, encrypt_rsa}
use bit_atm.Client.Map.{insert, contains, value}
use bit_atm.Packet.{blank, create_group}
use bit_atm.Client.Network.{Net, PendingGroupCreate, crypt, fail_with}
use bit_atm.Client.Network.Packets.{send_as_user, fetch_peer_key}

-- QStringList::join.
unfoldable pub join : Str → List Str → Str
join sep [] = []
join sep (a ∷ []) = a
join sep (a ∷ b ∷ rest) = a ++ sep ++ join sep (b ∷ rest)

unfoldable pub send_create_group_packet : PendingGroupCreate → Net (Unit {0})
unfolding ◌>>=◌ gets send_as_user join text
send_create_group_packet pending = do
  base64 ← gets (λ n. n.env.ssl.to_base64)
  send_as_user (λ user. record (blank create_group) {
    from = user;
    error_msg = pending.name;
    body = join (text ",") pending.members;
    key = join (text ";") (map (λ k. k.0 ++ text ":" ++ base64 k.1) pending.collected_keys);
  })

-- pending.collectedKeys[member] = _crypto.encryptRSA(aesKey, key)
unfoldable pub collect_key : Str → Str → PendingGroupCreate → Net PendingGroupCreate
unfolding ◌>>=◌ returns crypt encrypt_rsa insert
collect_key member key pending = do
  wrapped ← crypt (λ o. encrypt_rsa o pending.aes_key key)
  returns (record pending { collected_keys = insert member wrapped pending.collected_keys })

unfoldable pub collect_member : Str → PendingGroupCreate → Net PendingGroupCreate
unfolding ◌>>=◌ returns gets contains value collect_key fetch_peer_key
collect_member m pending = do
  known ← gets (λ n. contains m n.peer_keys)
  key ← gets (λ n. value m n.peer_keys)
  if known then collect_key m key pending else (do
    fetch_peer_key m
    returns (record pending { waiting_for = pending.waiting_for ++ m ∷ [] }))

unfoldable pub collect_members : List Str → PendingGroupCreate → Net PendingGroupCreate
unfolding ◌>>=◌ returns collect_member
collect_members [] pending = returns pending
collect_members (m ∷ rest) pending = collect_member m pending >>= collect_members rest

unfoldable pub collect_own : PendingGroupCreate → Net PendingGroupCreate
unfolding ◌>>=◌ returns gets collect_key
collect_own pending = do
  own_key ← gets (λ n. n.own_pub_key)
  user ← gets (λ n. n.current_username)
  if is_empty own_key then returns pending else collect_key user own_key pending

unfoldable pub start_group : Str → List Str → Net (Unit {0})
unfolding ◌>>=◌ returns modify crypt generate_key insert collect_own collect_members
    send_create_group_packet text
start_group name members = do
  aes_key ← crypt (λ o. generate_key o)
  modify (λ n. record n { group_keys = insert (text "0") aes_key n.group_keys })
  own ← collect_own (record {
    name = name;
    members = members;
    aes_key = aes_key;
    collected_keys = [];
    waiting_for = [];
  })
  pending ← collect_members members own
  if is_empty pending.waiting_for
      then send_create_group_packet pending
      else modify
          (λ n. record n { pending_group_creations = n.pending_group_creations ++ pending ∷ [] })

unfoldable pub create_group_of : Str → List Str → Net (Unit {0})
unfolding try_catch start_group fail_with text
create_group_of name members =
    try_catch (start_group name members) (λ e. fail_with (text "createGroup failed: " ++ what e))
