-- ===== src/Client/Network/PeerKeys.antt =====
-- frontend/src/NetworkManager.cpp: a KEY_EXCHANGE from the server.
use bit_atm.Prelude.{List, [], ◌∷◌, if◌then◌else◌, is_empty, any, Str, str_eq}
use bit_atm.Client.Throwing.{returns, ◌>>=◌, ◌>>◌, modify, gets, for_each, try_catch}
use bit_atm.Client.Map.{insert, contains, value, remove}
use bit_atm.Packet.{Packet}
use bit_atm.Client.Network.{Net, PendingGroupCreate, peer_key_received, emit}
use bit_atm.Client.Network.Messages.{encrypt_and_send}
use bit_atm.Client.Network.Groups.{collect_key, send_create_group_packet}
use bit_atm.Client.Network.GroupKeys.{add_group_member}

-- waitingFor.removeOne(name)
unfoldable pub remove_one : Str → List Str → List Str
remove_one name [] = []
remove_one name (a ∷ rest) =
    let later = remove_one name rest in if str_eq a name then rest else a ∷ later

-- The loop's body for one group that is being created.
unfoldable pub absorb_key : Str → Str → PendingGroupCreate → Net PendingGroupCreate
unfolding returns try_catch collect_key remove_one
absorb_key username key pending =
    let fewer = record pending { waiting_for = remove_one username pending.waiting_for } in
    if any (λ w. str_eq w username) pending.waiting_for
    then try_catch (collect_key username key fewer) (λ e. returns fewer)
    else returns pending

unfoldable pub absorb_keys : Str → Str → List PendingGroupCreate → Net (List PendingGroupCreate)
unfolding ◌>>=◌ returns absorb_key
absorb_keys username key [] = returns []
absorb_keys username key (p ∷ rest) = do
  p' ← absorb_key username key p
  rest' ← absorb_keys username key rest
  returns (p' ∷ rest')

-- std::remove_if: a group that waits for nobody is sent and leaves the list.
unfoldable pub send_complete : List PendingGroupCreate → Net (List PendingGroupCreate)
unfolding ◌>>=◌ returns send_create_group_packet
send_complete [] = returns []
send_complete (p ∷ rest) =
    if is_empty p.waiting_for
    then send_create_group_packet p >> send_complete rest
    else send_complete rest >>= λ later. returns (p ∷ later)

unfoldable pub finish_creations : Str → Str → Net (Unit {0})
unfolding ◌>>=◌ gets modify absorb_keys send_complete
finish_creations username key = do
  before ← gets (λ n. n.pending_group_creations)
  absorbed ← absorb_keys username key before
  waiting ← send_complete absorbed
  modify (λ n. record n { pending_group_creations = waiting })

unfoldable pub handle_key_exchange_response : Packet → Net (Unit {0})
unfolding ◌>>=◌ returns gets modify emit for_each insert contains value remove encrypt_and_send
    add_group_member finish_creations
handle_key_exchange_response p = do
  key ← gets (λ n. n.env.ssl.from_base64 p.key)
  modify (λ n. record n { peer_keys = insert p.from key n.peer_keys })
  shown ← gets (λ n. n.env.ssl.from_utf8 key)
  emit (peer_key_received p.from shown)
  pending ← gets (λ n. value p.from n.pending_messages)
  modify (λ n. record n { pending_messages = remove p.from n.pending_messages })
  for_each (λ m. encrypt_and_send p.from m.0 m.1) pending
  groups ← gets (λ n. value p.from n.pending_group_member_adds)
  modify (λ n. record n { pending_group_member_adds = remove p.from n.pending_group_member_adds })
  for_each (λ g. add_group_member g p.from) groups
  finish_creations p.from key
