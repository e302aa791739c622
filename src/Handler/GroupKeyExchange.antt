-- ===== src/Handler/GroupKeyExchange.antt =====
-- backend/src/GroupKeyExchangeHandler.cpp.
pub mod Pairs
use bit_atm.Prelude.{
  ℕ, Bool, true, false, not, ◌&&◌, ◌||◌, Option, none, some, List, [], ◌∷◌, ◌++◌, if◌then◌else◌,
  is_empty, Str, text, str_eq, tokens, ℤ, stoi,
}
use bit_atm.Packet.{group_key_exchange, group_invite, Packet, blank}
use bit_atm.Db.{GroupInfo}
use bit_atm.Action.{
  Action, pure, ◌>>=◌, ◌>>◌, when, require, or_throw, catch_network, for_each, send,
}
use bit_atm.Handler.Base.{Handler, base_authorize, present, username_of, find_client}
use bit_atm.Repo.Groups
use bit_atm.Repo.Pending
use bit_atm.Handler.CreateGroup.{pairs_of}

-- parseKeyPairsGKE.
unfoldable pub parse_key_pairs : Str → List (Str × Str)
parse_key_pairs key_field = pairs_of (tokens b'|' key_field)

unfoldable pub validate : Packet → Action (Unit {0})
validate p = require (present p.to) (text "GROUP_KEY_EXCHANGE: group_id (to) is required")

abbrev pub name_of : Option GroupInfo → Str
name_of none = []
name_of (some g) = g.name

-- An empty key field asks for the requester's own stored key.
unfoldable pub recover : Packet → ℕ → ℤ → Str → Str → Action (Unit {0})
recover p sid group_id actor role = do
  require (present role) (text "GROUP_KEY_EXCHANGE: requester is not a member of group " ++ p.to)
  found ← Groups.get_key group_id actor
  stored ← or_throw found (text "GROUP_KEY_EXCHANGE: no stored key for requester in group " ++ p.to)
  group ← Groups.find_group_by_id group_id
  send sid (record (blank group_invite) {
    from = actor;
    to = actor;
    error_msg = name_of group;
    body = p.to;
    key = stored;
  })

-- Stores the keys; the result says whether a new member was added.
unfoldable pub store_keys : ℤ → List (Str × Str) → Action Bool
store_keys group_id [] = pure false
store_keys group_id ((user, key) ∷ []) = do
  role ← Groups.get_member_role group_id user
  when (is_empty role) (Groups.add_member group_id user (text "member"))
  Groups.save_key group_id user key
  pure (is_empty role)
store_keys group_id (first ∷ second ∷ rest) = do
  Groups.replace_all_keys group_id (first ∷ second ∷ rest)
  pure false

unfoldable pub group_name : ℤ → Bool → Action Str
group_name group_id false = pure []
group_name group_id true = do group ← Groups.find_group_by_id group_id; pure (name_of group)

abbrev pub invite_packet : Packet → Str → Str → Str → Str → Packet
invite_packet p actor name user key = record (blank group_invite) {
  from = actor;
  to = user;
  error_msg = name;
  body = p.to;
  key = key;
}

abbrev pub key_packet : Packet → Str → Str → Str → Packet
key_packet p actor user key = record (blank group_key_exchange) {
  from = actor;
  to = p.to;
  key = key;
  body = user;
}

unfoldable pub notify_at : Packet → Str → Str → Bool → Str → Str → Option ℕ → Action (Unit {0})
notify_at p actor name is_new user key none =
    when is_new (Pending.queue user group_invite actor p.to name key)
notify_at p actor name is_new user key (some peer) =
    catch_network
      (send peer
        (if is_new then invite_packet p actor name user key else key_packet p actor user key))
      (when is_new (Pending.queue user group_invite actor p.to name key))

abbrev pub first_user : List (Str × Str) → Str
first_user [] = []
first_user ((user, key) ∷ rest) = user

unfoldable pub notify : Packet → Str → Str → Bool → Str → Str × Str → Action (Unit {0})
unfolding notify_at
notify p actor name added first (user, key) = do
  peer ← find_client user
  notify_at p actor name (added && str_eq user first) user key peer

unfoldable pub distribute : Packet → ℤ → Str → Str → Action (Unit {0})
unfolding store_keys group_name notify
distribute p group_id actor role = do
  require (str_eq role (text "creator") || str_eq role (text "admin"))
      (text "GROUP_KEY_EXCHANGE: only creator or admin may distribute keys")
  let pairs = parse_key_pairs p.key
  require (not (is_empty pairs)) (text "GROUP_KEY_EXCHANGE: no valid key pairs found in key field")
  added ← store_keys group_id pairs
  name ← group_name group_id added
  for_each (notify p actor name added (first_user pairs)) pairs

unfoldable pub execute_key_exchange : Packet → ℕ → Action (Unit {0})
unfolding recover distribute
execute_key_exchange p sid = do
  group_id ← or_throw (stoi p.to) (text "GROUP_KEY_EXCHANGE: invalid group_id in 'to'")
  actor ← username_of sid
  role ← Groups.get_member_role group_id actor
  if is_empty p.key then recover p sid group_id actor role else distribute p group_id actor role

unfoldable pub handler : Handler
unfolding validate execute_key_exchange
handler = record { validate = validate; authorize = base_authorize; execute = execute_key_exchange }
