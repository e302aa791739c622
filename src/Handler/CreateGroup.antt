-- ===== src/Handler/CreateGroup.antt =====
-- backend/src/CreateGroupHandler.cpp.
pub mod Roles
use bit_atm.Prelude.{
  ℕ, ◌+◌, ◌&&◌, Option, none, some, List, [], ◌∷◌, ◌++◌, leb, if◌then◌else◌, length, select, Str,
  text, str_eq, split_at, tokens, ℤ, to_string,
}
use bit_atm.Packet.{group_invite, group_info, Packet, blank}
use bit_atm.Action.{Action, ◌>>=◌, ◌>>◌, skip, require, or_throw, catch_network, for_each, send}
use bit_atm.Handler.Base.{Handler, base_authorize, present, username_of, find_client}
use bit_atm.Repo.Users
use bit_atm.Repo.Groups
use bit_atm.Repo.Pending

-- parseMembers.
unfoldable pub parse_members : Str → List Str
parse_members body = select (λ m. present m) (tokens b',' body)

-- One "user:key" entry; without a colon, a user or a key it is passed over.
abbrev pub add_pair : Option (Str × Str) → List (Str × Str) → List (Str × Str)
add_pair none rest = rest
add_pair (some (user, key)) rest = if present user && present key then (user, key) ∷ rest else rest

unfoldable pub pairs_of : List Str → List (Str × Str)
pairs_of [] = []
pairs_of (entry ∷ rest) = add_pair (split_at b':' entry) (pairs_of rest)

-- parseKeyPairs.
unfoldable pub parse_key_pairs : Str → List (Str × Str)
unfolding pairs_of
parse_key_pairs key_field = pairs_of (tokens b';' key_field)

unfoldable pub validate : Packet → Action (Unit {0})
validate p = do
  require (present p.error_msg) (text "CREATE_GROUP: group name (errorMsg) is required")
  require (present p.body) (text "CREATE_GROUP: member list (body) is required")
  require (present p.key) (text "CREATE_GROUP: key map (key) is required")
  let total = length (parse_members p.body) + 1
  require (leb 2 total && leb total 32)
      (text "CREATE_GROUP: group size must be between 2 and 32 (inclusive)")

unfoldable pub check_user : Str → Action (Unit {0})
check_user m = do
  found ← Users.find_by_username m
  _ ← or_throw found (text "CREATE_GROUP: user not found: " ++ m)
  skip

-- The entry of the last pair with the user, or the empty key.
unfoldable pub key_in : Str → Str → List (Str × Str) → Str
key_in m found [] = found
key_in m found ((user, key) ∷ rest) = key_in m (if str_eq user m then key else found) rest

unfoldable pub save_pair : ℤ → Str × Str → Action (Unit {0})
save_pair group_id (user, key) = Groups.save_key group_id user key

abbrev pub invite_packet : Str → Str → Str → Str → Str → Packet
invite_packet creator m group_id name key = record (blank group_invite) {
  from = creator;
  to = m;
  error_msg = name;
  body = group_id;
  key = key;
}

unfoldable pub invite_at : Str → Str → Str → Str → Str → Option ℕ → Action (Unit {0})
invite_at creator group_id name m key none = Pending.queue m group_invite creator group_id name key
invite_at creator group_id name m key (some peer) =
    catch_network (send peer (invite_packet creator m group_id name key))
      (Pending.queue m group_invite creator group_id name key)

-- A live invitation, or a queued one.
unfoldable pub invite : Str → Str → Str → List (Str × Str) → Str → Action (Unit {0})
unfolding invite_at
invite creator group_id name pairs m = do
  peer ← find_client m
  invite_at creator group_id name m (key_in m [] pairs) peer

abbrev pub member_list : Str → List Str → Str
member_list acc [] = acc
member_list acc (m ∷ ms) = member_list (acc ++ b';' ∷ m ++ text ":member") ms

-- The rows of the group: the creator's first, then each listed member's.
unfoldable pub enrol : ℤ → Str → List Str → Action (Unit {0})
enrol group_id creator members = do
  Groups.add_member group_id creator (text "creator")
  for_each (λ m. Groups.add_member group_id m (text "member")) members

unfoldable pub execute_create : Packet → ℕ → Action (Unit {0})
unfolding check_user save_pair
execute_create p sid = do
  creator ← username_of sid
  let members = parse_members p.body
  let pairs = parse_key_pairs p.key
  for_each check_user members
  group_id ← Groups.create_group p.error_msg creator
  enrol group_id creator members
  for_each (save_pair group_id) pairs
  for_each (invite creator (to_string group_id) p.error_msg pairs) members
  send sid (record (blank group_info) {
    from = creator;
    to = creator;
    body = to_string group_id;
    error_msg = p.error_msg;
    key = member_list (creator ++ text ":creator") members;
  })

unfoldable pub handler : Handler
unfolding validate execute_create
handler = record { validate = validate; authorize = base_authorize; execute = execute_create }
