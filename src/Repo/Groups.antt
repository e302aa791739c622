-- ===== src/Repo/Groups.antt =====
-- backend/src/GroupRepository.cpp: tables groups, group_members, group_keys and group_messages.
pub mod Roles
pub mod Enrol
use bit_atm.Prelude.{
  ℕ, suc, Bool, false, ◌&&◌, Option, none, some, List, [], ◌∷◌, ◌++◌, ltb, if◌then◌else◌, length,
  is_empty, select, head?, any, Str, text, str_eq, ℤ, pos, int_eq,
}
use bit_atm.Db.{
  GroupInfo, GroupMember, GroupKey, GroupMessage, Db, order_by, update_where, delete_where,
}
use bit_atm.Action.{
  Action, gets, ◌>>=◌, ◌>>◌, in_repo, query, execute, set_db, session, statement, cast_timestamp,
  now, transaction, for_each,
}
use bit_atm.Repo.Row.{present, present_rows}

unfoldable pub create_group : Str → Str → Action ℤ
create_group name creator = in_repo (text "GroupRepository::createGroup: ") (do
  session
  statement
  set_db (λ w. record w.db {
    groups =
        w.db.groups
        ++ record { id = pos (suc w.db.serials.groups); name = name; creator = creator } ∷ [];
    serials = record (w.db.serials) { groups = suc w.db.serials.groups };
  })
  gets (λ w. pos w.db.serials.groups))

unfoldable pub find_group_by_id : ℤ → Action (Option GroupInfo)
find_group_by_id group_id =
    query (text "GroupRepository::findGroupById: ")
      (λ w. present (λ g. g.name) (head? (select (λ g. int_eq g.id group_id) w.db.groups)))

-- The row of a group and a user, the primary key of group_members.
abbrev pub is_member : ℤ → Str → GroupMember → Bool
is_member group_id username m = int_eq m.group_id group_id && str_eq m.username username

-- ON CONFLICT (group_id, username) DO UPDATE SET role.
abbrev pub upsert_member : ℤ → Str → Str → ℕ → Db → Db
upsert_member group_id username role time d = record d {
  group_members =
      if any (is_member group_id username) d.group_members
      then update_where (is_member group_id username) (λ m. record m { role = role })
          d.group_members
      else d.group_members
        ++ record { group_id = group_id; username = username; role = role; joined_at = time } ∷ [];
}

unfoldable pub add_member : ℤ → Str → Str → Action (Unit {0})
add_member group_id username role =
    execute (text "GroupRepository::addMember: ")
      (λ w. upsert_member group_id username role (now w) w.db)

abbrev pub is_key_of : ℤ → Str → GroupKey → Bool
is_key_of group_id username k = int_eq k.group_id group_id && str_eq k.username username

abbrev pub drop_key : ℤ → Str → Db → Db
drop_key group_id username d = record d {
  group_keys = delete_where (is_key_of group_id username) d.group_keys;
}

abbrev pub drop_member : ℤ → Str → Db → Db
drop_member group_id username d = record d {
  group_members = delete_where (is_member group_id username) d.group_members;
}

unfoldable pub remove_member : ℤ → Str → Action (Unit {0})
remove_member group_id username = in_repo (text "GroupRepository::removeMember: ") (do
  session
  statement
  set_db (λ w. drop_key group_id username w.db)
  statement
  set_db (λ w. drop_member group_id username w.db))

unfoldable pub get_members : ℤ → Action (List GroupMember)
get_members group_id = query (text "GroupRepository::getMembers: ") (λ w.
    present_rows (λ m. m.username)
      (order_by (λ m. m.joined_at) (select (λ m. int_eq m.group_id group_id) w.db.group_members)))

-- The role that the rows give a user, empty if there is no row.
abbrev pub first_role : List GroupMember → Str
first_role [] = []
first_role (m ∷ ms) = m.role

abbrev pub role_in : ℤ → Str → Db → Str
role_in group_id username d = first_role (select (is_member group_id username) d.group_members)

unfoldable pub get_member_role : ℤ → Str → Action Str
get_member_role group_id username =
    query (text "GroupRepository::getMemberRole: ") (λ w. role_in group_id username w.db)

abbrev pub new_key : ℤ → Str → Str → GroupKey
new_key group_id username key = record {
  group_id = group_id;
  username = username;
  encrypted_aes_key = key;
}

-- ON CONFLICT (group_id, username) DO UPDATE SET encrypted_aes_key.
abbrev pub upsert_key : ℤ → Str → Str → Db → Db
upsert_key group_id username key d = record d {
  group_keys =
      if any (is_key_of group_id username) d.group_keys
      then update_where (is_key_of group_id username) (λ k. record k { encrypted_aes_key = key })
          d.group_keys
      else d.group_keys ++ new_key group_id username key ∷ [];
}

unfoldable pub save_key : ℤ → Str → Str → Action (Unit {0})
save_key group_id username key =
    execute (text "GroupRepository::saveKey: ") (λ w. upsert_key group_id username key w.db)

abbrev pub drop_keys : ℤ → Db → Db
drop_keys group_id d = record d {
  group_keys = delete_where (λ k. int_eq k.group_id group_id) d.group_keys;
}

unfoldable pub insert_key : ℤ → Str × Str → Action (Unit {0})
insert_key group_id (username, key) = do
  statement
  set_db (λ w. record w.db { group_keys = w.db.group_keys ++ new_key group_id username key ∷ [] })

-- All in one transaction; the last statement is its commit.
unfoldable pub replace_all_keys : ℤ → List (Str × Str) → Action (Unit {0})
unfolding insert_key
replace_all_keys group_id pairs = in_repo (text "GroupRepository::replaceAllKeys: ") (do
  session
  transaction (do
    statement
    set_db (λ w. drop_keys group_id w.db)
    for_each (insert_key group_id) pairs
    statement))

abbrev key_text : Option GroupKey → Option Str
key_text none = none
key_text (some k) = if is_empty k.encrypted_aes_key then none else some k.encrypted_aes_key

unfoldable pub get_key : ℤ → Str → Action (Option Str)
get_key group_id username =
    query (text "GroupRepository::getKey: ")
      (λ w. key_text (head? (select (is_key_of group_id username) w.db.group_keys)))

unfoldable pub save_message : ℤ → Str → Str → Str → Action ℤ
save_message group_id sender body timestamp = in_repo (text "GroupRepository::saveMessage: ") (do
  session
  statement
  t ← cast_timestamp timestamp
  set_db (λ w. record w.db {
    group_messages =
        w.db.group_messages
        ++ record {
          id = pos (suc w.db.serials.group_messages);
          group_id = group_id;
          sender = sender;
          encrypted_body = body;
          timestamp = t;
        }
          ∷ [];
    serials = record (w.db.serials) { group_messages = suc w.db.serials.group_messages };
  })
  gets (λ w. pos w.db.serials.group_messages))

-- JOIN group_members m ON m.group_id = gm.group_id WHERE m.username = $1
abbrev visible_to : Str → Db → GroupMessage → Bool
visible_to username d g = any (is_member g.group_id username) d.group_members

unfoldable pub messages_for : Str → Str → Action (List GroupMessage)
messages_for username [] = gets (λ w.
    present_rows (λ g. g.sender)
      (order_by (λ g. g.timestamp) (select (visible_to username w.db) w.db.group_messages)))
messages_for username (c ∷ s) = do
  t ← cast_timestamp (c ∷ s)
  gets (λ w.
      present_rows (λ g. g.sender)
        (order_by (λ g. g.timestamp)
          (select (λ g. visible_to username w.db g && ltb t g.timestamp) w.db.group_messages)))

unfoldable pub find_messages_for_user_since : Str → Str → Action (List GroupMessage)
unfolding messages_for
find_messages_for_user_since username after_timestamp =
    in_repo (text "GroupRepository::findMessagesForUserSince: ")
      (do session; statement; messages_for username after_timestamp)

unfoldable pub member_count : ℤ → Action ℕ
member_count group_id =
    query (text "GroupRepository::memberCount: ")
      (λ w. length (select (λ m. int_eq m.group_id group_id) w.db.group_members))

abbrev pub set_role : ℤ → Str → Str → Db → Db
set_role group_id username role d = record d {
  group_members =
      update_where (is_member group_id username) (λ m. record m { role = role }) d.group_members;
}

unfoldable pub update_role : ℤ → Str → Str → Action (Unit {0})
update_role group_id username role =
    execute (text "GroupRepository::updateRole: ") (λ w. set_role group_id username role w.db)

abbrev in_group : ℤ → GroupMessage → Bool
in_group group_id g = int_eq g.group_id group_id

-- DELETE FROM groups, with the rows that the foreign keys delete in cascade.
abbrev pub drop_group : ℤ → Db → Db
drop_group group_id d = record d {
  groups = delete_where (λ g. int_eq g.id group_id) d.groups;
  group_members = delete_where (λ m. int_eq m.group_id group_id) d.group_members;
  group_keys = delete_where (λ k. int_eq k.group_id group_id) d.group_keys;
  group_messages = delete_where (in_group group_id) d.group_messages;
  group_message_receipts =
      delete_where
        (λ r. any (λ g. in_group group_id g && int_eq g.id r.message_id) d.group_messages)
        d.group_message_receipts;
  offline_read_receipts =
      delete_where (λ r. elim r.group_id [ none ↦ false | some g ↦ int_eq g group_id ])
        d.offline_read_receipts;
}
