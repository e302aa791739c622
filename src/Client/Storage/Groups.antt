-- ===== src/Client/Storage/Groups.antt =====
-- LocalStorage: groups, their keys and messages, and the whole cache.
use bit_atm.Prelude.{
  suc, Bool, true, false, ◌&&◌, Option, none, some, List, [], ◌∷◌, ◌++◌, map, if◌then◌else◌, select,
  any, Str, str_eq, text,
}
use bit_atm.Db.{update_where, delete_where}
use bit_atm.Client.Sql.{Key, str_less, sort_by, insert_or_ignore, upsert}
use bit_atm.Client.Storage.{
  GroupMessageRecord, GroupKeyRow, GroupRow, Tables, LocalStorage, update, query, gm_key,
}
use bit_atm.Client.Storage.Messages.{or_none, or_empty, or_false}

unfoldable pub put_group_message : GroupMessageRecord → Tables → Tables
unfolding insert_or_ignore
put_group_message m t = record t {
  group_messages =
      if t.gm_dedup then insert_or_ignore gm_key m t.group_messages else t.group_messages ++ m ∷ [];
}

unfoldable pub set_preview : Str → Str → Str → Tables → Tables
set_preview group_id content timestamp t = record t {
  groups =
      update_where (λ g. str_eq g.group_id group_id)
        (λ g. record g { last_message = some content; last_timestamp = some timestamp }) t.groups;
}

-- The status is the column's default.
unfoldable pub save_group_message : Str → Str → Str → Str → Bool → LocalStorage → LocalStorage
unfolding update put_group_message set_preview text
save_group_message group_id sender content timestamp is_outgoing s =
    update (set_preview group_id content timestamp) (
      update
        (put_group_message (record {
          group_id = group_id;
          sender = sender;
          content = content;
          timestamp = timestamp;
          is_outgoing = is_outgoing;
          status = text "sent";
        }))
        s)

unfoldable pub group_messages_of : Str → Tables → List GroupMessageRecord
unfolding sort_by str_less
group_messages_of group_id t =
    sort_by (λ a b. str_less a.timestamp b.timestamp)
      (select (λ m. str_eq m.group_id group_id) t.group_messages)

unfoldable pub load_group_messages : Str → LocalStorage → List GroupMessageRecord × LocalStorage
unfolding query group_messages_of
load_group_messages group_id s =
    let (rows, s') = query (group_messages_of group_id) s in (or_none rows, s')

unfoldable pub set_group_status : Str → Str → Str → Tables → Tables
set_group_status group_id timestamp status t = record t {
  group_messages =
      update_where (λ m. str_eq m.group_id group_id && str_eq m.timestamp timestamp)
        (λ m. record m { status = status }) t.group_messages;
}

unfoldable pub update_group_message_status : Str → Str → Str → LocalStorage → LocalStorage
unfolding update set_group_status
update_group_message_status group_id timestamp status =
    update (set_group_status group_id timestamp status)

abbrev pub group_keys_key : GroupKeyRow → Key
group_keys_key k = k.group_id ∷ []

unfoldable pub put_group_key : Str → Str → Tables → Tables
unfolding upsert
put_group_key group_id aes_key_base64 t = record t {
  group_keys =
      upsert group_keys_key (λ k. record k { aes_key_base64 = aes_key_base64 })
        (record { group_id = group_id; aes_key_base64 = aes_key_base64 }) t.group_keys;
}

unfoldable pub save_group_key : Str → Str → LocalStorage → LocalStorage
unfolding update put_group_key
save_group_key group_id aes_key_base64 = update (put_group_key group_id aes_key_base64)

abbrev pub first_key : List GroupKeyRow → Str
first_key [] = []
first_key (k ∷ rest) = k.aes_key_base64

unfoldable pub key_of : Str → Tables → Str
key_of group_id t = first_key (select (λ k. str_eq k.group_id group_id) t.group_keys)

unfoldable pub load_group_key : Str → LocalStorage → Str × LocalStorage
unfolding query key_of
load_group_key group_id s = let (key, s') = query (key_of group_id) s in (or_empty key, s')

abbrev pub groups_key : GroupRow → Key
groups_key g = g.group_id ∷ []

unfoldable pub put_group : Str → Str → Str → Tables → Tables
unfolding upsert
put_group group_id name role t = record t {
  groups =
      upsert groups_key (λ g. record g { name = name; role = role })
        (record {
          group_id = group_id;
          name = name;
          role = role;
          last_message = none;
          last_timestamp = none;
          unread_count = 0;
        })
        t.groups;
}

unfoldable pub save_group : Str → Str → Str → LocalStorage → LocalStorage
unfolding update put_group
save_group group_id name role = update (put_group group_id name role)

unfoldable pub count_group_unread : Str → Tables → Tables
count_group_unread group_id t = record t {
  groups =
      update_where (λ g. str_eq g.group_id group_id)
        (λ g. record g { unread_count = suc g.unread_count }) t.groups;
}

unfoldable pub increment_group_unread : Str → LocalStorage → LocalStorage
unfolding update count_group_unread
increment_group_unread group_id = update (count_group_unread group_id)

unfoldable pub clear_group_unread : Str → Tables → Tables
clear_group_unread group_id t = record t {
  groups =
      update_where (λ g. str_eq g.group_id group_id) (λ g. record g { unread_count = 0 }) t.groups;
}

unfoldable pub reset_group_unread : Str → LocalStorage → LocalStorage
unfolding update clear_group_unread
reset_group_unread group_id = update (clear_group_unread group_id)

-- NULL comes first in SQLite's order.
abbrev pub null_less : Option Str → Option Str → Bool
null_less a none = false
null_less none (some b) = true
null_less (some a) (some b) = str_less a b

-- A GroupRecord is a row whose NULLs read as the empty text.
abbrev pub read_group : GroupRow → GroupRow
read_group g = record g {
  last_message = some (or_empty g.last_message);
  last_timestamp = some (or_empty g.last_timestamp);
}

unfoldable pub load_groups : LocalStorage → List GroupRow × LocalStorage
unfolding query sort_by str_less
load_groups s =
    let (rows, s') =
      query
        (λ t.
          map read_group (sort_by (λ a b. null_less b.last_timestamp a.last_timestamp) t.groups))
        s in
    (or_none rows, s')

unfoldable pub has_group_message : Str → Str → Str → Tables → Bool
has_group_message group_id sender timestamp t =
    any (λ m. str_eq m.group_id group_id && str_eq m.sender sender && str_eq m.timestamp timestamp)
      t.group_messages

unfoldable pub is_group_message_duplicate : Str → Str → Str → LocalStorage → Bool × LocalStorage
unfolding query has_group_message
is_group_message_duplicate group_id sender timestamp s =
    let (found, s') = query (has_group_message group_id sender timestamp) s in (or_false found, s')

-- clearAllData: the recipients stay.
unfoldable pub clear_all_data : LocalStorage → LocalStorage
unfolding update
clear_all_data s =
    update (λ t. record t { conversations = [] })
      (update (λ t. record t { messages = [] })
        (update (λ t. record t { groups = [] })
          (update (λ t. record t { group_keys = [] })
            (update (λ t. record t { group_messages = [] }) s))))

unfoldable pub drop_group_messages : Str → Tables → Tables
drop_group_messages group_id t = record t {
  group_messages = delete_where (λ m. str_eq m.group_id group_id) t.group_messages;
}

unfoldable pub drop_group_key : Str → Tables → Tables
drop_group_key group_id t = record t {
  group_keys = delete_where (λ k. str_eq k.group_id group_id) t.group_keys;
}

unfoldable pub drop_group : Str → Tables → Tables
drop_group group_id t = record t {
  groups = delete_where (λ g. str_eq g.group_id group_id) t.groups;
}

-- removeGroup: the recipients stay.
unfoldable pub remove_group : Str → LocalStorage → LocalStorage
unfolding update drop_group_messages drop_group_key drop_group
remove_group group_id s =
    update (drop_group group_id)
      (update (drop_group_key group_id) (update (drop_group_messages group_id) s))
