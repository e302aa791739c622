-- ===== src/Client/Storage/Sound.antt =====
-- LocalStorage: the invariant of a database file.
pub mod Statements
pub mod Recipients
pub mod Disk
pub mod Calls
use bit_atm.Prelude.{
  ℕ, ◌≡◌, refl, sym, ap, ◌∙◌, inl, inr, Bool, true, false, not, ◌&&◌, ◌||◌, Option, none, some,
  List, [], ◌∷◌, ◌++◌, map, arith, if◌then◌else◌, Bool-cases, Option-cases, select, any, All, Str,
  str_eq, str_eq_refl, str_eq→≡,
}
use bit_atm.Db.{update_where, delete_where}
use bit_atm.Client.Sql.{Key, key_eq, has_key, insert_or_ignore}
use bit_atm.Client.Sql.Unique.{
  IsUnique, Keyed, Keyed-update_where, Keyed-select, Keyed-insert_or_ignore, Keyed-upsert,
  key_eq_refl, key_eq→≡,
}
use bit_atm.Client.Storage.{
  MessageRecord, ConversationRecord, GroupMessageRecord, GroupKeyRow, GroupRow, Recipient, Tables,
  LocalStorage, messages_key, gm_key, distinct, index_messages, index_gm,
}
use bit_atm.Client.Storage.Messages.{
  conversations_key, put_message, set_status, put_conversation, count_unread, clear_unread,
  drop_messages, drop_conversation,
}
use bit_atm.Client.Storage.Groups.{
  group_keys_key, groups_key, put_group_message, set_preview, set_group_status, put_group_key,
  put_group, count_group_unread, clear_group_unread, drop_group_messages, drop_group_key,
  drop_group,
}
use bit_atm.Client.Storage.Recipients.{
  recipients_key, put_recipient, set_delivered, set_seen, drop_recipient, is_recipient,
}

abbrev pub IsOrdered : Recipient → Type 0
IsOrdered r = r.seen ≡ true → r.delivered ≡ true

-- The keys of each table are unique, where the index is there, and who has seen a message has it.
pub record IsSound (t : Tables) : Type 0 where
  pub messages : t.messages_dedup ≡ true → Keyed messages_key t.messages
  pub conversations : Keyed conversations_key t.conversations
  pub group_messages : t.gm_dedup ≡ true → Keyed gm_key t.group_messages
  pub group_keys : Keyed group_keys_key t.group_keys
  pub groups : Keyed groups_key t.groups
  pub recipients : Keyed recipients_key t.recipients
  pub seen : All IsOrdered t.recipients

module _ (t : Tables) (v : IsSound t) where
  pub set_messages :
      (rows : List MessageRecord)
      → (t.messages_dedup ≡ true → Keyed messages_key rows)
      → IsSound (record t { messages = rows })
  set_messages rows h = record {
    messages = h;
    conversations = v.conversations;
    group_messages = v.group_messages;
    group_keys = v.group_keys;
    groups = v.groups;
    recipients = v.recipients;
    seen = v.seen;
  }

  pub set_conversations :
      (rows : List ConversationRecord)
      → Keyed conversations_key rows
      → IsSound (record t { conversations = rows })
  set_conversations rows h = record {
    messages = v.messages;
    conversations = h;
    group_messages = v.group_messages;
    group_keys = v.group_keys;
    groups = v.groups;
    recipients = v.recipients;
    seen = v.seen;
  }

  pub set_group_messages :
      (rows : List GroupMessageRecord)
      → (t.gm_dedup ≡ true → Keyed gm_key rows)
      → IsSound (record t { group_messages = rows })
  set_group_messages rows h = record {
    messages = v.messages;
    conversations = v.conversations;
    group_messages = h;
    group_keys = v.group_keys;
    groups = v.groups;
    recipients = v.recipients;
    seen = v.seen;
  }

  pub set_group_keys :
      (rows : List GroupKeyRow)
      → Keyed group_keys_key rows
      → IsSound (record t { group_keys = rows })
  set_group_keys rows h = record {
    messages = v.messages;
    conversations = v.conversations;
    group_messages = v.group_messages;
    group_keys = h;
    groups = v.groups;
    recipients = v.recipients;
    seen = v.seen;
  }

  pub set_groups :
      (rows : List GroupRow) → Keyed groups_key rows → IsSound (record t { groups = rows })
  set_groups rows h = record {
    messages = v.messages;
    conversations = v.conversations;
    group_messages = v.group_messages;
    group_keys = v.group_keys;
    groups = h;
    recipients = v.recipients;
    seen = v.seen;
  }

  pub set_recipients :
      (rows : List Recipient)
      → Keyed recipients_key rows
      → All IsOrdered rows
      → IsSound (record t { recipients = rows })
  set_recipients rows h o = record {
    messages = v.messages;
    conversations = v.conversations;
    group_messages = v.group_messages;
    group_keys = v.group_keys;
    groups = v.groups;
    recipients = h;
    seen = o;
  }

abbrev pub Keeps : (Tables → Tables) → Type 0
Keeps f = (t : Tables) → IsSound t → IsSound (f t)
