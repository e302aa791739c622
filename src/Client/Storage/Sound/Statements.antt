-- ===== src/Client/Storage/Sound/Statements.antt =====
-- LocalStorage: the statements on messages, conversations and groups, and the invariant.
use bit_atm.Prelude.{refl, Str}
use bit_atm.Client.Sql.Unique.{
  Keyed-update_where, Keyed-select, Keyed-insert_or_ignore, Keyed-upsert,
}
use bit_atm.Client.Storage.{MessageRecord, GroupMessageRecord, messages_key, gm_key}
use bit_atm.Client.Storage.Messages.{
  conversations_key, put_message, set_status, put_conversation, count_unread, clear_unread,
  drop_messages, drop_conversation,
}
use bit_atm.Client.Storage.Groups.{
  group_keys_key, groups_key, put_group_message, set_preview, set_group_status, put_group_key,
  put_group, count_group_unread, clear_group_unread, drop_group_messages, drop_group_key,
  drop_group,
}
use bit_atm.Client.Storage.Sound.{
  Keeps, set_messages, set_conversations, set_group_messages, set_group_keys, set_groups,
}

pub put_message-IsSound : (m : MessageRecord) → Keeps (put_message m)
unfolding put_message
put_message-IsSound m t v =
    set_messages t v _ (λ h. rw h (Keyed-insert_or_ignore messages_key m t.messages (v.messages h)))

pub set_status-IsSound : (p ts st : Str) → Keeps (set_status p ts st)
unfolding set_status
set_status-IsSound p ts st t v =
    set_messages t v _
      (λ h. Keyed-update_where messages_key _ _ t.messages (λ m. refl) (v.messages h))

pub drop_messages-IsSound : (p : Str) → Keeps (drop_messages p)
unfolding drop_messages
drop_messages-IsSound p t v =
    set_messages t v _ (λ h. Keyed-select messages_key _ t.messages (v.messages h))

pub put_conversation-IsSound : (p c ts : Str) → Keeps (put_conversation p c ts)
unfolding put_conversation
put_conversation-IsSound p c ts t v =
    set_conversations t v _
      (Keyed-upsert conversations_key _ _ t.conversations (λ c. refl) v.conversations)

pub count_unread-IsSound : (p : Str) → Keeps (count_unread p)
unfolding count_unread
count_unread-IsSound p t v =
    set_conversations t v _
      (Keyed-update_where conversations_key _ _ t.conversations (λ c. refl) v.conversations)

pub clear_unread-IsSound : (p : Str) → Keeps (clear_unread p)
unfolding clear_unread
clear_unread-IsSound p t v =
    set_conversations t v _
      (Keyed-update_where conversations_key _ _ t.conversations (λ c. refl) v.conversations)

pub drop_conversation-IsSound : (p : Str) → Keeps (drop_conversation p)
unfolding drop_conversation
drop_conversation-IsSound p t v =
    set_conversations t v _ (Keyed-select conversations_key _ t.conversations v.conversations)

pub put_group_message-IsSound : (m : GroupMessageRecord) → Keeps (put_group_message m)
unfolding put_group_message
put_group_message-IsSound m t v =
    set_group_messages t v _
      (λ h. rw h (Keyed-insert_or_ignore gm_key m t.group_messages (v.group_messages h)))

pub set_group_status-IsSound : (g ts st : Str) → Keeps (set_group_status g ts st)
unfolding set_group_status
set_group_status-IsSound g ts st t v =
    set_group_messages t v _
      (λ h. Keyed-update_where gm_key _ _ t.group_messages (λ m. refl) (v.group_messages h))

pub drop_group_messages-IsSound : (g : Str) → Keeps (drop_group_messages g)
unfolding drop_group_messages
drop_group_messages-IsSound g t v =
    set_group_messages t v _ (λ h. Keyed-select gm_key _ t.group_messages (v.group_messages h))

pub put_group_key-IsSound : (g k : Str) → Keeps (put_group_key g k)
unfolding put_group_key
put_group_key-IsSound g k t v =
    set_group_keys t v _ (Keyed-upsert group_keys_key _ _ t.group_keys (λ k. refl) v.group_keys)

pub drop_group_key-IsSound : (g : Str) → Keeps (drop_group_key g)
unfolding drop_group_key
drop_group_key-IsSound g t v =
    set_group_keys t v _ (Keyed-select group_keys_key _ t.group_keys v.group_keys)

pub put_group-IsSound : (g n r : Str) → Keeps (put_group g n r)
unfolding put_group
put_group-IsSound g n r t v =
    set_groups t v _ (Keyed-upsert groups_key _ _ t.groups (λ g. refl) v.groups)

pub set_preview-IsSound : (g c ts : Str) → Keeps (set_preview g c ts)
unfolding set_preview
set_preview-IsSound g c ts t v =
    set_groups t v _ (Keyed-update_where groups_key _ _ t.groups (λ g. refl) v.groups)

pub count_group_unread-IsSound : (g : Str) → Keeps (count_group_unread g)
unfolding count_group_unread
count_group_unread-IsSound g t v =
    set_groups t v _ (Keyed-update_where groups_key _ _ t.groups (λ g. refl) v.groups)

pub clear_group_unread-IsSound : (g : Str) → Keeps (clear_group_unread g)
unfolding clear_group_unread
clear_group_unread-IsSound g t v =
    set_groups t v _ (Keyed-update_where groups_key _ _ t.groups (λ g. refl) v.groups)

pub drop_group-IsSound : (g : Str) → Keeps (drop_group g)
unfolding drop_group
drop_group-IsSound g t v = set_groups t v _ (Keyed-select groups_key _ t.groups v.groups)
