-- ===== src/Client/Storage/Messages.antt =====
-- LocalStorage: one-to-one messages and the list of conversations.
use bit_atm.Prelude.{
  suc, Bool, false, ◌&&◌, Option, none, some, List, [], ◌∷◌, ◌++◌, map, if◌then◌else◌, select, any,
  Str, str_eq,
}
use bit_atm.Db.{update_where, delete_where}
use bit_atm.Client.Sql.{Key, str_less, sort_by, insert_or_ignore, upsert}
use bit_atm.Client.Storage.{
  MessageRecord, ConversationRecord, GroupMessageRecord, Tables, LocalStorage, update, query,
  messages_key,
}

unfoldable pub put_message : MessageRecord → Tables → Tables
unfolding insert_or_ignore
put_message m t = record t {
  messages =
      if t.messages_dedup then insert_or_ignore messages_key m t.messages else t.messages ++ m ∷ [];
}

unfoldable pub save_message : Str → Str → Str → Str → Bool → Str → LocalStorage → LocalStorage
unfolding update put_message
save_message peer sender content timestamp is_outgoing status = update (
    put_message (record {
      peer = peer;
      sender = sender;
      content = content;
      timestamp = timestamp;
      is_outgoing = is_outgoing;
      status = status;
    }))

unfoldable pub set_status : Str → Str → Str → Tables → Tables
set_status peer timestamp status t = record t {
  messages =
      update_where (λ m. str_eq m.peer peer && str_eq m.timestamp timestamp)
        (λ m. record m { status = status }) t.messages;
}

unfoldable pub update_message_status : Str → Str → Str → LocalStorage → LocalStorage
unfolding update set_status
update_message_status peer timestamp status = update (set_status peer timestamp status)

abbrev pub or_none : {A : Type 0} → Option (List A) → List A
or_none none = []
or_none (some rows) = rows

-- Of one peer, by timestamp.
unfoldable pub messages_of : Str → Tables → List MessageRecord
unfolding sort_by str_less
messages_of peer t =
    sort_by (λ a b. str_less a.timestamp b.timestamp) (select (λ m. str_eq m.peer peer) t.messages)

unfoldable pub load_messages : Str → LocalStorage → List MessageRecord × LocalStorage
unfolding query messages_of
load_messages peer s = let (rows, s') = query (messages_of peer) s in (or_none rows, s')

abbrev pub conversations_key : ConversationRecord → Key
conversations_key c = c.peer ∷ []

unfoldable pub put_conversation : Str → Str → Str → Tables → Tables
unfolding upsert
put_conversation peer last_message last_timestamp t = record t {
  conversations =
      upsert conversations_key
        (λ c. record c { last_message = last_message; last_timestamp = last_timestamp })
        (record {
          peer = peer;
          last_message = last_message;
          last_timestamp = last_timestamp;
          unread_count = 0;
        })
        t.conversations;
}

unfoldable pub save_conversation : Str → Str → Str → LocalStorage → LocalStorage
unfolding update put_conversation
save_conversation peer last_message last_timestamp =
    update (put_conversation peer last_message last_timestamp)

unfoldable pub load_conversations : LocalStorage → List ConversationRecord × LocalStorage
unfolding query sort_by str_less
load_conversations s =
    let (rows, s') =
      query (λ t. sort_by (λ a b. str_less b.last_timestamp a.last_timestamp) t.conversations) s in
    (or_none rows, s')

unfoldable pub count_unread : Str → Tables → Tables
count_unread peer t = record t {
  conversations =
      update_where (λ c. str_eq c.peer peer) (λ c. record c { unread_count = suc c.unread_count })
        t.conversations;
}

unfoldable pub increment_unread : Str → LocalStorage → LocalStorage
unfolding update count_unread
increment_unread peer = update (count_unread peer)

unfoldable pub clear_unread : Str → Tables → Tables
clear_unread peer t = record t {
  conversations =
      update_where (λ c. str_eq c.peer peer) (λ c. record c { unread_count = 0 }) t.conversations;
}

unfoldable pub reset_unread : Str → LocalStorage → LocalStorage
unfolding update clear_unread
reset_unread peer = update (clear_unread peer)

-- MAX of a text column. NULL, for an empty table, reads as the empty text, the least one.
unfoldable pub max_text : List Str → Str
unfolding str_less
max_text [] = []
max_text (a ∷ rest) = let m = max_text rest in if str_less m a then a else m

unfoldable pub newest : Tables → Str
unfolding max_text
newest t = max_text (
    max_text (map (λ m. MessageRecord.timestamp m) t.messages)
    ∷ max_text (map (λ m. GroupMessageRecord.timestamp m) t.group_messages)
    ∷ [])

abbrev pub or_empty : Option Str → Str
or_empty none = []
or_empty (some s) = s

unfoldable pub newest_timestamp : LocalStorage → Str × LocalStorage
unfolding query newest
newest_timestamp s = let (ts, s') = query newest s in (or_empty ts, s')

unfoldable pub has_message : Str → Str → Str → Tables → Bool
has_message peer sender timestamp t =
    any (λ m. str_eq m.peer peer && str_eq m.sender sender && str_eq m.timestamp timestamp)
      t.messages

abbrev pub or_false : Option Bool → Bool
or_false none = false
or_false (some b) = b

unfoldable pub is_duplicate : Str → Str → Str → LocalStorage → Bool × LocalStorage
unfolding query has_message
is_duplicate peer sender timestamp s =
    let (found, s') = query (has_message peer sender timestamp) s in (or_false found, s')

unfoldable pub drop_messages : Str → Tables → Tables
drop_messages peer t = record t { messages = delete_where (λ m. str_eq m.peer peer) t.messages }

unfoldable pub drop_conversation : Str → Tables → Tables
drop_conversation peer t = record t {
  conversations = delete_where (λ c. str_eq c.peer peer) t.conversations;
}

unfoldable pub delete_conversation : Str → LocalStorage → LocalStorage
unfolding update drop_messages drop_conversation
delete_conversation peer s = update (drop_conversation peer) (update (drop_messages peer) s)
