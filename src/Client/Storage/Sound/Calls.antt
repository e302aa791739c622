-- ===== src/Client/Storage/Sound/Calls.antt =====
-- LocalStorage: the invariant along any calls.
use bit_atm.Prelude.{
  ℕ, inl, inr, Bool, not, ◌==◌, Option, none, some, List, [], ◌∷◌, Bool-cases, Str, text,
}
use bit_atm.Client.Storage.{
  MessageRecord, GroupMessageRecord, Tables, LocalStorage, messages_key, gm_key, distinct,
  index_messages, index_gm, exec, exec_on, close, update, query, commit, next_step, create_schema,
  sanitize,
}
use bit_atm.Client.Storage
use bit_atm.Client.Storage.Messages
use bit_atm.Client.Storage.Groups
use bit_atm.Client.Storage.Recipients
use bit_atm.Client.Storage.Calls.{Call, call, run_calls}
use bit_atm.Client.Storage.Sound.{
  set_messages, set_conversations, set_group_messages, set_group_keys, set_groups,
}
use bit_atm.Client.Storage.Sound.Statements.{
  put_message-IsSound, set_status-IsSound, drop_messages-IsSound, put_conversation-IsSound,
  count_unread-IsSound, clear_unread-IsSound, drop_conversation-IsSound, put_group_message-IsSound,
  set_group_status-IsSound, drop_group_messages-IsSound, put_group_key-IsSound,
  drop_group_key-IsSound, put_group-IsSound, set_preview-IsSound, count_group_unread-IsSound,
  clear_group_unread-IsSound, drop_group-IsSound,
}
use bit_atm.Client.Storage.Sound.Recipients.{
  set_delivered-IsSound, set_seen-IsSound, drop_recipient-IsSound,
}
use bit_atm.Client.Storage.Sound.Disk.{
  IsSoundDisk, update-IsSound, open_for_user-IsSound, save_recipient_snapshot-IsSound,
}

none_left-IsSound :
    (g ts : Str) (r : Option ℕ × LocalStorage)
    → IsSoundDisk r.1
    → IsSoundDisk (Recipients.none_left g ts r).1
unfolding Recipients.recipient_count
none_left-IsSound g ts (none, s) d = d
none_left-IsSound g ts (some n, s) d = elim (Bool-cases (n == 0)) [
  | inl e ↦ rw e d
  | inr e ↦ rw e d
]

drop_recipients-IsSound :
    (g : Str) (l : List (Str × Str)) (s : LocalStorage)
    → IsSoundDisk s
    → IsSoundDisk (Recipients.drop_recipients g l s)
unfolding Recipients.drop_recipients
drop_recipients-IsSound g [] s d = d
drop_recipients-IsSound g ((ts, m) ∷ l) s d =
    drop_recipients-IsSound g l _ (update-IsSound _ s (drop_recipient-IsSound g ts m) d)

with_rows-IsSound :
    (g : Str) (l : List Str) (s : LocalStorage)
    → IsSoundDisk s
    → IsSoundDisk (Recipients.with_rows g l s).1
unfolding Recipients.with_rows Recipients.recipient_count
with_rows-IsSound g [] s d = d
with_rows-IsSound g (ts ∷ l) s d = with_rows-IsSound g l _ d

drop_doomed-IsSound :
    (g : Str) (r : Option (List (Str × Str)) × LocalStorage)
    → IsSoundDisk r.1
    → IsSoundDisk (Recipients.drop_doomed g r).1
drop_doomed-IsSound g (none, s) d = d
drop_doomed-IsSound g (some l, s) d = with_rows-IsSound g _ _ (drop_recipients-IsSound g l s d)

row : Str → Str → Str → Str → Bool → GroupMessageRecord
row g u c ts o = record {
  group_id = g;
  sender = u;
  content = c;
  timestamp = ts;
  is_outgoing = o;
  status = text "sent";
}

-- A statement that empties a table.
module _ (s : LocalStorage) (d : IsSoundDisk s) where
  clear_all_data-IsSound : IsSoundDisk (Groups.clear_all_data s)
  unfolding Groups.clear_all_data
  clear_all_data-IsSound =
      update-IsSound _
        (update (λ t. record t { messages = [] })
          (update (λ t. record t { groups = [] })
            (update (λ t. record t { group_keys = [] })
              (update (λ t. record t { group_messages = [] }) s))))
        (λ t v. set_conversations t v [] tt)
        (update-IsSound _
          (update (λ t. record t { groups = [] })
            (update (λ t. record t { group_keys = [] })
              (update (λ t. record t { group_messages = [] }) s)))
          (λ t v. set_messages t v [] (λ h. tt))
          (update-IsSound _
            (update (λ t. record t { group_keys = [] })
              (update (λ t. record t { group_messages = [] }) s))
            (λ t v. set_groups t v [] tt)
            (update-IsSound _ (update (λ t. record t { group_messages = [] }) s)
              (λ t v. set_group_keys t v [] tt)
              (update-IsSound _ s (λ t v. set_group_messages t v [] (λ h. tt)) d))))

call-IsSound : (c : Call) (s : LocalStorage) → IsSoundDisk s → IsSoundDisk (call c s)
unfolding call query row Storage.close Messages.save_message Messages.update_message_status
    Messages.load_messages Messages.save_conversation Messages.load_conversations
    Messages.increment_unread Messages.reset_unread Messages.newest_timestamp Messages.is_duplicate
    Messages.delete_conversation Groups.save_group_message Groups.load_group_messages
    Groups.update_group_message_status Groups.save_group_key Groups.load_group_key Groups.save_group
    Groups.increment_group_unread Groups.reset_group_unread Groups.load_groups
    Groups.is_group_message_duplicate Groups.clear_all_data Groups.remove_group
    Recipients.mark_recipient_delivered Recipients.mark_recipient_seen Recipients.recipient_count
    Recipients.all_recipients_delivered Recipients.all_recipients_seen Recipients.recipient_states
    Recipients.remove_recipients_not_in
call-IsSound (Call.open_for_user u) s d = open_for_user-IsSound u s d
call-IsSound Call.close s d = d
call-IsSound (Call.save_message p u c ts o st) s d =
    update-IsSound _ s
      (put_message-IsSound (record {
        peer = p;
        sender = u;
        content = c;
        timestamp = ts;
        is_outgoing = o;
        status = st;
      }))
      d
call-IsSound (Call.update_message_status p ts st) s d =
    update-IsSound _ s (set_status-IsSound p ts st) d
call-IsSound (Call.load_messages p) s d = d
call-IsSound (Call.save_conversation p c ts) s d =
    update-IsSound _ s (put_conversation-IsSound p c ts) d
call-IsSound Call.load_conversations s d = d
call-IsSound (Call.increment_unread p) s d = update-IsSound _ s (count_unread-IsSound p) d
call-IsSound (Call.reset_unread p) s d = update-IsSound _ s (clear_unread-IsSound p) d
call-IsSound Call.newest_timestamp s d = d
call-IsSound (Call.is_duplicate p u ts) s d = d
call-IsSound (Call.delete_conversation p) s d =
    update-IsSound _ (update (Messages.drop_messages p) s) (drop_conversation-IsSound p)
      (update-IsSound _ s (drop_messages-IsSound p) d)
call-IsSound (Call.save_group_message g u c ts o) s d =
    update-IsSound _ (update (Groups.put_group_message (row g u c ts o)) s)
      (set_preview-IsSound g c ts)
      (update-IsSound _ s (put_group_message-IsSound (row g u c ts o)) d)
call-IsSound (Call.load_group_messages g) s d = d
call-IsSound (Call.update_group_message_status g ts st) s d =
    update-IsSound _ s (set_group_status-IsSound g ts st) d
call-IsSound (Call.save_group_key g k) s d = update-IsSound _ s (put_group_key-IsSound g k) d
call-IsSound (Call.load_group_key g) s d = d
call-IsSound (Call.save_group g n r) s d = update-IsSound _ s (put_group-IsSound g n r) d
call-IsSound (Call.increment_group_unread g) s d =
    update-IsSound _ s (count_group_unread-IsSound g) d
call-IsSound (Call.reset_group_unread g) s d = update-IsSound _ s (clear_group_unread-IsSound g) d
call-IsSound Call.load_groups s d = d
call-IsSound (Call.is_group_message_duplicate g u ts) s d = d
call-IsSound Call.clear_all_data s d = clear_all_data-IsSound s d
call-IsSound (Call.remove_group g) s d =
    update-IsSound _ (update (Groups.drop_group_key g) (update (Groups.drop_group_messages g) s))
      (drop_group-IsSound g)
      (update-IsSound _ (update (Groups.drop_group_messages g) s) (drop_group_key-IsSound g)
        (update-IsSound _ s (drop_group_messages-IsSound g) d))
call-IsSound (Call.save_recipient_snapshot g ts ms) s d =
    save_recipient_snapshot-IsSound g ts ms s d
call-IsSound (Call.mark_recipient_delivered g ts m) s d =
    update-IsSound _ s (set_delivered-IsSound g ts m) d
call-IsSound (Call.mark_recipient_seen g ts m) s d = update-IsSound _ s (set_seen-IsSound g ts m) d
call-IsSound (Call.recipient_count g ts) s d = d
call-IsSound (Call.all_recipients_delivered g ts) s d =
    none_left-IsSound g ts
      (query (Recipients.count_of g ts (λ r. not (Storage.Recipient.delivered r))) s) d
call-IsSound (Call.all_recipients_seen g ts) s d =
    none_left-IsSound g ts
      (query (Recipients.count_of g ts (λ r. not (Storage.Recipient.seen r))) s) d
call-IsSound (Call.recipient_states g ts) s d = d
call-IsSound (Call.remove_recipients_not_in g ms) s d =
    drop_doomed-IsSound g (query (Recipients.doomed_of g ms) s) d

-- If every database file is sound, every file is sound after any calls of the methods of
-- LocalStorage, whatever statements fail: the messages of a file are told apart by peer, sender and
-- timestamp and the group messages by group, sender and timestamp, if the index is there, the rows of
-- every other table by their primary key, and who has seen a group message has received it.
pub run_calls-IsSound :
    (calls : List Call) (s : LocalStorage) → IsSoundDisk s → IsSoundDisk (run_calls calls s)
unfolding run_calls
run_calls-IsSound [] s d = d
run_calls-IsSound (c ∷ calls) s d = run_calls-IsSound calls (call c s) (call-IsSound c s d)
