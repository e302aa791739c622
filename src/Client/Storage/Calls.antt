-- ===== src/Client/Storage/Calls.antt =====
-- The calls of LocalStorage's methods, one constructor for each method, and runs of several calls.
use bit_atm.Prelude.{Bool, List, [], ◌∷◌, Str}
use bit_atm.Client.Storage
use bit_atm.Client.Storage.{LocalStorage}
use bit_atm.Client.Storage.Messages
use bit_atm.Client.Storage.Groups
use bit_atm.Client.Storage.Recipients

pub data Call : Type 0 where
  open_for_user : Str → Call
  close : Call
  save_message : Str → Str → Str → Str → Bool → Str → Call
  update_message_status : Str → Str → Str → Call
  load_messages : Str → Call
  save_conversation : Str → Str → Str → Call
  load_conversations : Call
  increment_unread : Str → Call
  reset_unread : Str → Call
  newest_timestamp : Call
  is_duplicate : Str → Str → Str → Call
  delete_conversation : Str → Call
  save_group_message : Str → Str → Str → Str → Bool → Call
  load_group_messages : Str → Call
  update_group_message_status : Str → Str → Str → Call
  save_group_key : Str → Str → Call
  load_group_key : Str → Call
  save_group : Str → Str → Str → Call
  increment_group_unread : Str → Call
  reset_group_unread : Str → Call
  load_groups : Call
  is_group_message_duplicate : Str → Str → Str → Call
  clear_all_data : Call
  remove_group : Str → Call
  save_recipient_snapshot : Str → Str → List Str → Call
  mark_recipient_delivered : Str → Str → Str → Call
  mark_recipient_seen : Str → Str → Str → Call
  recipient_count : Str → Str → Call
  all_recipients_delivered : Str → Str → Call
  all_recipients_seen : Str → Str → Call
  recipient_states : Str → Str → Call
  remove_recipients_not_in : Str → List Str → Call

unfoldable pub call : Call → LocalStorage → LocalStorage
call (open_for_user u) s = (Storage.open_for_user u s).1
call close s = Storage.close s
call (save_message p u c ts o st) s = Messages.save_message p u c ts o st s
call (update_message_status p ts st) s = Messages.update_message_status p ts st s
call (load_messages p) s = (Messages.load_messages p s).1
call (save_conversation p c ts) s = Messages.save_conversation p c ts s
call load_conversations s = (Messages.load_conversations s).1
call (increment_unread p) s = Messages.increment_unread p s
call (reset_unread p) s = Messages.reset_unread p s
call newest_timestamp s = (Messages.newest_timestamp s).1
call (is_duplicate p u ts) s = (Messages.is_duplicate p u ts s).1
call (delete_conversation p) s = Messages.delete_conversation p s
call (save_group_message g u c ts o) s = Groups.save_group_message g u c ts o s
call (load_group_messages g) s = (Groups.load_group_messages g s).1
call (update_group_message_status g ts st) s = Groups.update_group_message_status g ts st s
call (save_group_key g k) s = Groups.save_group_key g k s
call (load_group_key g) s = (Groups.load_group_key g s).1
call (save_group g n r) s = Groups.save_group g n r s
call (increment_group_unread g) s = Groups.increment_group_unread g s
call (reset_group_unread g) s = Groups.reset_group_unread g s
call load_groups s = (Groups.load_groups s).1
call (is_group_message_duplicate g u ts) s = (Groups.is_group_message_duplicate g u ts s).1
call clear_all_data s = Groups.clear_all_data s
call (remove_group g) s = Groups.remove_group g s
call (save_recipient_snapshot g ts ms) s = Recipients.save_recipient_snapshot g ts ms s
call (mark_recipient_delivered g ts m) s = Recipients.mark_recipient_delivered g ts m s
call (mark_recipient_seen g ts m) s = Recipients.mark_recipient_seen g ts m s
call (recipient_count g ts) s = (Recipients.recipient_count g ts s).1
call (all_recipients_delivered g ts) s = (Recipients.all_recipients_delivered g ts s).1
call (all_recipients_seen g ts) s = (Recipients.all_recipients_seen g ts s).1
call (recipient_states g ts) s = (Recipients.recipient_states g ts s).1
call (remove_recipients_not_in g ms) s = (Recipients.remove_recipients_not_in g ms s).1

unfoldable pub run_calls : List Call → LocalStorage → LocalStorage
unfolding call
run_calls [] s = s
run_calls (c ∷ rest) s = run_calls rest (call c s)
