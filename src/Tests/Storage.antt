-- ===== src/Tests/Storage.antt =====
-- The client's cache.
use bit_atm.Prelude.{
  ◌≡◌, refl, true, false, ◌&&◌, ◌||◌, some, List, [], ◌∷◌, if◌then◌else◌, select, Str, text, str_eq,
}
use mathlib.Core.List.{Perm}
use bit_atm.Db.{delete_where}
use bit_atm.Client.Sql.{str_less}
use bit_atm.Client.Sql.Sorted.{IsSorted}
use bit_atm.Client.Storage.{MessageRecord, Recipient, Tables, LocalStorage}
use bit_atm.Client.Storage.Messages.{save_message, is_duplicate, load_messages, delete_conversation}
use bit_atm.Client.Storage.Recipients.{
  is_doomed, all_recipients_seen, all_recipients_delivered, remove_recipients_not_in,
}
use bit_atm.Client.Storage.Recipients.Aggregate.{everyone, all_recipients_lem}
use bit_atm.Client.Storage.Recipients.Removal.{disk-remove_recipients_not_in}
use bit_atm.Client.Storage.Ready.{IsReady}
use bit_atm.Client.Storage.Cache.{
  is_duplicate-save_message, save_message_again, load_messages-delete_conversation,
  load_messages-IsSorted,
}
use bit_atm.Client.Storage.Calls.{Call, run_calls}
use bit_atm.Client.Storage.Calls
use bit_atm.Client.Storage.Sound.{IsSound}
use bit_atm.Client.Storage.Sound.Disk.{IsSoundDisk}
use bit_atm.Client.Storage.Sound.Calls.{run_calls-IsSound}

abbrev message_at : Str → Str → MessageRecord
message_at peer ts = record {
  peer = peer;
  sender = text "alice";
  content = text "hi";
  timestamp = ts;
  is_outgoing = true;
  status = text "sent";
}

abbrev recipient : Str → Recipient
recipient name = record {
  group_id = text "7";
  timestamp = text "t1";
  member = name;
  delivered = true;
  seen = true;
}

abbrev file : Tables
file = record {
  messages = message_at (text "bob") (text "t2") ∷ message_at (text "bob") (text "t1") ∷ [];
  messages_dedup = true;
  conversations = [];
  group_messages = [];
  gm_dedup = true;
  group_keys = [];
  groups = [];
  recipients = recipient (text "bob") ∷ recipient (text "carol") ∷ [];
}

abbrev pub store : LocalStorage
store = record { sql_fails = λ n. false; tick = 0; opened = some (text "alice"); disk = λ k. file }

file-IsSound : IsSound file
unfolding text str_eq
file-IsSound = record {
  messages = λ h. ((refl, tt), (tt, tt));
  conversations = tt;
  group_messages = λ h. tt;
  group_keys = tt;
  groups = tt;
  recipients = ((refl, tt), (tt, tt));
  seen = (λ h. refl, (λ h. refl, tt));
}

store-IsReady : IsReady (text "alice") store
store-IsReady = record { opened = refl; works = λ n. refl }

abbrev calls : List Call
calls =
    Calls.open_for_user (text "bob")
    ∷ Calls.save_message (text "alice") (text "alice") (text "x") (text "t3") false (text "sent")
    ∷ Calls.mark_recipient_seen (text "7") (text "t1") (text "bob")
    ∷ []

run_calls-IsSound_example : IsSoundDisk (run_calls calls store)
run_calls-IsSound_example = run_calls-IsSound calls store (λ k. file-IsSound)

is_duplicate-save_message_example :
    (is_duplicate
      (text "bob")
      (text "alice")
      (text "t1")
      (save_message (text "bob") (text "alice") (text "x") (text "t3") true (text "sent") store)).0
    ≡ (str_eq (text "bob") (text "bob")
        && str_eq (text "alice") (text "alice")
        && str_eq (text "t3") (text "t1"))
      || (is_duplicate (text "bob") (text "alice") (text "t1") store).0
is_duplicate-save_message_example =
    is_duplicate-save_message (text "alice") (text "bob") (text "alice") (text "x") (text "t3")
      (text "sent") true store store-IsReady (text "bob") (text "alice") (text "t1")

save_message_again_example :
    (load_messages (text "bob") (
      save_message (text "bob") (text "alice") (text "y") (text "t3") false (text "seen") (
        save_message
          (text "bob")
          (text "alice")
          (text "x")
          (text "t3")
          true
          (text "sent")
          store))).0
    ≡ (load_messages (text "bob") (
        save_message (text "bob") (text "alice") (text "x") (text "t3") true (text "sent") store)).0
save_message_again_example =
    save_message_again (text "alice") (text "bob") (text "alice") (text "x") (text "t3")
      (text "sent") true store store-IsReady (text "bob") (text "y") (text "seen") false refl

load_messages-delete_conversation_example :
    (load_messages (text "bob") (delete_conversation (text "bob") store)).0
    ≡ (if str_eq (text "bob") (text "bob") then [] else (load_messages (text "bob") store).0)
load_messages-delete_conversation_example =
    load_messages-delete_conversation (text "alice") (text "bob") (text "bob") store store-IsReady

load_messages-IsSorted_example :
    IsSorted (λ a b. str_less a.timestamp b.timestamp) (load_messages (text "bob") store).0
    × Perm
        (load_messages (text "bob") store).0
        (select (λ m. str_eq m.peer (text "bob")) (store.disk (text "alice")).messages)
load_messages-IsSorted_example =
    load_messages-IsSorted (text "alice") (text "bob") store store-IsReady

disk-remove_recipients_not_in_example :
    (remove_recipients_not_in (text "7") (text "bob" ∷ []) store).1.disk (text "alice")
    ≡ record (store.disk (text "alice")) {
      recipients =
          delete_where
            (is_doomed (text "7") (text "bob" ∷ []))
            (store.disk (text "alice")).recipients;
    }
disk-remove_recipients_not_in_example =
    disk-remove_recipients_not_in (text "alice") (text "7") (text "bob" ∷ []) store store-IsReady

all_recipients_lem_example :
    ((all_recipients_delivered (text "7") (text "t1") store).0
      ≡ everyone (text "7") (text "t1") Recipient.delivered (store.disk (text "alice")))
    × ((all_recipients_seen (text "7") (text "t1") store).0
        ≡ everyone (text "7") (text "t1") Recipient.seen (store.disk (text "alice")))
all_recipients_lem_example =
    all_recipients_lem (text "alice") (text "7") (text "t1") store store-IsReady
