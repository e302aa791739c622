-- ===== src/Tests/Tables.antt =====
-- The tables and the client map.
use bit_atm.Prelude.{◌≡◌, refl, none, [], ◌∷◌, ◌++◌, if◌then◌else◌, select, text, pos, str_eq}
use bit_atm.Packet.{Packet, read_receipt}
use bit_atm.World.{World}
use bit_atm.Action.{done, after}
use bit_atm.Action.Atomic.{IsAllOrNothing, each}
use bit_atm.Repo.Atomic.{
  delete_conversation-IsAllOrNothing, replace_all_keys-IsAllOrNothing, put_key,
}
use bit_atm.Repo.Messages.{drop_messages, drop_queued, delete_conversation}
use bit_atm.Repo.Groups.{drop_keys, replace_all_keys}
use bit_atm.Repo.Pending.{find_and_clear, rows_for}
use bit_atm.Repo.Pending.Once.{find_and_clear_once}
use bit_atm.Repo.OfflineQueue.{is_pending}
use bit_atm.Repo.Ordered.{IsOrdered}
use bit_atm.Repo.Receipts.{insert_read_receipt}
use bit_atm.Repo.Receipts.Queue.{insert_read_receipt_again}
use bit_atm.Wire.{serialize}
use bit_atm.Server.Cleanup.{on_cleanup_timer}
use bit_atm.Server.Cleanup.Pending.{is_pending-on_cleanup_timer}
use bit_atm.Server.Connection.{bytes, ping, handle_request}
use bit_atm.Server.Ordered.Connection.{handle_request-IsOrdered}
use bit_atm.Server.Clients.{add_client, remove_client, get_sessions_for_user, without}
use bit_atm.Server.Clients.Laws.{
  IsClientMap, client_map-IsClientMap, get_sessions_for_user-add_client,
  get_sessions_for_user-remove_client,
}
use bit_atm.Tests.Data.{quiet_run, packet, world}

delete_conversation-IsAllOrNothing_example :
    IsAllOrNothing
      (λ d. drop_messages (text "alice") (text "bob") (drop_queued (text "alice") (text "bob") d))
      world.db
      (delete_conversation (text "alice") (text "bob") world)
delete_conversation-IsAllOrNothing_example =
    delete_conversation-IsAllOrNothing (text "alice") (text "bob") world

replace_all_keys-IsAllOrNothing_example :
    IsAllOrNothing
      (λ d.
        each
          (put_key (pos 7))
          ((text "alice", text "k") ∷ (text "bob", text "l") ∷ [])
          (drop_keys (pos 7) d))
      world.db
      (replace_all_keys (pos 7) ((text "alice", text "k") ∷ (text "bob", text "l") ∷ []) world)
replace_all_keys-IsAllOrNothing_example =
    replace_all_keys-IsAllOrNothing (pos 7) ((text "alice", text "k") ∷ (text "bob", text "l") ∷ [])
      world

is_pending-on_cleanup_timer_example :
    select (is_pending (text "bob")) (after (on_cleanup_timer world)).db.offline_queue
    ≡ select (is_pending (text "bob")) world.db.offline_queue
is_pending-on_cleanup_timer_example = is_pending-on_cleanup_timer (text "bob") world

abbrev receipted : World
receipted = record world {
  db = insert_read_receipt (text "bob") (text "alice") (text "ts") none (text "delivered") world;
}

insert_read_receipt_again_example :
    insert_read_receipt (text "bob") (text "alice") (text "ts") none (text "seen") receipted
    ≡ receipted.db
insert_read_receipt_again_example =
    insert_read_receipt_again (text "bob") (text "alice") (text "ts") (text "delivered")
      (text "seen") none none world receipted refl

-- Bob has not received alice's message 1 to group 7, and reads it.
abbrev unread : World
unread = record world {
  db = record world.db {
    group_messages =
        record {
          id = pos 1;
          group_id = pos 7;
          sender = text "alice";
          encrypted_body = text "c";
          timestamp = 5;
        }
        ∷ [];
    group_message_receipts =
        record { message_id = pos 1; username = text "bob"; delivered_at = none; seen_at = none }
        ∷ [];
  };
}

abbrev receipt : Packet
receipt = record (packet read_receipt (text "7") (text "2026") []) { from = text "bob" }

handle_request-IsOrdered_example :
    IsOrdered
      (after (handle_request (pos 0) 2 (ping [] ∷ bytes (serialize receipt) ∷ []) unread)).db
handle_request-IsOrdered_example =
    handle_request-IsOrdered (pos 0) 2 (ping [] ∷ bytes (serialize receipt) ∷ []) unread (refl, tt)

client_map-IsClientMap_example :
    IsClientMap (add_client (text "bob") 5 world.clients)
    × IsClientMap (remove_client (text "bob") 5 world.clients)
unfolding text str_eq
client_map-IsClientMap_example =
    client_map-IsClientMap (text "bob") 5 world.clients ((refl, tt), refl, (tt, refl, tt))

get_sessions_for_user-add_client_example :
    get_sessions_for_user (text "alice") (add_client (text "bob") 5 world.clients) ≡ (
      if str_eq (text "bob") (text "alice")
      then get_sessions_for_user (text "alice") world.clients ++ 5 ∷ []
      else get_sessions_for_user (text "alice") world.clients)
get_sessions_for_user-add_client_example =
    get_sessions_for_user-add_client (text "bob") (text "alice") 5 world.clients

get_sessions_for_user-remove_client_example :
    get_sessions_for_user (text "bob") (remove_client (text "bob") 2 world.clients) ≡ (
      if str_eq (text "bob") (text "bob")
      then without 2 (get_sessions_for_user (text "bob") world.clients)
      else get_sessions_for_user (text "bob") world.clients)
unfolding text str_eq
get_sessions_for_user-remove_client_example =
    get_sessions_for_user-remove_client (text "bob") (text "bob") 2 world.clients
      ((refl, tt), refl, (tt, refl, tt))

find_and_clear_once_example :
    (x : World) × (find_and_clear (text "bob") world ≡ done (rows_for (text "bob") world.db) x)
    × (rows_for (text "alice") x.db
        ≡ (if str_eq (text "bob") (text "alice") then [] else rows_for (text "alice") world.db))
find_and_clear_once_example = find_and_clear_once (text "bob") (text "alice") world quiet_run
