-- ===== src/Server/Ordered/Connection.antt =====
-- The connection loop of backend/src/Server.cpp.
use bit_atm.Prelude.{ℕ, Option, none, some, List, [], ◌∷◌, ◌++◌, Str, text, ℤ}
use bit_atm.Error.{Error, protocol, network, db, crypto, poco, std_error}
use bit_atm.Packet.{
  PacketType, login, register, message, key_exchange, ack, err_packet, sync_history, create_group,
  read_receipt, group_message, group_key_exchange, group_invite, group_leave, group_info,
  delete_group, delete_conversation, Packet,
}
use bit_atm.World.{World}
use bit_atm.Action.{after, Action, pure, throw, gets, modify, ◌>>=◌}
use bit_atm.Repo.Users
use bit_atm.Repo.Sessions
use bit_atm.Action.Keeps.{
  Keeps, keeps_rules, Keeps-execute, Keeps-bind, Keeps-pure, Keeps-throw, Keeps-modify,
  Keeps-try_catch, Keeps-assoc, Keeps-gets, Keeps-next_tick,
}
use bit_atm.Repo.Ordered.{IsOrdered}
use bit_atm.Repo.Users
use bit_atm.Repo.Sessions
use bit_atm.Handler.Base.{handle}
use bit_atm.Server.Factory.{create, handlers, lookup}
use bit_atm.Server.Connection
use bit_atm.Server.Connection.{
  Local, Frame, close, ping, pong, bytes, failure, serve, on_packet, report, clean_up,
  handle_request, no_local,
}
use bit_atm.Server.Ordered.Groups.{
  group_message-IsOrdered, group_info-IsOrdered, group_leave-IsOrdered, delete_group-IsOrdered,
}
use bit_atm.Server.Ordered.Keys.{group_key_exchange-IsOrdered, create_group_handler-IsOrdered}
use bit_atm.Server.Ordered.Messages.{
  message-IsOrdered, ack-IsOrdered, read_receipt-IsOrdered, sync-IsOrdered,
  delete_conversation_handler-IsOrdered,
}
use bit_atm.Server.Ordered.Accounts.{login-IsOrdered, register-IsOrdered, key_exchange-IsOrdered}
use bit_atm.Error.{Result, ok, err}
use bit_atm.Wire.{deserialize}

-- The dispatch and the handler that it finds.
create-IsOrdered :
    (t : PacketType) (p : Packet) (sid : ℕ)
    → Keeps IsOrdered (create handlers t >>= λ h. handle h p sid)
unfolding create handlers lookup ◌>>=◌ pure throw
create-IsOrdered login p sid = record { at = (login-IsOrdered p sid).at }
create-IsOrdered register p sid = record { at = (register-IsOrdered p sid).at }
create-IsOrdered message p sid = record { at = (message-IsOrdered p sid).at }
create-IsOrdered key_exchange p sid = record { at = (key_exchange-IsOrdered p sid).at }
create-IsOrdered ack p sid = record { at = (ack-IsOrdered p sid).at }
create-IsOrdered err_packet p sid = record { at = λ w h. h }
create-IsOrdered sync_history p sid = record { at = (sync-IsOrdered p sid).at }
create-IsOrdered create_group p sid = record { at = (create_group_handler-IsOrdered p sid).at }
create-IsOrdered read_receipt p sid = record { at = (read_receipt-IsOrdered p sid).at }
create-IsOrdered group_message p sid = record { at = (group_message-IsOrdered p sid).at }
create-IsOrdered group_key_exchange p sid = record { at = (group_key_exchange-IsOrdered p sid).at }
create-IsOrdered group_invite p sid = record { at = λ w h. h }
create-IsOrdered group_leave p sid = record { at = (group_leave-IsOrdered p sid).at }
create-IsOrdered group_info p sid = record { at = (group_info-IsOrdered p sid).at }
create-IsOrdered delete_group p sid = record { at = (delete_group-IsOrdered p sid).at }
create-IsOrdered delete_conversation p sid = record {
  at = (delete_conversation_handler-IsOrdered p sid).at;
}

report-IsOrdered : (sid : ℕ) (e : Error) → Keeps IsOrdered (report sid e)
unfolding report
report-IsOrdered sid (poco m) = Keeps-throw _
report-IsOrdered sid (std_error m) = Keeps-throw _
report-IsOrdered sid (protocol m) = search keeps_rules
report-IsOrdered sid (network m) = search keeps_rules
report-IsOrdered sid (db m) = search keeps_rules
report-IsOrdered sid (crypto m) = search keeps_rules

map_change-IsOrdered :
    (f : World → List (Str × List ℕ)) → Keeps IsOrdered (Connection.set_clients f)
unfolding Connection.set_clients
map_change-IsOrdered f = Keeps-modify _ (λ w h. h)

register_in_map-IsOrdered :
    (sid : ℕ) (loc : Local)
    → Keeps IsOrdered (gets (λ w. w.sessions sid) >>= Connection.register_in_map sid loc)
unfolding Connection.register_in_map
register_in_map-IsOrdered sid loc = search (keeps_rules, map_change-IsOrdered) depth 12

on_packet-IsOrdered : (sid : ℕ) (loc : Local) (p : Packet) → Keeps IsOrdered (on_packet sid loc p)
unfolding on_packet Connection.run_handler
on_packet-IsOrdered sid loc p =
    Keeps-try_catch _ _
      (Keeps-assoc _ _ _
        (Keeps-bind _ _ (create-IsOrdered p.type p sid) (λ _. register_in_map-IsOrdered sid loc)))
      (λ e. search (keeps_rules, report-IsOrdered))

on_parsed-IsOrdered :
    (sid : ℕ) (loc : Local) (r : Result Packet) → Keeps IsOrdered (Connection.on_parsed sid loc r)
unfolding Connection.on_parsed
on_parsed-IsOrdered sid loc (ok p) = on_packet-IsOrdered sid loc p
on_parsed-IsOrdered sid loc (err e) = search (keeps_rules, report-IsOrdered)

send_pong-IsOrdered : (sid : ℕ) (s : Str) → Keeps IsOrdered (Connection.send_pong sid s)
unfolding Connection.send_pong
send_pong-IsOrdered sid s =
    Keeps-bind _ _ Keeps-next_tick
      (λ t. Keeps-bind _ _ (Keeps-gets _) (λ env. answer (env.send_fails t sid)))
  where
    answer :
        (o : Option Str)
        → Keeps IsOrdered (elim o [
          | some m ↦ throw (network (text "ClientSession::receive failed: " ++ m))
          | none ↦ modify (λ w. record w { sent = (sid, s) ∷ w.sent })
        ])
    answer none = Keeps-modify _ (λ w h. h)
    answer (some m) = Keeps-throw _

escaping-IsOrdered :
    {A : Type 0} (m : Action A) → Keeps IsOrdered m → Keeps IsOrdered (Connection.escaping m)
escaping-IsOrdered m k = search keeps_rules

disconnect-IsOrdered : (sid : ℕ) → Keeps IsOrdered (Connection.disconnect sid)
unfolding Connection.disconnect
disconnect-IsOrdered sid = Keeps-modify _ (λ w h. h)

gone_on :
    {A : Type 0} (loc : Local) (k : A → Action Local) (o : Option A)
    → ((a : A) → Keeps IsOrdered (k a))
    → Keeps IsOrdered (elim o [ none ↦ pure loc | some a ↦ k a ])
gone_on loc k none h = Keeps-pure _
gone_on loc k (some a) h = h a

serve-IsOrdered :
    (t0 : ℤ) (sid : ℕ) (loc : Local) (frames : List Frame)
    → Keeps IsOrdered (serve t0 sid loc frames)
unfolding serve
serve-IsOrdered t0 sid loc [] = search (keeps_rules, disconnect-IsOrdered)
serve-IsOrdered t0 sid loc (close ∷ rest) = search (keeps_rules, disconnect-IsOrdered)
serve-IsOrdered t0 sid loc (pong ∷ rest) = serve-IsOrdered t0 sid loc rest
serve-IsOrdered t0 sid loc (ping s ∷ rest) =
    Keeps-bind _ _ (escaping-IsOrdered _ (send_pong-IsOrdered sid s))
      (λ o. gone_on loc _ o (λ _. serve-IsOrdered t0 sid loc rest))
serve-IsOrdered t0 sid loc (bytes [] ∷ rest) = search (keeps_rules, disconnect-IsOrdered)
serve-IsOrdered t0 sid loc (bytes (c ∷ s) ∷ rest) =
    Keeps-bind _ _ (escaping-IsOrdered _ (on_parsed-IsOrdered sid loc (deserialize t0 (c ∷ s))))
      (λ o. gone_on loc _ o (λ loc'. serve-IsOrdered t0 sid loc' rest))
serve-IsOrdered t0 sid loc (failure m ∷ rest) = Keeps-pure _

clean_up-IsOrdered : (sid : ℕ) (loc : Local) → Keeps IsOrdered (clean_up sid loc)
unfolding clean_up Users.update_last_seen Sessions.deactivate_by_token
clean_up-IsOrdered sid loc = search (keeps_rules, Keeps-execute, map_change-IsOrdered) depth 20

-- A whole connection, whatever frames arrive, whatever fails, and whatever the parser's local
-- starts with, keeps the receipts of group messages in order: if every receipt that is seen was
-- delivered before it, so it is after it.
pub handle_request-IsOrdered :
    (t0 : ℤ) (sid : ℕ) (frames : List Frame) (w : World)
    → IsOrdered w.db
    → IsOrdered (after (handle_request t0 sid frames w)).db
unfolding handle_request
handle_request-IsOrdered t0 sid frames w h = kept.at w h
  where
    kept : Keeps IsOrdered (handle_request t0 sid frames)
    kept = search (keeps_rules, serve-IsOrdered, clean_up-IsOrdered)
