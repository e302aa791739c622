-- ===== src/Handler/SyncHistory.antt =====
-- backend/src/SyncHistoryHandler.cpp.
use bit_atm.Prelude.{
  ℕ, Bool, true, false, ◌&&◌, ◌||◌, List, [], ◌∷◌, ltb, ◌==◌, if◌then◌else◌, Str, text, str_eq,
  to_string,
}
use bit_atm.Error.{Error, db}
use bit_atm.Packet.{message, ack, group_message, Packet, blank}
use bit_atm.Db.{Message, GroupMessage}
use bit_atm.World.{Env}
use bit_atm.Action.{Action, throw, gets, ◌>>=◌, ◌>>◌, require, try_catch, for_each, send}
use bit_atm.Handler.Base.{Handler, base_authorize, present, username_of}
use bit_atm.Repo.Messages
use bit_atm.Repo.Groups

unfoldable pub validate : Packet → Action (Unit {0})
validate p = require (present p.from) (text "SYNC_HISTORY: sender (from) is required")

-- std::string operator<.
str_lt : Str → Str → Bool
str_lt [] [] = false
str_lt [] (b ∷ t) = true
str_lt (a ∷ s) [] = false
str_lt (a ∷ s) (b ∷ t) = ltb a b || ((a == b) && str_lt s t)

-- std::sort by createdAt, which may order equal elements in any way; here they keep their order.
insert_message : Env → Message → List Message → List Message
unfolding str_lt
insert_message env m [] = m ∷ []
insert_message env m (n ∷ ns) =
    if str_lt (env.timestamp_text n.created_at) (env.timestamp_text m.created_at)
    then n ∷ insert_message env m ns
    else m ∷ n ∷ ns

unfoldable pub sort_messages : Env → List Message → List Message
unfolding insert_message
sort_messages env [] = []
sort_messages env (m ∷ ms) = insert_message env m (sort_messages env ms)

-- catch (const DbException&): the full history instead.
abbrev pub on_db : {A : Type 0} → Action A → Error → Action A
on_db m (db e) = m
on_db m e = throw e

abbrev pub with_fallback : {A : Type 0} → (Str → Action A) → Str → Action A
with_fallback find cursor = try_catch (find cursor) (on_db (find []))

abbrev pub key_for : Str → Message → Str
key_for username m =
    if str_eq m.sender username && present m.sender_encrypted_key
    then m.sender_encrypted_key
    else m.encrypted_key

unfoldable pub replay : Env → Str → Message → Packet
replay env username m = record (blank message) {
  from = m.sender;
  to = m.recipient;
  body = m.encrypted_body;
  key = key_for username m;
  timestamp = env.timestamp_text m.created_at;
  error_msg = if str_eq m.sender username then text "1" else text "0";
}

unfoldable pub replay_group : Env → GroupMessage → Packet
replay_group env g = record (blank group_message) {
  from = g.sender;
  to = to_string g.group_id;
  body = g.encrypted_body;
  timestamp = env.timestamp_iso g.timestamp;
}

unfoldable pub execute_sync : Packet → ℕ → Action (Unit {0})
execute_sync p sid = do
  username ← username_of sid
  env ← gets (λ w. w.env)
  messages ← with_fallback (Messages.find_all_for_user username) p.body
  for_each (λ m. send sid (replay env username m)) (sort_messages env messages)
  groups ← with_fallback (Groups.find_messages_for_user_since username) p.body
  for_each (λ g. send sid (replay_group env g)) groups
  send sid (record (blank ack) { to = username })

unfoldable pub handler : Handler
unfolding validate execute_sync
handler = record { validate = validate; authorize = base_authorize; execute = execute_sync }
