-- ===== src/Repo/Messages.antt =====
-- backend/src/MessageRepository.cpp: table messages.
use bit_atm.Prelude.{
  ℕ, suc, Bool, ◌&&◌, ◌||◌, Option, List, [], ◌∷◌, ◌++◌, ltb, select, head?, any, Str, text, str_eq,
  ℤ, pos, int_eq,
}
use bit_atm.Db.{Message, Db, order_by, update_where, delete_where}
use bit_atm.Action.{
  Action, gets, ◌>>=◌, ◌>>◌, in_repo, query, execute, set_db, session, statement, cast_timestamp,
  now, transaction,
}
use bit_atm.Repo.Row.{present, present_rows}

abbrev sender_of : Message → Str
sender_of m = m.sender

abbrev pub by_time : List Message → List Message
by_time = order_by (λ m. m.created_at)

unfoldable pub find_by_id : ℤ → Action (Option Message)
find_by_id id =
    query (text "MessageRepository::findById: ")
      (λ w. present sender_of (head? (select (λ m. int_eq m.id id) w.db.messages)))

unfoldable pub find_all : Action (List Message)
find_all = query (text "MessageRepository::findAll: ") (λ w. present_rows sender_of w.db.messages)

abbrev pub insert : Message → ℕ → Db → Db
insert m t d = record d {
  messages = d.messages ++ record m { id = pos (suc d.serials.messages); created_at = t } ∷ [];
  serials = record (d.serials) { messages = suc d.serials.messages };
}

abbrev pub set_status : Message → Db → Db
set_status m d = record d {
  messages = update_where (λ r. int_eq r.id m.id) (λ r. record r { status = m.status }) d.messages;
}

-- COALESCE(NULLIF($7, '')::timestamptz, now())
abbrev pub created_time : Str → Action ℕ
created_time [] = gets now
created_time (c ∷ s) = cast_timestamp (c ∷ s)

-- save of a new message, whose createdAt is the text given.
unfoldable pub save_new : Message → Str → Action (Unit {0})
save_new m created_at =
    in_repo (text "MessageRepository::save: ")
      (do session; statement; t ← created_time created_at; set_db (λ w. insert m t w.db))

-- save of a message that has an id.
unfoldable pub save : Message → Action (Unit {0})
save m = execute (text "MessageRepository::save: ") (λ w. set_status m w.db)

unfoldable pub find_by_recipient : Str → Action (List Message)
find_by_recipient recipient = query (text "MessageRepository::findByRecipient: ") (λ w.
    present_rows sender_of (by_time (select (λ m. str_eq m.recipient recipient) w.db.messages)))

abbrev pub involves : Str → Message → Bool
involves username m = str_eq m.sender username || str_eq m.recipient username

unfoldable pub all_for_user : Str → Str → Action (List Message)
all_for_user username [] =
    gets (λ w. present_rows sender_of (by_time (select (involves username) w.db.messages)))
all_for_user username (c ∷ s) = do
  t ← cast_timestamp (c ∷ s)
  gets (λ w.
      present_rows sender_of
        (by_time (select (λ m. involves username m && ltb t m.created_at) w.db.messages)))

unfoldable pub find_all_for_user : Str → Str → Action (List Message)
unfolding all_for_user
find_all_for_user username after_timestamp =
    in_repo (text "MessageRepository::findAllForUser: ")
      (do session; statement; all_for_user username after_timestamp)

unfoldable pub find_by_sender : Str → Action (List Message)
find_by_sender sender =
    query (text "MessageRepository::findBySender: ")
      (λ w. present_rows sender_of (by_time (select (λ m. str_eq m.sender sender) w.db.messages)))

abbrev pub between : Str → Str → Message → Bool
between a b m =
    (str_eq m.sender a && str_eq m.recipient b) || (str_eq m.sender b && str_eq m.recipient a)

-- The first statement: rows of offline_queue whose message the conversation holds.
abbrev pub drop_queued : Str → Str → Db → Db
drop_queued a b d = record d {
  offline_queue =
      delete_where (λ q. any (λ m. between a b m && int_eq m.id q.message_id) d.messages)
        d.offline_queue;
}

abbrev pub drop_messages : Str → Str → Db → Db
drop_messages a b d = record d { messages = delete_where (between a b) d.messages }

unfoldable pub delete_conversation : Str → Str → Action (Unit {0})
delete_conversation a b = in_repo (text "MessageRepository::deleteConversation: ") (do
  session
  transaction (do
    statement
    set_db (λ w. drop_queued a b w.db)
    statement
    set_db (λ w. drop_messages a b w.db)
    statement))
