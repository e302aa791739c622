-- ===== src/Client/Storage.antt =====
-- frontend/src/LocalStorage.h and LocalStorage.cpp: the SQLite file of each account, opening and
-- closing it, and its schema. The methods on the tables are in the modules below. A QString is
-- never null here; the tables are there whether or not their CREATE TABLE ran, since a statement on
-- a missing table is one that fails.
pub mod Messages
pub mod Groups
pub mod Recipients
pub mod Calls
pub mod Sound
pub mod Ready
pub mod Cache
use bit_atm.Prelude.{
  ℕ, suc, Bool, true, false, not, ◌&&◌, ◌||◌, Option, none, some, List, [], ◌∷◌, map, leb, ◌==◌,
  if◌then◌else◌, any, Str, str_eq, text,
}
use bit_atm.Client.Sql.{Key, key_eq}

-- struct MessageRecord, a row of messages.
pub record MessageRecord : Type 0 where
  pub peer : Str
  pub sender : Str
  pub content : Str
  pub timestamp : Str
  pub is_outgoing : Bool
  pub status : Str

-- struct ConversationRecord, a row of conversations.
pub record ConversationRecord : Type 0 where
  pub peer : Str
  pub last_message : Str
  pub last_timestamp : Str
  pub unread_count : ℕ

-- struct GroupMessageRecord, a row of group_messages.
pub record GroupMessageRecord : Type 0 where
  pub group_id : Str
  pub sender : Str
  pub content : Str
  pub timestamp : Str
  pub is_outgoing : Bool
  pub status : Str

pub record GroupKeyRow : Type 0 where
  pub group_id : Str
  pub aes_key_base64 : Str

-- A row of groups; the preview is NULL until a message is saved.
pub record GroupRow : Type 0 where
  pub group_id : Str
  pub name : Str
  pub role : Str
  pub last_message : Option Str
  pub last_timestamp : Option Str
  pub unread_count : ℕ

-- A row of group_message_recipients.
pub record Recipient : Type 0 where
  pub group_id : Str
  pub timestamp : Str
  pub member : Str
  pub delivered : Bool
  pub seen : Bool

-- A database file, with whether the two indexes that no CREATE TABLE holds are there.
pub record Tables : Type 0 where
  pub messages : List MessageRecord
  pub messages_dedup : Bool
  pub conversations : List ConversationRecord
  pub group_messages : List GroupMessageRecord
  pub gm_dedup : Bool
  pub group_keys : List GroupKeyRow
  pub groups : List GroupRow
  pub recipients : List Recipient

-- class LocalStorage, with the disk. `sql_fails` says of each step whether SQLite fails at it;
-- `opened` is the account whose file `_db` has open.
pub record LocalStorage : Type 0 where
  pub sql_fails : ℕ → Bool
  pub tick : ℕ
  pub opened : Option Str
  pub disk : Str → Tables

abbrev pub next_step : LocalStorage → LocalStorage
next_step s = record s { tick = suc s.tick }

abbrev pub write : Str → Tables → LocalStorage → LocalStorage
write file t s = record s { disk = λ k. if str_eq file k then t else s.disk k }

-- A statement breaks a constraint where the function returns none.
abbrev pub commit : Str → Option Tables → LocalStorage → Bool × LocalStorage
commit file none s = (false, s)
commit file (some t) s = (true, write file t s)

abbrev pub exec_on : (Tables → Option Tables) → Option Str → LocalStorage → Bool × LocalStorage
exec_on f none s = (false, next_step s)
exec_on f (some file) s =
    if s.sql_fails s.tick then (false, next_step s) else commit file (f (s.disk file)) (next_step s)

-- q.exec() of a statement that writes: it fails on a closed database.
unfoldable pub exec : (Tables → Option Tables) → LocalStorage → Bool × LocalStorage
exec f s = exec_on f s.opened s

-- A method that runs one statement and only logs its failure.
unfoldable pub update : (Tables → Tables) → LocalStorage → LocalStorage
unfolding exec
update f s = (exec (λ t. some (f t)) s).1

abbrev pub answer : {A : Type 0} → (Tables → A) → Option Str → LocalStorage → Option A
answer f none s = none
answer f (some file) s = if s.sql_fails s.tick then none else some (f (s.disk file))

-- q.exec() of a SELECT with its rows, or none if it fails.
unfoldable pub query : {A : Type 0} → (Tables → A) → LocalStorage → Option A × LocalStorage
query f s = (answer f s.opened s, next_step s)

abbrev pub messages_key : MessageRecord → Key
messages_key m = m.peer ∷ m.sender ∷ m.timestamp ∷ []

abbrev pub gm_key : GroupMessageRecord → Key
gm_key m = m.group_id ∷ m.sender ∷ m.timestamp ∷ []

-- CREATE UNIQUE INDEX fails on a table with two equal keys.
unfoldable pub distinct : List Key → Bool
distinct [] = true
distinct (k ∷ ks) = let rest = distinct ks in not (any (λ j. key_eq j k) ks) && rest

unfoldable pub index_messages : Tables → Option Tables
unfolding distinct
index_messages t =
    if t.messages_dedup || distinct (map messages_key t.messages)
    then some (record t { messages_dedup = true })
    else none

unfoldable pub index_gm : Tables → Option Tables
unfolding distinct
index_gm t =
    if t.gm_dedup || distinct (map gm_key t.group_messages)
    then some (record t { gm_dedup = true })
    else none

-- Statements in their order, each with whether its failure ends the function.
unfoldable pub run_schema :
    List (Bool × (Tables → Option Tables)) → LocalStorage → Bool × LocalStorage
unfolding exec
run_schema [] s = (true, s)
run_schema ((needed, f) ∷ rest) s =
    let later = run_schema rest (exec f s).1 in
    if needed && not (exec f s).0 then (false, (exec f s).1) else later

-- CREATE TABLE IF NOT EXISTS and ALTER TABLE ADD COLUMN leave the rows as they are.
unfoldable pub schema : List (Bool × (Tables → Option Tables))
unfolding index_messages index_gm
schema =
    (true, some)
    ∷ (true, index_messages)
    ∷ (true, some)
    ∷ (false, some)
    ∷ (true, some)
    ∷ (false, some)
    ∷ (true, some)
    ∷ (true, some)
    ∷ (false, some)
    ∷ (false, index_gm)
    ∷ (true, some)
    ∷ []

unfoldable pub create_schema : LocalStorage → Bool × LocalStorage
unfolding run_schema schema
create_schema = run_schema schema

-- The regular expression [^A-Za-z0-9_-].
abbrev pub is_kept : ℕ → Bool
is_kept c =
    (leb b'A' c && leb c b'Z')
    || (leb b'a' c && leb c b'z')
    || (leb b'0' c && leb c b'9')
    || (c == b'_')
    || (c == b'-')

unfoldable pub sanitize : Str → Str
sanitize name = map (λ c. if is_kept c then c else b'_') name

unfoldable pub close : LocalStorage → LocalStorage
close s = record s { opened = none }

-- _db.open() on the account's file, where it succeeds.
abbrev pub attach : Str → LocalStorage → LocalStorage
attach username s = next_step (record s { opened = some (sanitize username) })

-- The PRAGMA changes no row. A database whose schema fails stays open.
unfoldable pub open_for_user : Str → LocalStorage → Bool × LocalStorage
unfolding close create_schema sanitize exec
open_for_user username s =
    let shut = close s in
    if shut.sql_fails shut.tick
    then (false, next_step shut)
    else create_schema (exec some (attach username shut)).1
