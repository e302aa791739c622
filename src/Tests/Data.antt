-- ===== src/Tests/Data.antt =====
-- An environment in which nothing fails, and a small world: alice created group 7 with bob.
use bit_atm.Prelude.{refl, ℕ, true, none, some, [], ◌∷◌, ◌++◌, ◌==◌, if◌then◌else◌, Str, text, pos}
use bit_atm.Packet.{PacketType, Packet, blank}
use bit_atm.Action.Quiet.{IsQuiet}
use bit_atm.Db.{Db, User, GroupMember}
use bit_atm.World.{Env, World, ClientSession, connected, authenticated}

abbrev pub quiet : Env
quiet = record {
  statement_fails = λ t. none;
  session_fails = λ t. none;
  send_fails = λ t sid. none;
  clock = λ t. t;
  rand_bytes = λ t n. some (text "0123456789abcdef");
  kdf_fetch = λ t name. true;
  kdf_ctx_new = λ t. true;
  kdf_derive = λ name p len. some (p.pass ++ p.salt);
  read_timestamp = λ s. none;
  cast_message = text "invalid input syntax";
  timestamp_text = λ t. text "2026";
  timestamp_iso = λ t. text "2026";
}

abbrev pub member : Str → Str → GroupMember
member u r = record { group_id = pos 7; username = u; role = r; joined_at = 1 }

abbrev pub user : ℕ → Str → User
user n u = record {
  id = pos n;
  username = u;
  password_hash = text "00:00";
  public_key = [];
  last_seen = 0;
  created_at = 0;
}

abbrev pub tables : Db
tables = record {
  users = user 1 (text "alice") ∷ user 2 (text "bob") ∷ [];
  messages = [];
  sessions =
      record {
        id = pos 1;
        user_id = pos 1;
        session_token = text "aa";
        created_at = 0;
        expires_at = 900;
        is_active = true;
      }
      ∷ record {
        id = pos 2;
        user_id = pos 2;
        session_token = text "bb";
        created_at = 0;
        expires_at = 900;
        is_active = true;
      }
      ∷ [];
  offline_queue = [];
  groups = record { id = pos 7; name = text "team"; creator = text "alice" } ∷ [];
  group_members = member (text "alice") (text "creator") ∷ member (text "bob") (text "admin") ∷ [];
  group_keys = [];
  group_messages = [];
  group_message_receipts = [];
  offline_read_receipts = [];
  pending_notifications = [];
  serials = record {
    users = 2;
    messages = 0;
    sessions = 2;
    offline_queue = 0;
    groups = 7;
    group_messages = 0;
    read_receipts = 0;
    pending = 0;
  };
}

abbrev pub logged_in : Str → Str → ClientSession
logged_in u token = record { state = authenticated; username = u; session_token = token }

abbrev pub stranger : ClientSession
stranger = record { state = connected; username = []; session_token = [] }

-- Session 1 is alice's, session 2 bob's, and any other has just connected.
abbrev pub world : World
world = record {
  env = quiet;
  tick = 10;
  db = tables;
  clients = (text "alice", 1 ∷ []) ∷ (text "bob", 2 ∷ []) ∷ [];
  sessions = λ n.
      if n == 1
      then logged_in (text "alice") (text "aa")
      else if n == 2
      then logged_in (text "bob") (text "bb")
      else stranger;
  sent = [];
}

abbrev pub packet : PacketType → Str → Str → Str → Packet
packet t to body key = record (blank t) { to = to; body = body; key = key }

abbrev pub quiet_run : IsQuiet quiet
quiet_run = record { statements = λ t. refl; sessions = λ t. refl; sends = λ t s. refl }
