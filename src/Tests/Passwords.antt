-- ===== src/Tests/Passwords.antt =====
-- Registration, login and what they flush.
use bit_atm.Prelude.{◌∷◌, [], ◌⊎◌, ◌≡◌, refl, false, All, Str, text, pos}
use bit_atm.World.{World, authenticated}
use bit_atm.Action.{after, done}
use bit_atm.Handler.Password.{to_hex}
use bit_atm.Handler.Login.{flush_entry, open_session}
use bit_atm.Handler.Login.Attempts.{attempts, flush_entry_counts}
use bit_atm.Repo.OfflineQueue.{update, count_attempt}
use bit_atm.Db.{OfflineMessage}
use bit_atm.Handler.Login.Single.{OnlyToken, open_session-OnlyToken}
use bit_atm.Tests.Data.{tables, quiet_run, world}

abbrev salt : Str
salt = text "0123456789abcdef"

open_session-OnlyToken_example :
    (x : World) × (open_session (text "alice") (pos 1) 3 world ≡ done (to_hex salt) x)
    × All (OnlyToken (pos 1) (to_hex salt)) x.db.sessions
    × (x.sessions 3
        ≡ record { state = authenticated; username = text "alice"; session_token = to_hex salt })
open_session-OnlyToken_example =
    open_session-OnlyToken (text "alice") (pos 1) 3 world salt quiet_run refl

abbrev entry : OfflineMessage
entry = record {
  id = pos 1;
  message_id = pos 4;
  recipient = text "bob";
  queued_at = 0;
  delivered = false;
  delivery_attempts = 2;
}

abbrev queued : World
queued = record world { db = record tables { offline_queue = entry ∷ [] } }

flush_entry_counts_example :
    ((after (flush_entry (text "bob") 2 entry queued)).sent ≡ queued.sent)
    ⊎ (attempts (after (flush_entry (text "bob") 2 entry queued)).db
        ≡ attempts (update (pos 1) count_attempt queued.db))
flush_entry_counts_example = flush_entry_counts (text "bob") 2 entry queued
