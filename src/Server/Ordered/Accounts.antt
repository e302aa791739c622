-- ===== src/Server/Ordered/Accounts.antt =====
-- Login, registration and the exchange of public keys.
use bit_atm.Prelude.{ℕ, Option, none, some, List, [], ◌∷◌, Str, ℤ}
use bit_atm.Error.{Error, protocol, network, db, crypto, poco, std_error}
use bit_atm.Packet.{Packet}
use bit_atm.Db.{Message, OfflineMessage, ReadReceipt}
use bit_atm.Repo.Users
use bit_atm.Repo.Messages
use bit_atm.Repo.OfflineQueue
use bit_atm.Repo.Sessions
use bit_atm.Action.Keeps.{
  Keeps, keeps_rules, Keeps-set_db, Keeps-execute, Keeps-bind, Keeps-pure, Keeps-throw, Keeps-if,
  Keeps-modify,
}
use bit_atm.Repo.Ordered.{IsOrdered, ordered_rules}
use bit_atm.Repo.Users
use bit_atm.Repo.Messages
use bit_atm.Repo.Sessions
use bit_atm.Repo.OfflineQueue
use bit_atm.Handler.Base.{handle}
use bit_atm.Handler.Password
use bit_atm.Handler.Login
use bit_atm.Handler.Register
use bit_atm.Handler.KeyExchange
use bit_atm.Server.Ordered.Groups.{base_authorize-IsOrdered}

pub key_exchange-IsOrdered :
    (p : Packet) (sid : ℕ) → Keeps IsOrdered (handle KeyExchange.handler p sid)
unfolding KeyExchange.handler KeyExchange.validate KeyExchange.execute_key_exchange
    KeyExchange.upload KeyExchange.answer Users.find_by_username handle
key_exchange-IsOrdered p sid =
    search (keeps_rules, ordered_rules, base_authorize-IsOrdered) depth 20

or_crypto-IsOrdered : (o : Option Str) (m : Str) → Keeps IsOrdered (Password.or_crypto o m)
or_crypto-IsOrdered none m = Keeps-throw _
or_crypto-IsOrdered (some s) m = Keeps-pure s

or_std-IsOrdered : (o : Option Str) → Keeps IsOrdered (Password.or_std o)
or_std-IsOrdered none = Keeps-throw _
or_std-IsOrdered (some s) = Keeps-pure s

derive_verify-IsOrdered : (p s : Str) → Keeps IsOrdered (Password.derive_verify p s)
unfolding Password.derive_verify
derive_verify-IsOrdered p s = search (keeps_rules, or_crypto-IsOrdered) depth 12

derive_hash-IsOrdered : (p s : Str) → Keeps IsOrdered (Password.derive_hash p s)
unfolding Password.derive_hash
derive_hash-IsOrdered p s = search (keeps_rules, or_crypto-IsOrdered) depth 12

random-IsOrdered : (n : ℕ) (m : Str) → Keeps IsOrdered (Password.random n m)
unfolding Password.random
random-IsOrdered n m = search (keeps_rules, or_crypto-IsOrdered) depth 12

verify_parts-IsOrdered :
    (p : Str) (o : Option (Str × Str)) → Keeps IsOrdered (Password.verify_parts p o)
unfolding Password.verify_parts
verify_parts-IsOrdered p none = Keeps-pure _
verify_parts-IsOrdered p (some (s, e)) =
    search (keeps_rules, or_std-IsOrdered, derive_verify-IsOrdered) depth 12

authenticate-IsOrdered : (sid : ℕ) (u t : Str) → Keeps IsOrdered (Login.authenticate sid u t)
unfolding Login.authenticate
authenticate-IsOrdered sid u t = Keeps-modify _ (λ w h. h)

open_session-IsOrdered : (u : Str) (i : ℤ) (sid : ℕ) → Keeps IsOrdered (Login.open_session u i sid)
unfolding Login.open_session Password.login_token Sessions.deactivate_all_for_user
open_session-IsOrdered u i sid =
    search (keeps_rules, ordered_rules, Keeps-execute, random-IsOrdered, authenticate-IsOrdered)
      depth 12

send_stored-IsOrdered :
    (u : Str) (sid : ℕ) (q : OfflineMessage) (o : Option Message)
    → Keeps IsOrdered (Login.send_stored u sid q o)
unfolding Login.send_stored OfflineQueue.mark_delivered
send_stored-IsOrdered u sid q none = Keeps-pure tt
send_stored-IsOrdered u sid q (some m) = search (keeps_rules, Keeps-execute)

after_failure-IsOrdered : (e : Error) → Keeps IsOrdered (Login.after_failure e)
unfolding Login.after_failure
after_failure-IsOrdered (network m) = Keeps-pure _
after_failure-IsOrdered (db m) = Keeps-pure _
after_failure-IsOrdered (protocol m) = Keeps-pure _
after_failure-IsOrdered (crypto m) = Keeps-pure _
after_failure-IsOrdered (poco m) = Keeps-pure _
after_failure-IsOrdered (std_error m) = Keeps-pure _

flush_entry-IsOrdered :
    (u : Str) (sid : ℕ) (q : OfflineMessage) → Keeps IsOrdered (Login.flush_entry u sid q)
unfolding Login.flush_entry OfflineQueue.increment_attempts Messages.find_by_id
flush_entry-IsOrdered u sid q =
    search (keeps_rules, Keeps-execute, send_stored-IsOrdered, after_failure-IsOrdered) depth 12

flush_entries-IsOrdered :
    (u : Str) (sid : ℕ) (qs : List OfflineMessage) → Keeps IsOrdered (Login.flush_entries u sid qs)
unfolding Login.flush_entries
flush_entries-IsOrdered u sid [] = Keeps-pure tt
flush_entries-IsOrdered u sid (q ∷ qs) =
    Keeps-bind _ _ (flush_entry-IsOrdered u sid q)
      (λ go. Keeps-if go _ _ (λ e. flush_entries-IsOrdered u sid qs) (λ e. Keeps-pure tt))

send_receipt-IsOrdered :
    (u : Str) (sid : ℕ) (r : ReadReceipt) → Keeps IsOrdered (Login.send_receipt u sid r)
unfolding Login.send_receipt
send_receipt-IsOrdered u sid r = search (keeps_rules, Keeps-set_db)

pub login-IsOrdered : (p : Packet) (sid : ℕ) → Keeps IsOrdered (handle Login.handler p sid)
unfolding Login.handler Login.validate Login.execute_login Login.flush_offline_read_receipts
    Login.flush_pending_notifications Password.verify_password Users.find_by_username
    Users.update_last_seen OfflineQueue.find_undelivered_by_recipient handle
login-IsOrdered p sid =
    search
      (
        keeps_rules, ordered_rules, Keeps-execute, verify_parts-IsOrdered, open_session-IsOrdered,
        flush_entries-IsOrdered, send_receipt-IsOrdered,
      )
      depth 20

flush_found-IsOrdered :
    (u : Str) (sid : ℕ) (q : OfflineMessage) (o : Option Message)
    → Keeps IsOrdered (Register.flush_found u sid q o)
unfolding Register.flush_found OfflineQueue.mark_delivered
flush_found-IsOrdered u sid q none = Keeps-pure tt
flush_found-IsOrdered u sid q (some m) = search (keeps_rules, Keeps-execute)

pub register-IsOrdered : (p : Packet) (sid : ℕ) → Keeps IsOrdered (handle Register.handler p sid)
unfolding Register.handler Register.validate Register.execute_register Register.flush
    Password.hash_password Password.register_token Users.find_by_username Messages.find_by_id
    OfflineQueue.find_undelivered_by_recipient handle
register-IsOrdered p sid =
    search
      (
        keeps_rules, ordered_rules, random-IsOrdered, derive_hash-IsOrdered, authenticate-IsOrdered,
        flush_found-IsOrdered,
      )
      depth 20
