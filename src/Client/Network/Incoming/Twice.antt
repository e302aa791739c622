-- ===== src/Client/Network/Incoming/Twice.antt =====
-- NetworkManager::handleIncomingMessage on a message that comes twice.
use bit_atm.Prelude.{ℕ, ◌≡◌, ap, ◌∙◌, inl, inr, false, Bool-cases, is_empty, Str, text, str_eq}
use bit_atm.Error.{ok}
use bit_atm.Packet.{Packet}
use bit_atm.Client.Throwing.{returns, ◌>>=◌, gets, try_catch}
use bit_atm.Client.Date.{canonical}
use bit_atm.Client.Storage.Messages.{has_message}
use bit_atm.Client.Storage.Ready.{IsReady}
use bit_atm.Client.Network.{NetworkManager}
use bit_atm.Client.Network.Incoming.{
  unlock, accept, recipient_part, packet_time, receive, handle_incoming_message,
}
use bit_atm.Client.Network.Incoming.Accept.{
  Same, Known, Taken, accept-Known, accept-Taken, Taken-at, accept_new, accept-Self,
}
use bit_atm.Client.Network.Incoming.Unlock.{at, unlock_tick, next_lem, kept, unlock_same}

module _ (p : Packet) (ts d : Str) (n : NetworkManager) where
  receive_lem :
      (unlock (recipient_part p.key) p.body n).0 ≡ ok d
      → receive p ts n ≡ accept p ts d (at (unlock (recipient_part p.key) p.body n).1.tick n)
  unfolding receive ◌>>=◌
  receive_lem u =
      next_lem (accept p ts) d _ u
      ∙ ap (accept p ts d) (unlock_tick (recipient_part p.key) p.body n)

-- A client that can open the packet: its database is open and works, it has a private key, and the
-- packet is of someone else.
pub record Opens (file : Str) (p : Packet) (d : Str) (n : NetworkManager) : Type 0 where
  pub ready : IsReady file n.storage
  pub other : str_eq p.from n.current_username ≡ false
  pub has_key : is_empty n.own_priv_key ≡ false
  pub unlocks : (t : ℕ) → (unlock (recipient_part p.key) p.body (at t n)).0 ≡ ok d

module _ (file : Str) (p : Packet) (d : Str) where
  time : NetworkManager → Str
  time n = canonical n.env.dates p.timestamp

  first : NetworkManager → NetworkManager
  first n = at (unlock (recipient_part p.key) p.body n).1.tick n

  handled :
      (n : NetworkManager)
      → Opens file p d n
      → is_empty p.timestamp ≡ false
      → str_eq p.error_msg (text "1") ≡ false
      → (handle_incoming_message p n).1 ≡ (accept p (time n) d (first n)).1
  unfolding handle_incoming_message ◌>>=◌ gets packet_time try_catch returns time first
  handled n o ht he =
      rw (ht, he, o.has_key)
        (kept _ tt (receive p (canonical n.env.dates p.timestamp) n) (
            ap (λ r. r.0) (receive_lem p _ d n (o.unlocks n.tick))
            ∙ (accept-Self file p _ d (first n) o.ready).0)
          ∙ ap (λ r. r.1) (receive_lem p _ d n (o.unlocks n.tick)))

  still-Known :
      (ts : Str) (n m : NetworkManager) → Same file n m → Known file p ts d n → Known file p ts d m
  still-Known ts n m same k = ap (has_message p.from p.from ts) same.2 ∙ k

  accept-Opens :
      (n : NetworkManager)
      → Opens file p d n
      → IsReady file (accept p (time n) d (first n)).1.storage
      → Opens file p d (accept p (time n) d (first n)).1
  unfolding first
  accept-Opens n o ready =
      let (ran, self) = accept-Self file p (time n) d (first n) o.ready in
      let (env, key, user) = self in
      record {
        ready = ready;
        other = ap (str_eq p.from) user ∙ o.other;
        has_key = ap is_empty key ∙ o.has_key;
        unlocks = λ t.
            unlock_same (recipient_part p.key) p.body t (accept p (time n) d (first n)).1 n env key
            ∙ o.unlocks t;
      }

  same_time :
      (n : NetworkManager) → Opens file p d n → time (accept p (time n) d (first n)).1 ≡ time n
  unfolding first time
  same_time n o =
      ap (λ env. canonical env.dates p.timestamp)
        (accept-Self file p (time n) d (first n) o.ready).1.0

  -- The state in which a message was accepted still opens it, and knows it.
  accepted :
      (n : NetworkManager)
      → Opens file p d n
      → Opens file p d (accept p (time n) d (first n)).1
        × Known file p (time n) d (accept p (time n) d (first n)).1
  unfolding first
  accepted n o = elim (Bool-cases (has_message p.from p.from (time n) (n.storage.disk file))) [
    | inl k ↦
        let (ready, same) = accept-Known file p (time n) d (first n) o.ready k in
        (
          accept-Opens n o ready,
          still-Known (time n) (first n) (accept p (time n) d (first n)).1 same k,
        )
    | inr k ↦
        let (there, ready) = accept_new file p (time n) d (first n) o.ready o.other k in
        (accept-Opens n o ready, there)
  ]

  -- If a client whose database is open and works can open a MESSAGE of someone else that has a
  -- timestamp and is no echo, then handling it shows the plaintext, counts the timestamp for
  -- acknowledgement and stores message and conversation, unless there is a message of the sender with
  -- the timestamp; and handling it a second time, at once, changes nothing of the signals, of the
  -- timestamps and of the database.
  pub handle_incoming_message_twice :
      (n : NetworkManager)
      → Opens file p d n
      → is_empty p.timestamp ≡ false
      → str_eq p.error_msg (text "1") ≡ false
      → Taken file p (canonical n.env.dates p.timestamp) d n (handle_incoming_message p n).1
        × Same file
            (handle_incoming_message p n).1
            (handle_incoming_message p (handle_incoming_message p n).1).1
  unfolding first time
  handle_incoming_message_twice n o ht he =
      let later = (accept p (time n) d (first n)).1 in
      let (o', k) = accepted n o in
      rw (handled n o ht he, handled later o' ht he)
        (
          Taken-at file p (time n) d (unlock (recipient_part p.key) p.body n).1.tick n later
              (accept-Taken file p (time n) d (first n) o.ready o.other),
          (accept-Known file p (time later) d (first later) o'.ready (
              ap (λ ts. has_message p.from p.from ts (later.storage.disk file)) (same_time n o)
              ∙ k)).1,
        )
