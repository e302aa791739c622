-- ===== src/Client/Network/Invites/Waiting.antt =====
-- NetworkManager: what the packets and messages of other groups do to those that wait for the key of
-- a group that is there.
use bit_atm.Prelude.{
  ℕ, ◌≡◌, ap, ◌∙◌, inl, inr, true, false, List, [], ◌∷◌, ◌++◌, arith, Bool-cases, any, is_empty,
  Str, str_eq, str_eq→≡,
}
use bit_atm.Error.{Result}
use bit_atm.Packet.{Packet, blank, group_key_exchange}
use bit_atm.Client.Map.{Map, insert, lookup, contains, value, or_empty}
use bit_atm.Client.Throwing.{◌>>=◌, modify}
use bit_atm.Client.Throwing.Keeps.{
  Keeps, Keeps-modify, Keeps-returns, Keeps-gets, Keeps-if, Keeps-bind, keeping_rules,
}
use bit_atm.Client.Crypto.{OpenSsl, Crypto}
use bit_atm.Client.Storage.{LocalStorage}
use bit_atm.Client.Storage.Groups
use bit_atm.Client.Network.{
  NetworkManager, Signal, Request, tuck, crypt, stored, store, utc_now, emit, request, fail_with,
}
use bit_atm.Client.Network.Packets.{send_packet, send_as_user, request_group_key}
use bit_atm.Client.Network.Messages.{or_now}
use bit_atm.Client.Network.Incoming.{packet_time}
use bit_atm.Client.Network.GroupKeys.{encrypt_for_group}
use bit_atm.Client.Network.GroupMessages.{buffer_packet, open_group_message, with_stored_key}

contains-insert :
    {V : Type 0} (g k : Str) (v : V) (m : Map V)
    → contains g m ≡ true
    → contains g (insert k v m) ≡ true
unfolding contains insert
contains-insert g k v [] h = ground arith
contains-insert g k v ((j, w) ∷ m) h = ground (arith, contains-insert g k v m, str_eq→≡ j k)

lookup-insert :
    {V : Type 0} (g k : Str) (v : V) (m : Map V)
    → str_eq k g ≡ false
    → lookup g (insert k v m) ≡ lookup g m
unfolding lookup insert
lookup-insert g k v [] h = rw h
lookup-insert g k v ((j, w) ∷ m) h = elim (Bool-cases (str_eq j k)) [
  | inl e ↦ rw (e, str_eq→≡ j k e, h)
  | inr e ↦ ground (arith, lookup-insert g k v m h)
]

-- The key of the group is there, no packet of it waits, its key is not asked for, and the messages
-- that wait have the property.
abbrev pub Waits : Str → (Map (List (Str × Str)) → Type 0) → NetworkManager → Type 0
Waits g R n =
    (contains g n.group_keys ≡ true)
    × (value g n.pending_group_packets ≡ [])
    × (any (λ h. str_eq h g) n.pending_group_key_requests ≡ false)
    × R n.pending_group_sends

module _ (g : Str) (R : Map (List (Str × Str)) → Type 0) where
  ticked :
      {A : Type 0} (n : NetworkManager) (r : Result A × ℕ)
      → Waits g R n
      → Waits g R (tuck (λ t. record n { tick = t }) r).1
  ticked n (a, t) h = h

  crypt-Keeps : {A : Type 0} (f : OpenSsl → Crypto A) → Keeps (Waits g R) (crypt f)
  unfolding crypt
  crypt-Keeps f = record { at = λ n h. ticked n (f n.env.ssl n.tick) h }

  stored-Keeps : {A : Type 0} (f : LocalStorage → A × LocalStorage) → Keeps (Waits g R) (stored f)
  unfolding stored
  stored-Keeps f = record { at = λ n h. h }

  store-Keeps : (f : LocalStorage → LocalStorage) → Keeps (Waits g R) (store f)
  unfolding store
  store-Keeps f = record { at = λ n h. h }

  emit-Keeps : (e : Signal) → Keeps (Waits g R) (emit e)
  unfolding emit
  emit-Keeps e = record { at = λ n h. h }

  request-Keeps : (r : Request) → Keeps (Waits g R) (request r)
  unfolding request
  request-Keeps r = record { at = λ n h. h }

  pub fail_with-Keeps : (m : Str) → Keeps (Waits g R) (fail_with m)
  unfolding fail_with ◌>>=◌ modify emit
  fail_with-Keeps m = record { at = λ n h. h }

  send_packet-Keeps : (p : Packet) → Keeps (Waits g R) (send_packet p)
  unfolding send_packet
  send_packet-Keeps p = search (keeping_rules, request-Keeps, fail_with-Keeps)

  utc_now-Keeps : Keeps (Waits g R) utc_now
  unfolding utc_now
  utc_now-Keeps = record { at = λ n h. h }

  unread-Keeps :
      (f : NetworkManager → Map (List Str))
      → Keeps (Waits g R) (modify (λ n. record n { unread_timestamps = f n }))
  unread-Keeps f = Keeps-modify _ (λ n h. h)

  pub open_group_message-Keeps :
      (p : Packet) (ts k : Str) → Keeps (Waits g R) (open_group_message p ts k)
  unfolding open_group_message
  open_group_message-Keeps p ts k =
      search
        (
          keeping_rules, crypt-Keeps, store-Keeps, stored-Keeps, emit-Keeps, send_packet-Keeps,
          unread-Keeps,
        )
        depth 30

  pub encrypt_for_group-Keeps : (h m ts : Str) → Keeps (Waits g R) (encrypt_for_group h m ts)
  unfolding encrypt_for_group or_now
  encrypt_for_group-Keeps h m ts =
      search (keeping_rules, crypt-Keeps, store-Keeps, send_packet-Keeps, utc_now-Keeps) depth 20

  asking-Keeps :
      (k : Str)
      → str_eq k g ≡ false
      → Keeps
          (Waits g R)
          (modify (λ n. record n { pending_group_key_requests = k ∷ n.pending_group_key_requests }))
  asking-Keeps k h =
      Keeps-modify _
        (λ n w. let (key, packets, asked, sends) = w in (key, packets, rw (h, asked), sends))

  send_as_user-Keeps : (f : Str → Packet) → Keeps (Waits g R) (send_as_user f)
  unfolding send_as_user
  send_as_user-Keeps f = search (keeping_rules, send_packet-Keeps)

  buffering-Keeps :
      (k : Str) (f : NetworkManager → List Packet)
      → str_eq k g ≡ false
      → Keeps (Waits g R) (
          modify (λ n. record n { pending_group_packets = insert k (f n) n.pending_group_packets }))
  unfolding value
  buffering-Keeps k f h = Keeps-modify _ (λ n w.
      let (key, packets, asked, sends) = w in
      (
        key,
        ap or_empty (lookup-insert g k (f n) n.pending_group_packets h) ∙ packets,
        asked,
        sends,
      ))

  request_group_key-Keeps : (k : Str) → str_eq k g ≡ false → Keeps (Waits g R) (request_group_key k)
  unfolding request_group_key
  request_group_key-Keeps k h = Keeps-bind _ _ (Keeps-gets _) (λ asked.
      Keeps-if asked _ _ (Keeps-returns tt) (
        Keeps-bind _ _ (asking-Keeps k h) (λ u.
          send_as_user-Keeps (λ user. record (blank group_key_exchange) { from = user; to = k }))))

  buffer_packet-Keeps : (p : Packet) → str_eq p.to g ≡ false → Keeps (Waits g R) (buffer_packet p)
  unfolding buffer_packet
  buffer_packet-Keeps p h =
      Keeps-bind _ _ (buffering-Keeps p.to (λ n. value p.to n.pending_group_packets ++ p ∷ []) h)
        (λ u. request_group_key-Keeps p.to h)

  keyed-Keeps :
      (k v : Str)
      → Keeps (Waits g R) (modify (λ n. record n { group_keys = insert k v n.group_keys }))
  keyed-Keeps k v = Keeps-modify _ (λ n w.
      let (key, packets, asked, sends) = w in
      (contains-insert g k v n.group_keys key, packets, asked, sends))

  pub with_stored_key-Keeps :
      (p : Packet) (ts : Str) → str_eq p.to g ≡ false → Keeps (Waits g R) (with_stored_key p ts)
  unfolding with_stored_key
  with_stored_key-Keeps p ts h = Keeps-bind _ _ (stored-Keeps (Groups.load_group_key p.to)) (λ kept.
      Keeps-bind _ _ (Keeps-gets (λ n. n.env.ssl.from_base64 kept)) (λ aes_key.
        Keeps-if (is_empty kept) _ _ (buffer_packet-Keeps p h)
          (Keeps-bind _ _ (keyed-Keeps p.to aes_key) (λ u. open_group_message-Keeps p ts aes_key))))

  packet_time-Keeps : (p : Packet) → Keeps (Waits g R) (packet_time p)
  unfolding packet_time
  packet_time-Keeps p = search (keeping_rules, utc_now-Keeps)

  -- A group whose key is missing is another one.
  pub other_group :
      (k : Str) (keys : Map Str)
      → contains g keys ≡ true
      → contains k keys ≡ false
      → str_eq k g ≡ false
  other_group k keys h l = elim (Bool-cases (str_eq k g)) [
    | inl e ↦ ground (arith, ap (λ x. contains x keys) (str_eq→≡ k g e))
    | inr e ↦ e
  ]
