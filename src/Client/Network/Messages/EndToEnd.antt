-- ===== src/Client/Network/Messages/EndToEnd.antt =====
-- A message from the sender's client over the server's parser to the recipient's client.
use bit_atm.Prelude.{
  ℕ, ◌≡◌, ◌≤◌, refl, ap, ◌∙◌, true, false, some, [], ◌∷◌, ◌++◌, arith, length, Str, ℤ, is_empty,
  str_eq,
}
use bit_atm.Error.{Error, Result, ok}
use bit_atm.Packet.{Packet}
use bit_atm.Wire.{deserialize}
use bit_atm.Wire.RoundTrip.{Lacks, IsCarried, deserialize-serialize}
use bit_atm.Handler.Message.{split_key}
use bit_atm.Handler.Message.Key.{split_key_lem}
use bit_atm.Client.Throwing.{Throwing, next, returns, ◌>>=◌, gets, try_catch, caught}
use bit_atm.Client.Crypto.{generate_key, encrypt, decrypt, encrypt_rsa, decrypt_rsa}
use bit_atm.Client.Crypto.RoundTrip.{IsAead, Works, decrypt-encrypt}
use bit_atm.Client.Crypto.KeyPair.{IsKeyPair, key_lem, wrap_lem, unwrap_lem, body_lem}
use bit_atm.Client.Map.{value}
use bit_atm.Client.Network.{NetworkManager, text_message, crypt}
use bit_atm.Client.Network.Packets.{frame, send_packet}
use bit_atm.Client.Network.Packets.Frames.{frame-serialize}
use bit_atm.Client.Network.Messages.{
  encrypt_for, encrypt_and_send, message_packet, or_now, persist_message,
}
use bit_atm.Client.Network.Incoming.{unlock}

module _ {S A B : Type 0} (f : A → Throwing S B) (a : A) where
  next_lem : (r : Result A × S) → r.0 ≡ ok a → next f r ≡ f a r.1
  next_lem (r, s) e = rw e

-- The steps at which the calls of encryptAndSend are made.
module _ (n : NetworkManager) (to d key : Str) where
  abbrev after_key : ℕ
  after_key = (generate_key n.env.ssl n.tick).1

  abbrev after_body : ℕ
  after_body = (encrypt n.env.ssl d key after_key).1

  abbrev after_wrap : ℕ
  after_wrap = (encrypt_rsa n.env.ssl key (value to n.peer_keys) after_body).1

abbrev message_of : NetworkManager → Str → Str → Str → Str → Str → Packet
message_of n to ts body w w' =
    message_packet n.current_username to body (n.env.ssl.to_base64 w) (n.env.ssl.to_base64 w') ts

module _ (n : NetworkManager) (to d ts key body w w' : Str) where
  run :
      (generate_key n.env.ssl n.tick).0 ≡ ok key
      → (encrypt n.env.ssl d key (after_key n to d key)).0 ≡ ok body
      → (encrypt_rsa n.env.ssl key (value to n.peer_keys) (after_body n to d key)).0 ≡ ok w
      → (encrypt_rsa n.env.ssl key n.own_pub_key (after_wrap n to d key)).0 ≡ ok w'
      → is_empty ts ≡ false
      → n.is_connected ≡ true
      → ((encrypt_for to d ts n).0 ≡ ok tt)
        × ((encrypt_for to d ts n).1.requests
            ≡ text_message (frame (message_of n to ts body w w')) ∷ n.requests)
  unfolding encrypt_for ◌>>=◌ gets crypt or_now returns send_packet persist_message
  run h1 h2 h3 h4 he up = rw (h1, h2, h3, h4, he, up) (refl, refl)

unlock_lem :
    (m : NetworkManager) (d key body w : Str)
    → Works m.env.ssl
    → m.env.ssl.from_base64 (m.env.ssl.to_base64 w) ≡ w
    → ((t : ℕ) → (decrypt_rsa m.env.ssl w m.own_priv_key t).0 ≡ ok key)
    → ((t : ℕ) → (decrypt m.env.ssl body key t).0 ≡ ok d)
    → (unlock (m.env.ssl.to_base64 w) body m).0 ≡ ok d
unfolding unlock ◌>>=◌ gets crypt
unlock_lem m d key body w works e h1 h2 = rw (e, h1 m.tick, h2)

Lacks-append : (s : ℕ) (x y : Str) → Lacks s x → Lacks s y → Lacks s (x ++ y)
Lacks-append s [] y hx hy = hy
Lacks-append s (c ∷ x) y (h, hx) hy = (h, Lacks-append s x y hx hy)

-- What a sender n and a recipient m rely on: OpenSSL, the keys that they have of each other, and
-- base64 texts without the separators of the wire.
pub record IsChannel (n m : NetworkManager) (to : Str) : Type 0 where
  pub aead : IsAead n.env.ssl
  pub works : Works n.env.ssl
  pub recipient : IsKeyPair n.env.ssl (value to n.peer_keys) m.own_priv_key
  pub sender : IsKeyPair n.env.ssl n.own_pub_key n.own_priv_key
  pub no_bar : (x : Str) → Lacks b'|' (n.env.ssl.to_base64 x)
  pub no_semicolon : (x : Str) → Lacks b';' (n.env.ssl.to_base64 x)
  pub is_connected : n.is_connected ≡ true
  pub from_bar : Lacks b'|' n.current_username
  pub to_bar : Lacks b'|' to

short_key : (n : ℕ) → n ≡ 32 → n ≤ 190
short_key n h = omega (arith, h)

message-IsCarried :
    (n m : NetworkManager) (to ts x w w' : Str)
    → IsChannel n m to
    → Lacks b'|' ts
    → IsCarried (message_of n to ts (n.env.ssl.to_base64 x) w w')
unfolding message_packet
message-IsCarried n m to ts x w w' ch h = record {
  version = refl;
  from = ch.from_bar;
  to = ch.to_bar;
  body = ch.no_bar x;
  key = Lacks-append b'|' (n.env.ssl.to_base64 w) _ (ch.no_bar w) (refl, ch.no_bar w');
  timestamp = h;
  error_msg = tt;
}

kept :
    {S A : Type 0} (h : Error → Throwing S A) (a : A) (r : Result A × S)
    → r.0 ≡ ok a
    → (caught h r).1 ≡ r.1
kept h a (r, s) e = rw e

body-IsCarried :
    (n m : NetworkManager) (to ts body x w w' : Str)
    → IsChannel n m to
    → Lacks b'|' ts
    → body ≡ n.env.ssl.to_base64 x
    → IsCarried (message_of n to ts body w w')
body-IsCarried n m to ts body x w w' ch h e = rw e (message-IsCarried n m to ts x w w' ch h)

-- The recipient's half of the key field opens the body.
opened :
    (n m : NetworkManager) (to d ts key body w w' : Str)
    → IsChannel n m to
    → n.env.ssl.rsa_unwrap m.own_priv_key w ≡ some key
    → ((t : ℕ) → (decrypt n.env.ssl body key t).0 ≡ ok d)
    → (unlock (split_key (message_of n to ts body w w').key).0 body (record m { env = n.env })).0
      ≡ ok d
unfolding message_packet
opened n m to d ts key body w w' ch u back =
    rw (split_key_lem (n.env.ssl.to_base64 w) (n.env.ssl.to_base64 w') (ch.no_semicolon w)).0 (
      unlock_lem (record m { env = n.env }) d key body w ch.works (ch.aead.base64 w)
        (λ t. unwrap_lem n.env.ssl ch.works _ m.own_priv_key ch.recipient key w t u) back)

-- If a client is connected to the server and it and its peer have key pairs, then encryptAndSend of
-- a message that is UTF-8, to a peer other than the user, with a timestamp without '|', sends one text;
-- the server's parser reads it as a packet; and a client with the same libraries and the peer's
-- private key turns the body and the first half of the packet's key, as the server's handler splits
-- it, back into the message.
pub end_to_end :
    (t0 : ℤ) (n m : NetworkManager) (to d ts : Str)
    → IsChannel n m to
    → str_eq to n.current_username ≡ false
    → is_empty ts ≡ false
    → Lacks b'|' ts
    → n.env.ssl.from_utf8 d ≡ d
    → (f : Str) × (p : Packet) × ((encrypt_and_send to d ts n).1.requests
        ≡ text_message f ∷ n.requests)
      × (deserialize t0 f ≡ ok p)
      × ((unlock (split_key p.key).0 p.body (record m { env = n.env })).0 ≡ ok d)
unfolding encrypt_and_send ◌>>=◌ gets try_catch message_packet
end_to_end t0 n m to d ts ch other he hts hd =
    let (key, h1, size) = key_lem n.env.ssl ch.works n.tick ch.aead in
    let (body, h2, back) =
      decrypt-encrypt n.env.ssl ch.aead ch.works d key (after_key n to d key) size hd in
    let (w, h3, unwraps) =
      wrap_lem n.env.ssl ch.works _ _ ch.recipient key (after_body n to d key)
        (short_key (length key) size) in
    let (w', h4, unwraps') =
      wrap_lem n.env.ssl ch.works _ _ ch.sender key (after_wrap n to d key)
        (short_key (length key) size) in
    let (x, e) = body_lem n.env.ssl d key (after_key n to d key) body h2 in
    let (ran, sent) = run n to d ts key body w w' h1 h2 h3 h4 he ch.is_connected in
    let p = message_of n to ts body w w' in
    (
      frame p,
      p,
      rw other (ap NetworkManager.requests (kept _ tt (encrypt_for to d ts n) ran) ∙ sent),
      rw (frame-serialize p)
          (deserialize-serialize t0 p (body-IsCarried n m to ts body x w w' ch hts e)),
      opened n m to d ts key body w w' ch unwraps back,
    )
