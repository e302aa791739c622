-- ===== src/Tests/Network.antt =====
-- The client's network manager.
use bit_atm.Prelude.{
  ℕ, ◌+◌, ◌-◌, ◌≡◌, refl, true, false, [], ◌∷◌, ◌++◌, arith, ◌==◌, Str, text, str_eq, pos,
}
use bit_atm.Error.{ok}
use bit_atm.Packet.{Packet, blank, message, group_message, group_key_exchange}
use bit_atm.Wire.{deserialize}
use bit_atm.Wire.RoundTrip.{Lacks}
use bit_atm.Handler.Message.{split_key}
use bit_atm.Client.Throwing.{◌>>=◌, gets, returns}
use bit_atm.Client.Crypto.{OpenSsl, calls, decrypt_rsa, decrypt}
use bit_atm.Client.Crypto.RoundTrip.{IsAead, Works}
use bit_atm.Client.Crypto.KeyPair.{IsKeyPair}
use bit_atm.Client.Date.{canonical}
use bit_atm.Client.Network.{NetworkManager, crypt, text_message}
use bit_atm.Client.Network.Packets.{request_group_key}
use bit_atm.Client.Network.Packets.Asked.{request_group_key_again}
use bit_atm.Client.Network.Messages.{encrypt_and_send}
use bit_atm.Client.Network.Messages.EndToEnd.{IsChannel, end_to_end}
use bit_atm.Client.Network.Incoming.{unlock, recipient_part, handle_incoming_message}
use bit_atm.Client.Network.Incoming.Accept.{Same, Taken}
use bit_atm.Client.Network.Incoming.Twice.{Opens, handle_incoming_message_twice}
use bit_atm.Client.Network.Invites.{handle_group_invite, handle_group_key_exchange}
use bit_atm.Client.Network.Invites.Arrived.{Settled, key_arrives-Settled}
use bit_atm.Tests.Client.{toy, dates, zeros, zeros_size, length-zeros}
use bit_atm.Tests.Storage.{store}

-- An encoding without the separators of the wire.
shift : Str → Str
shift [] = []
shift (c ∷ s) = (c + 200) ∷ shift s

unshift : Str → Str
unshift [] = []
unshift (c ∷ s) = (c - 200) ∷ unshift s

unshift-shift : (s : Str) → unshift (shift s) ≡ s
unfolding shift unshift
unshift-shift [] = refl
unshift-shift (c ∷ s) = ground (arith, unshift-shift s)

shift-Lacks : (d : ℕ) (s : Str) → ((c : ℕ) → (c + 200 == d) ≡ false) → Lacks d (shift s)
unfolding shift
shift-Lacks d [] k = tt
shift-Lacks d (c ∷ s) k = (k c, shift-Lacks d s k)

abbrev ssl : OpenSsl
ssl = record toy { to_base64 = shift; from_base64 = unshift }

ssl-IsAead : IsAead ssl
ssl-IsAead = record {
  opens = λ k iv d. refl;
  iv_length = λ t n iv h. zeros_size n iv h;
  tag_length = λ k iv d. length-zeros 16;
  base64 = unshift-shift;
}

ssl-Works : Works ssl
ssl-Works = record { prepares = λ t. refl; random = λ t n. (zeros n, refl) }

ssl-IsKeyPair : (public private : Str) → IsKeyPair ssl public private
ssl-IsKeyPair public private = record {
  reads_public = refl;
  reads_private = refl;
  wraps = λ t d h. (d, refl, refl);
}

abbrev client : Str → NetworkManager
client user = record {
  env = record { ssl = ssl; dates = dates; utc_now = λ t. text "now"; reads_iso_date = λ s. true };
  tick = 0;
  is_connected = true;
  pinging = true;
  requests = [];
  signals = [];
  storage = store;
  settings = [];
  server_url = text "wss://x";
  last_message = [];
  current_username = user;
  has_error = false;
  own_priv_key = text "priv";
  own_pub_key = text "pub";
  peer_keys = (text "bob", text "pub") ∷ [];
  pending_messages = [];
  pending_register = false;
  intentionally_connecting = false;
  unread_timestamps = [];
  pending_group_member_adds = [];
  pending_group_key_requests = [];
  pending_group_packets = [];
  pending_group_sends = [];
  pending_group_creations = [];
  group_keys = [];
  group_names = [];
}

far : (c : ℕ) → (c + 200 == 124) ≡ false
far c = ground arith

near : (c : ℕ) → (c + 200 == 59) ≡ false
near c = ground arith

client-IsChannel : IsChannel (client (text "a")) (client (text "b")) (text "b")
unfolding text
client-IsChannel = record {
  aead = ssl-IsAead;
  works = ssl-Works;
  recipient = ssl-IsKeyPair _ _;
  sender = ssl-IsKeyPair _ _;
  no_bar = λ x. shift-Lacks 124 x far;
  no_semicolon = λ x. shift-Lacks 59 x near;
  is_connected = refl;
  from_bar = (refl, tt);
  to_bar = (refl, tt);
}

end_to_end_example :
    (f : Str) × (p : Packet) × ((encrypt_and_send
        (text "b")
        (text "hi")
        (text "t")
        (client (text "a"))).1.requests
      ≡ text_message f ∷ [])
    × (deserialize (pos 0) f ≡ ok p)
    × ((unlock (split_key p.key).0 p.body (client (text "b"))).0 ≡ ok (text "hi"))
unfolding text str_eq
end_to_end_example =
    end_to_end (pos 0) (client (text "a")) (client (text "b")) (text "b") (text "hi") (text "t")
      client-IsChannel refl refl (refl, tt) refl

request_group_key_again_example :
    request_group_key (text "7") (request_group_key (text "7") (client (text "a"))).1
    ≡ (ok tt, (request_group_key (text "7") (client (text "a"))).1)
request_group_key_again_example = request_group_key_again (text "7") (client (text "a"))

-- The envelope of a message whose wrapped key and ciphertext are the texts themselves.
abbrev sealed : Str
sealed = zeros 12 ++ text "hi" ++ zeros 16

abbrev envelope : Packet
envelope = record (blank message) {
  from = text "b";
  to = text "a";
  body = shift sealed;
  key = shift (zeros 32);
  timestamp = text "t";
}

abbrev alice : NetworkManager
alice = client (text "a")

client-Opens : Opens (text "alice") envelope (text "hi") alice
unfolding text str_eq unlock recipient_part ◌>>=◌ gets crypt decrypt_rsa decrypt zeros shift unshift
    returns calls
client-Opens = record {
  ready = record { opened = refl; works = λ n. refl };
  other = refl;
  has_key = refl;
  unlocks = λ t. refl;
}

handle_incoming_message_twice_example :
    Taken
      (text "alice")
      envelope
      (canonical dates envelope.timestamp)
      (text "hi")
      alice
      (handle_incoming_message envelope alice).1
    × Same
        (text "alice")
        (handle_incoming_message envelope alice).1
        (handle_incoming_message envelope (handle_incoming_message envelope alice).1).1
unfolding text str_eq
handle_incoming_message_twice_example =
    handle_incoming_message_twice (text "alice") envelope (text "hi") alice client-Opens refl refl

-- A packet of group 7 and a message to it wait for the key.
abbrev waiting : NetworkManager
waiting = record alice {
  pending_group_key_requests = text "7" ∷ [];
  pending_group_packets = (text "7", record (blank group_message) { to = text "7" } ∷ []) ∷ [];
  pending_group_sends = (text "7", (text "hi", text "t") ∷ []) ∷ [];
}

abbrev key_packet : Packet
key_packet = record (blank group_key_exchange) {
  to = text "7";
  body = text "7";
  key = shift (zeros 32);
}

key_arrives-Settled_example :
    Settled (text "7") (handle_group_key_exchange key_packet waiting).1
    × Settled (text "7") (handle_group_invite key_packet waiting).1
unfolding text decrypt_rsa ◌>>=◌ returns calls shift unshift zeros
key_arrives-Settled_example =
    key_arrives-Settled key_packet (zeros 32) waiting refl (tt, tt) (tt, tt)
