-- ===== src/Client/Network/Incoming/Accept.antt =====
-- NetworkManager::handleIncomingMessage: a message whose plaintext is there.
use bit_atm.Prelude.{
  ℕ, ◌≡◌, refl, inl, inr, Bool, true, false, [], ◌∷◌, ◌++◌, if◌then◌else◌, Bool-cases, Str, text,
  str_eq,
}
use bit_atm.Error.{ok}
use bit_atm.Packet.{Packet}
use bit_atm.Client.Throwing.{returns, ◌>>=◌, gets, modify}
use bit_atm.Client.Storage.{MessageRecord, LocalStorage, update}
use bit_atm.Client.Storage.Messages.{
  save_message, save_conversation, is_duplicate, has_message, put_message, put_conversation,
}
use bit_atm.Client.Storage.Ready.{
  IsReady, query_lem, query-IsReady, update_twice-IsReady, disk-update_twice,
}
use bit_atm.Client.Storage.Cache.{has_message-put_message}
use bit_atm.Client.Map.{insert, value}
use bit_atm.Client.Network.{NetworkManager, message_decrypted, stored, store, emit}
use bit_atm.Client.Network.Messages.{persist_message}
use bit_atm.Client.Network.Incoming.{accept}
use bit_atm.Client.Network.Incoming.Unlock.{at}

-- What the user and the cache have of messages.
abbrev pub Same : Str → NetworkManager → NetworkManager → Type 0
Same file n m =
    (m.signals ≡ n.signals)
    × (m.unread_timestamps ≡ n.unread_timestamps)
    × (m.storage.disk file ≡ n.storage.disk file)

module _ (file : Str) (p : Packet) (ts d : Str) where
  abbrev pub Known : NetworkManager → Type 0
  Known n = has_message p.from p.from ts (n.storage.disk file) ≡ true

  pub accept-Known :
      (n : NetworkManager)
      → IsReady file n.storage
      → Known n
      → IsReady file (accept p ts d n).1.storage × Same file n (accept p ts d n).1
  unfolding accept ◌>>=◌ gets stored is_duplicate returns
  accept-Known n r k = elim (Bool-cases (str_eq p.from n.current_username)) [
    | inl f ↦ rw f (r, (refl, refl, refl))
    | inr f ↦
        rw (f, query_lem file (has_message p.from p.from ts) n.storage r, k)
          (query-IsReady file (has_message p.from p.from ts) n.storage r, (refl, refl, refl))
  ]

  pub row : MessageRecord
  row = record {
    peer = p.from;
    sender = p.from;
    content = d;
    timestamp = ts;
    is_outgoing = false;
    status = text "sent";
  }

  saved-has_message :
      (s : LocalStorage)
      → IsReady file s
      → has_message p.from p.from ts
          ((update (put_conversation p.from d ts) (update (put_message row) s)).disk file)
        ≡ true
  unfolding row put_conversation has_message
  saved-has_message s r =
      rw (disk-update_twice file (put_message row) (put_conversation p.from d ts) s r)
        (has_message-put_message row (s.disk file))

  -- After an accepted message its key is there, the database ready and the user the same.
  pub accept_new :
      (n : NetworkManager)
      → IsReady file n.storage
      → str_eq p.from n.current_username ≡ false
      → has_message p.from p.from ts (n.storage.disk file) ≡ false
      → Known (accept p ts d n).1 × IsReady file (accept p ts d n).1.storage
  unfolding accept ◌>>=◌ gets stored is_duplicate returns store emit modify persist_message row
      save_message save_conversation
  accept_new n r f k =
      rw (f, query_lem file (has_message p.from p.from ts) n.storage r, k)
        (
          saved-has_message _ (query-IsReady file (has_message p.from p.from ts) n.storage r),
          update_twice-IsReady file (put_message row) (put_conversation p.from d ts) _
              (query-IsReady file (has_message p.from p.from ts) n.storage r),
        )

  pub known_before : NetworkManager → Bool
  known_before n = has_message p.from p.from ts (n.storage.disk file)

  -- From n to m the message is shown, counted for acknowledgement and stored with its conversation,
  -- unless its key was there, when nothing changes.
  pub record Taken (n m : NetworkManager) : Type 0 where
    pub shown :
        m.signals
        ≡ (if known_before n then n.signals else message_decrypted p.from d ts ∷ n.signals)
    pub counted : m.unread_timestamps ≡ (
        if known_before n
        then n.unread_timestamps
        else insert p.from (value p.from n.unread_timestamps ++ ts ∷ []) n.unread_timestamps)
    pub kept : m.storage.disk file ≡ (
        if known_before n
        then n.storage.disk file
        else put_conversation p.from d ts (put_message row (n.storage.disk file)))

  pub accept-Taken :
      (n : NetworkManager)
      → IsReady file n.storage
      → str_eq p.from n.current_username ≡ false
      → Taken n (accept p ts d n).1
  unfolding known_before accept ◌>>=◌ gets stored is_duplicate returns store emit modify
      persist_message row save_message save_conversation
  accept-Taken n r f = elim (Bool-cases (has_message p.from p.from ts (n.storage.disk file))) [
    | inl k ↦
        rw (f, query_lem file (has_message p.from p.from ts) n.storage r, k)
          (record { shown = rw k; counted = rw k; kept = rw k })
    | inr k ↦
        rw (f, query_lem file (has_message p.from p.from ts) n.storage r, k)
          (record {
            shown = rw k;
            counted = rw k;
            kept = rw k (
                disk-update_twice file (put_message row) (put_conversation p.from d ts) _
                  (query-IsReady file (has_message p.from p.from ts) n.storage r));
          })
  ]

  pub Taken-at : (t : ℕ) (n m : NetworkManager) → Taken (at t n) m → Taken n m
  unfolding known_before
  Taken-at t n m h = record { shown = h.shown; counted = h.counted; kept = h.kept }

  -- The user, the key and the libraries.
  abbrev pub Self : NetworkManager → NetworkManager → Type 0
  Self n m =
      (m.env ≡ n.env)
      × (m.own_priv_key ≡ n.own_priv_key)
      × (m.current_username ≡ n.current_username)

  pub accept-Self :
      (n : NetworkManager)
      → IsReady file n.storage
      → ((accept p ts d n).0 ≡ ok tt) × Self n (accept p ts d n).1
  unfolding accept ◌>>=◌ gets stored is_duplicate returns store emit modify persist_message
  accept-Self n r = elim (Bool-cases (str_eq p.from n.current_username)) [
    | inl f ↦ rw f (refl, (refl, refl, refl))
    | inr f ↦ elim (Bool-cases (has_message p.from p.from ts (n.storage.disk file))) [
      | inl k ↦
          rw (f, query_lem file (has_message p.from p.from ts) n.storage r, k)
            (refl, (refl, refl, refl))
      | inr k ↦
          rw (f, query_lem file (has_message p.from p.from ts) n.storage r, k)
            (refl, (refl, refl, refl))
    ]
  ]
