-- ===== src/Tests/Client.antt =====
-- The client's models and cryptography.
use bit_atm.Prelude.{
  ℕ, zero, suc, ◌+◌, ◌≡◌, ◌≤◌, refl, sym, ap, ◌∙◌, inl, inr, true, false, ◌||◌, Option, none, some,
  [], ◌∷◌, ◌++◌, ◌==◌, if◌then◌else◌, Bool-cases, any, every, length, Str, text, str_eq, is_space,
}
use mathlib.Core.Option
use bit_atm.Error.{ok}
use bit_atm.Client.Chat.{
  ChatModel, cached, append_and_cache, switch_conversation, clear_all, update_status,
}
use bit_atm.Client.Chat.View.{IsShown, view-IsShown}
use bit_atm.Client.Conversations.{
  ConvEntry, ConversationList, add_or_update, add_or_update_group, mark_read, remove, clear,
  set_unread_count,
}
use bit_atm.Client.Conversations.Unread.{IsUniqueList, list-IsUniqueList}
use bit_atm.Client.Conversations.Badges.{unread_of, user_key, group_key, unread_of-mark_read}
use bit_atm.Client.Sql.{key_eq}
use bit_atm.Client.Throwing.{◌>>=◌, returns}
use bit_atm.Client.Crypto.{
  OpenSsl, key_size, iv_size, tag_size, calls, iv_of, cipher_of, tag_of, aes_decrypt, encrypt,
  decrypt,
}
use bit_atm.Client.Crypto.RoundTrip.{IsAead, Works, decrypt-encrypt}
use bit_atm.Client.Crypto.Authentic.{aes_decrypt-Authentic}
use bit_atm.Client.Date.{DateTime, Reading, invalid, zoned, naive, canonical, canonical-replayed}
use bit_atm.Tests.Storage.{store}

abbrev chat : ChatModel
chat = record { entries = []; cache = []; active_peer = text "bob" }

view-IsShown_example :
    IsShown
      (append_and_cache (text "bob") (text "bob") (text "hi") (text "t1") false (text "sent") chat)
    × IsShown (switch_conversation (text "bob") chat)
    × IsShown (clear_all chat)
    × IsShown (update_status (text "bob") (text "t1") (text "seen") true (chat, store)).0
unfolding cached text update_status
view-IsShown_example =
    view-IsShown (text "bob") (text "bob") (text "hi") (text "t1") (text "sent") false true chat
      store refl

abbrev user_entry : ConvEntry
user_entry = record {
  username = text "bob";
  last_message = text "hi";
  timestamp = text "t1";
  is_group = false;
  group_id = [];
  unread_count = 2;
}

abbrev group_entry : ConvEntry
group_entry = record {
  username = text "team";
  last_message = text "hi";
  timestamp = text "t1";
  is_group = true;
  group_id = text "7";
  unread_count = 1;
}

abbrev conversations : ConversationList
conversations = record { entries = user_entry ∷ group_entry ∷ []; storage = store }

list-IsUniqueList_example :
    IsUniqueList (add_or_update (text "7") (text "hi") (text "t2") true conversations)
    × IsUniqueList
        (add_or_update_group (text "7") (text "team") (text "hi") (text "t2") true conversations)
    × IsUniqueList (mark_read (text "7") conversations)
    × IsUniqueList (remove (text "7") conversations)
    × IsUniqueList (clear conversations)
    × IsUniqueList (set_unread_count (text "7") 3 conversations)
unfolding text str_eq
list-IsUniqueList_example =
    list-IsUniqueList (text "7") (text "team") (text "hi") (text "t2") true 3 conversations
      ((refl, tt), (tt, tt))

unread_of-mark_read_example : unread_of (text "bob" ∷ []) (mark_read (text "bob") conversations) ≡ (
    if key_eq (user_key (text "bob")) (text "bob" ∷ [])
      || key_eq (group_key (text "bob")) (text "bob" ∷ [])
    then Option.map (λ n. 0) (unread_of (text "bob" ∷ []) conversations)
    else unread_of (text "bob" ∷ []) conversations)
unfolding text str_eq
unread_of-mark_read_example = unread_of-mark_read (text "bob") (text "bob" ∷ []) conversations refl

unfoldable pub zeros : ℕ → Str
zeros zero = []
zeros (suc n) = 0 ∷ zeros n

pub length-zeros : (n : ℕ) → length (zeros n) ≡ n
unfolding zeros
length-zeros zero = refl
length-zeros (suc n) = rw (length-zeros n)

-- A cipher that leaves the text and a tag of zeros.
abbrev pub toy : OpenSsl
toy = record {
  rand_bytes = λ t n. some (zeros n);
  prepares = λ t. true;
  gcm_cipher = λ k iv d. d;
  gcm_tag = λ k iv d. zeros 16;
  gcm_open = λ k iv c tag. some c;
  rsa_keygen = λ t. some (text "pub", text "priv");
  reads_public = λ p. true;
  reads_private = λ p. true;
  rsa_wrap = λ t k d. some d;
  rsa_unwrap = λ k d. some d;
  to_base64 = λ d. d;
  from_base64 = λ d. d;
  from_utf8 = λ d. d;
}

size_of : Option Str → ℕ
size_of none = 0
size_of (some s) = length s

pub zeros_size : (n : ℕ) (iv : Str) → some (zeros n) ≡ some iv → length iv ≡ n
unfolding size_of
zeros_size n iv h = sym (ap size_of h) ∙ length-zeros n

toy-IsAead : IsAead toy
toy-IsAead = record {
  opens = λ k iv d. refl;
  iv_length = λ t n iv h. zeros_size n iv h;
  tag_length = λ k iv d. length-zeros 16;
  base64 = λ d. refl;
}

toy-Works : Works toy
toy-Works = record { prepares = λ t. refl; random = λ t n. (zeros n, refl) }

decrypt-encrypt_example :
    (c : Str) × ((encrypt toy (text "hi") (zeros 32) 0).0 ≡ ok c)
    × ((u : ℕ) → (decrypt toy c (zeros 32) u).0 ≡ ok (text "hi"))
decrypt-encrypt_example =
    decrypt-encrypt toy toy-IsAead toy-Works (text "hi") (zeros 32) 0 (length-zeros 32) refl

aes_decrypt-Authentic_example :
    (length (zeros 32) ≡ key_size)
    × (iv_size + tag_size ≤ length (zeros 30))
    × (toy.gcm_open
          (zeros 32)
          (iv_of toy (zeros 30))
          (cipher_of toy (zeros 30))
          (tag_of toy (zeros 30))
        ≡ some (zeros 2))
unfolding aes_decrypt zeros ◌>>=◌ returns calls
aes_decrypt-Authentic_example = aes_decrypt-Authentic toy (zeros 30) (zeros 32) (zeros 2) 0 refl

-- The first byte of a text is its time.
abbrev pub read_text : Str → Reading
read_text [] = invalid
read_text (c ∷ s) = if any (λ d. d == b'Z') s then zoned c else naive c

abbrev pub dates : DateTime
dates = record { trimmed = λ s. s; from_string = read_text; utc_text = λ t. t ∷ [] }

-- Texts without the white space at the start, and at the end.
unfoldable skip_front : Str → Str
skip_front [] = []
skip_front (c ∷ s) = let rest = skip_front s in if is_space c then rest else c ∷ s

unfoldable skip_back : Str → Str
skip_back [] = []
skip_back (c ∷ s) = let rest = skip_back s in if every is_space (c ∷ s) then [] else c ∷ rest

every-append :
    (s : Str) (c : ℕ) → is_space c ≡ true → every is_space (s ++ c ∷ []) ≡ every is_space s
every-append [] c h = rw h
every-append (d ∷ s) c h = rw (every-append s c h)

skip_back-append : (s : Str) (c : ℕ) → is_space c ≡ true → skip_back (s ++ c ∷ []) ≡ skip_back s
unfolding skip_back
skip_back-append [] c h = rw h
skip_back-append (d ∷ s) c h = rw (every-append s c h, skip_back-append s c h)

skip_both :
    (s : Str) (c : ℕ)
    → is_space c ≡ true
    → skip_back (skip_front (s ++ c ∷ [])) ≡ skip_back (skip_front s)
unfolding skip_front
skip_both [] c h = rw h
skip_both (d ∷ s) c h = elim (Bool-cases (is_space d)) [
  | inl e ↦ rw e (skip_both s c h)
  | inr e ↦ rw e (skip_back-append (d ∷ s) c h)
]

abbrev calendar : DateTime
calendar = record dates { trimmed = λ s. skip_back (skip_front s) }

front_space :
    (c : ℕ) (s : Str)
    → is_space c ≡ true
    → skip_back (skip_front (c ∷ s)) ≡ skip_back (skip_front s)
unfolding skip_front
front_space c s h = rw h

canonical-replayed_example :
    canonical calendar (text " " ++ (text "2026-01-02" ++ b' ' ∷ text "03:04:05.1") ++ [])
    ≡ canonical calendar (text "2026-01-02" ++ b'T' ∷ text "03:04:05.100Z")
unfolding text skip_front skip_back
canonical-replayed_example =
    canonical-replayed calendar (record { front = front_space; back = λ c s h. skip_both s c h })
      (text " ") [] (text "2026-01-02") (text "03:04:05.1") (text "2026-01-02")
      (text "03:04:05.100Z") b'2' (refl, tt) tt refl refl refl refl refl refl
