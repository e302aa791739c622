-- ===== src/Client/Network.antt =====
-- frontend/src/NetworkManager.h: the state of the network manager, with LocalStorage, QSettings, the
-- requests made of the socket and the signals emitted. Both lists have the newest first. Qt's
-- event loop calls one slot after another; a texts' toLatin1 is the text.
pub mod Packets
pub mod Messages
pub mod Login
pub mod Incoming
pub mod Groups
pub mod GroupKeys
pub mod PeerKeys
pub mod Receipts
pub mod GroupMessages
pub mod Invites
pub mod Events
use bit_atm.Prelude.{
  ℕ, suc, Bool, true, false, Option, none, some, List, [], ◌∷◌, ◌++◌, Str, if◌then◌else◌,
}
use bit_atm.Error.{Error, Result, ok, err}
use bit_atm.Packet.{Packet}
use bit_atm.Client.Throwing.{Throwing, returns, ◌>>=◌, ◌>>◌, modify}
use bit_atm.Client.Crypto.{OpenSsl, Crypto}
use bit_atm.Client.Date.{DateTime}
use bit_atm.Client.Map.{Map}
use bit_atm.Client.Storage.{LocalStorage}

-- OpenSSL and QDateTime: `utc_now` is the current time as an ISO text, at a step; `reads_iso_date`
-- says whether fromString with Qt::ISODate is valid.
pub record ClientEnv : Type 0 where
  pub ssl : OpenSsl
  pub dates : DateTime
  pub utc_now : ℕ → Str
  pub reads_iso_date : Str → Bool

-- What is asked of the QWebSocket.
pub data Request : Type 0 where
  open_url : Str → Request
  close_socket ignore_ssl_errors : Request
  text_message : Str → Request

-- The signals of NetworkManager.
pub data Signal : Type 0 where
  last_message_changed current_username_changed connection_changed : Signal
  connected disconnected sync_complete : Signal
  message_received error_occurred message_delivered conversation_deleted : Str → Signal
  group_left group_key_updated : Str → Signal
  message_seen group_message_delivered group_receipt_updated : Str → Str → Signal
  group_invite_received peer_key_received : Str → Str → Signal
  message_decrypted : Str → Str → Str → Signal
  history_sync_message : Str → Str → Str → Str → Bool → Str → Signal
  group_history_sync_message : Str → Str → Str → Str → Bool → Str → Signal
  conv_list_updated : Str → Str → Str → ℕ → Signal
  group_conv_updated : Str → Str → Str → Str → ℕ → Signal
  group_message_decrypted : Str → Str → Str → Str → Bool → Signal
  group_info_received : Str → Str → List (Str × Str) → Signal

-- struct PendingGroupCreate.
pub record PendingGroupCreate : Type 0 where
  pub name : Str
  pub members : List Str
  pub aes_key : Str
  pub collected_keys : Map Str
  pub waiting_for : List Str

pub record NetworkManager : Type 0 where
  pub env : ClientEnv
  pub tick : ℕ
  pub is_connected : Bool
  pub pinging : Bool
  pub requests : List Request
  pub signals : List Signal
  pub storage : LocalStorage
  pub settings : Map Str
  pub server_url : Str
  pub last_message : Str
  pub current_username : Str
  pub has_error : Bool
  pub own_priv_key : Str
  pub own_pub_key : Str
  pub peer_keys : Map Str
  pub pending_messages : Map (List (Str × Str))
  pub pending_register : Bool
  pub intentionally_connecting : Bool
  pub unread_timestamps : Map (List Str)
  pub pending_group_member_adds : Map (List Str)
  pub pending_group_key_requests : List Str
  pub pending_group_packets : Map (List Packet)
  pub pending_group_sends : Map (List (Str × Str))
  pub pending_group_creations : List PendingGroupCreate
  pub group_keys : Map Str
  pub group_names : Map Str

abbrev pub Net : Type 0 → Type 0
Net = Throwing NetworkManager

abbrev pub tuck : {A B : Type 0} → (B → NetworkManager) → A × B → A × NetworkManager
tuck f (a, b) = (a, f b)

-- A call of the CryptoEngine.
unfoldable pub crypt : {A : Type 0} → (OpenSsl → Crypto A) → Net A
crypt f n = tuck (λ t. record n { tick = t }) (f n.env.ssl n.tick)

abbrev pub read_out : {A : Type 0} → NetworkManager → A × LocalStorage → Result A × NetworkManager
read_out n (a, s) = (ok a, record n { storage = s })

-- A call of LocalStorage::instance() with a result, and one without.
unfoldable pub stored : {A : Type 0} → (LocalStorage → A × LocalStorage) → Net A
stored f n = read_out n (f n.storage)

unfoldable pub store : (LocalStorage → LocalStorage) → Net (Unit {0})
store f n = (ok tt, record n { storage = f n.storage })

unfoldable pub utc_now : Net Str
utc_now n = (ok (n.env.utc_now n.tick), record n { tick = suc n.tick })

unfoldable pub emit : Signal → Net (Unit {0})
emit e n = (ok tt, record n { signals = e ∷ n.signals })

unfoldable pub request : Request → Net (Unit {0})
request r n = (ok tt, record n { requests = r ∷ n.requests })

-- _hasError = true; _lastMessage = message; emit lastMessageChanged();
unfoldable pub fail_with : Str → Net (Unit {0})
unfolding ◌>>=◌ modify emit
fail_with message = do
  modify (λ n. record n { has_error = true; last_message = message })
  emit last_message_changed
