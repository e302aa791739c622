-- ===== src/Db.antt =====
-- db/migrations: the tables, each a list of rows in the order of insertion, with the counters of
-- their SERIAL columns. A time is a number of microseconds. Columns that no query reads are left out.
use bit_atm.Prelude.{ℕ, Bool, not, Option, List, [], ◌∷◌, leb, if◌then◌else◌, select, Str, ℤ}
use bit_atm.Packet.{PacketType}

-- class User.
pub record User : Type 0 where
  pub id : ℤ
  pub username : Str
  pub password_hash : Str
  pub public_key : Str
  pub last_seen : ℕ
  pub created_at : ℕ

-- class Message; `created_at` is the column's instant.
pub record Message : Type 0 where
  pub id : ℤ
  pub sender : Str
  pub recipient : Str
  pub encrypted_body : Str
  pub encrypted_key : Str
  pub sender_encrypted_key : Str
  pub status : Str
  pub created_at : ℕ

-- class Session.
pub record Session : Type 0 where
  pub id : ℤ
  pub user_id : ℤ
  pub session_token : Str
  pub created_at : ℕ
  pub expires_at : ℕ
  pub is_active : Bool

-- class OfflineMessage.
pub record OfflineMessage : Type 0 where
  pub id : ℤ
  pub message_id : ℤ
  pub recipient : Str
  pub queued_at : ℕ
  pub delivered : Bool
  pub delivery_attempts : ℕ

-- struct GroupInfo.
pub record GroupInfo : Type 0 where
  pub id : ℤ
  pub name : Str
  pub creator : Str

-- struct GroupMember.
pub record GroupMember : Type 0 where
  pub group_id : ℤ
  pub username : Str
  pub role : Str
  pub joined_at : ℕ

pub record GroupKey : Type 0 where
  pub group_id : ℤ
  pub username : Str
  pub encrypted_aes_key : Str

pub record GroupMessage : Type 0 where
  pub id : ℤ
  pub group_id : ℤ
  pub sender : Str
  pub encrypted_body : Str
  pub timestamp : ℕ

pub record GroupReceipt : Type 0 where
  pub message_id : ℤ
  pub username : Str
  pub delivered_at : Option ℕ
  pub seen_at : Option ℕ

-- A row of offline_read_receipts; a receipt of a one-to-one message has no group.
pub record ReadReceipt : Type 0 where
  pub id : ℤ
  pub from_user : Str
  pub to_user : Str
  pub message_ts : Str
  pub group_id : Option ℤ
  pub kind : Str
  pub queued_at : ℕ
  pub delivered : Bool

-- struct PendingNotification, with its recipient.
pub record PendingNotification : Type 0 where
  pub id : ℤ
  pub recipient : Str
  pub packet_type : PacketType
  pub from_user : Str
  pub body : Str
  pub error_msg : Str
  pub packet_key : Str
  pub created_at : ℕ

-- The last value that each SERIAL column gave out.
pub record Serials : Type 0 where
  pub users : ℕ
  pub messages : ℕ
  pub sessions : ℕ
  pub offline_queue : ℕ
  pub groups : ℕ
  pub group_messages : ℕ
  pub read_receipts : ℕ
  pub pending : ℕ

pub record Db : Type 0 where
  pub users : List User
  pub messages : List Message
  pub sessions : List Session
  pub offline_queue : List OfflineMessage
  pub groups : List GroupInfo
  pub group_members : List GroupMember
  pub group_keys : List GroupKey
  pub group_messages : List GroupMessage
  pub group_message_receipts : List GroupReceipt
  pub offline_read_receipts : List ReadReceipt
  pub pending_notifications : List PendingNotification
  pub serials : Serials

-- ORDER BY key ASC; rows with equal keys stay in the order of insertion.
insert_by {ℓ} : {A : Type ℓ} → (A → ℕ) → A → List A → List A
insert_by key a [] = a ∷ []
insert_by key a (b ∷ bs) = if leb (key a) (key b) then a ∷ b ∷ bs else b ∷ insert_by key a bs

unfoldable pub order_by {ℓ} : {A : Type ℓ} → (A → ℕ) → List A → List A
unfolding insert_by
order_by key [] = []
order_by key (a ∷ rest) = insert_by key a (order_by key rest)

-- UPDATE ... SET f WHERE p.
abbrev pub update_where {ℓ} : {A : Type ℓ} → (A → Bool) → (A → A) → List A → List A
update_where p f [] = []
update_where p f (a ∷ rest) = (if p a then f a else a) ∷ update_where p f rest

-- DELETE ... WHERE p.
abbrev pub delete_where {ℓ} : {A : Type ℓ} → (A → Bool) → List A → List A
delete_where p rows = select (λ a. not (p a)) rows
