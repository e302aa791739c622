-- ===== src/Packet.antt =====
-- common/protocol.h: packet types and the packet.
use bit_atm.Prelude.{ℕ, zero, suc, Option, none, some, List, [], ◌∷◌, Str, ℤ, pos, negsuc}

pub data PacketType : Type 0 where
  login register message key_exchange ack err_packet sync_history create_group : PacketType
  read_receipt group_message group_key_exchange group_invite group_leave : PacketType
  group_info delete_group delete_conversation : PacketType

-- static_cast<int>.
abbrev pub type_code : PacketType → ℕ
type_code login = 0
type_code register = 1
type_code message = 2
type_code key_exchange = 3
type_code ack = 4
type_code err_packet = 5
type_code sync_history = 6
type_code create_group = 7
type_code read_receipt = 8
type_code group_message = 9
type_code group_key_exchange = 10
type_code group_invite = 11
type_code group_leave = 12
type_code group_info = 13
type_code delete_group = 14
type_code delete_conversation = 15

-- static_cast<PacketType> of a code from 0 to 15; `none` for any other.
abbrev type_at : ℕ → List PacketType → Option PacketType
type_at n [] = none
type_at zero (t ∷ ts) = some t
type_at (suc n) (t ∷ ts) = type_at n ts

abbrev pub all_types : List PacketType
all_types =
    login ∷ register ∷ message ∷ key_exchange ∷ ack ∷ err_packet ∷ sync_history ∷ create_group
    ∷ read_receipt ∷ group_message ∷ group_key_exchange ∷ group_invite ∷ group_leave ∷ group_info
    ∷ delete_group ∷ delete_conversation ∷ []

abbrev pub type_of_code : ℤ → Option PacketType
type_of_code (pos n) = type_at n all_types
type_of_code (negsuc n) = none

abbrev pub protocol_version : ℤ
protocol_version = pos 1

abbrev pub max_packet_size : ℕ
max_packet_size = 65536

pub record Packet : Type 0 where
  pub type : PacketType
  pub version : ℤ
  pub from : Str
  pub to : Str
  pub body : Str
  pub key : Str
  pub timestamp : Str
  pub error_msg : Str

-- A default-constructed packet whose type is then set.
abbrev pub blank : PacketType → Packet
blank t = record {
  type = t;
  version = protocol_version;
  from = [];
  to = [];
  body = [];
  key = [];
  timestamp = [];
  error_msg = [];
}
