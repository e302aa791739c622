-- ===== src/Client/Chat.antt =====
-- frontend/src/ChatModel.h and ChatModel.cpp: the messages of the open conversation and the cache of
-- all, with the LocalStorage that the model writes to. The notifications of the view are left out.
pub mod View
use bit_atm.Prelude.{
  ℕ, zero, suc, Bool, true, false, not, ◌&&◌, ◌||◌, Option, none, some, List, [], ◌∷◌, ◌++◌, ltb,
  if◌then◌else◌, any, length, Str, str_eq, text, ℤ, pos, negsuc,
}
use bit_atm.Db.{update_where}
use bit_atm.Client.Storage.{LocalStorage}
use bit_atm.Client.Storage.Messages.{update_message_status}
use bit_atm.Client.Storage.Groups.{update_group_message_status}

pub record ChatEntry : Type 0 where
  pub sender : Str
  pub content : Str
  pub timestamp : Str
  pub is_outgoing : Bool
  pub status : Str

pub record ChatModel : Type 0 where
  pub entries : List ChatEntry
  pub cache : List (Str × List ChatEntry)
  pub active_peer : Str

-- The values that data() returns; invalid is QVariant().
pub data Value : Type 0 where
  invalid : Value
  text_value : Str → Value
  bool_value : Bool → Value

pub data Role : Type 0 where
  sender_role content_role timestamp_role is_outgoing_role status_role other_role : Role

unfoldable pub append_message : Str → Str → Str → Bool → ChatModel → ChatModel
unfolding text
append_message sender content timestamp is_outgoing m = record m {
  entries =
      m.entries
      ++ record {
        sender = sender;
        content = content;
        timestamp = timestamp;
        is_outgoing = is_outgoing;
        status = text "sent";
      }
        ∷ [];
}

-- cache_[peer].push_back(entry)
unfoldable pub push_back :
    Str → ChatEntry → List (Str × List ChatEntry) → List (Str × List ChatEntry)
push_back peer e [] = (peer, e ∷ []) ∷ []
push_back peer e ((p, es) ∷ rest) =
    let later = push_back peer e rest in
    if str_eq p peer then (p, es ++ e ∷ []) ∷ rest else (p, es) ∷ later

unfoldable pub append_entry : Str → ChatEntry → ChatModel → ChatModel
unfolding push_back
append_entry peer e m = record m {
  cache = push_back peer e m.cache;
  entries = if str_eq m.active_peer peer then m.entries ++ e ∷ [] else m.entries;
}

unfoldable pub append_and_cache : Str → Str → Str → Str → Bool → Str → ChatModel → ChatModel
unfolding append_entry
append_and_cache peer sender content timestamp is_outgoing status = append_entry peer (record {
  sender = sender;
  content = content;
  timestamp = timestamp;
  is_outgoing = is_outgoing;
  status = status;
})

-- The entries of a peer, none if the cache does not contain it.
unfoldable pub cached : Str → List (Str × List ChatEntry) → List ChatEntry
cached peer [] = []
cached peer ((p, es) ∷ rest) = let later = cached peer rest in if str_eq p peer then es else later

unfoldable pub switch_conversation : Str → ChatModel → ChatModel
unfolding cached
switch_conversation peer m = record m { active_peer = peer; entries = cached peer m.cache }

unfoldable pub clear_history : ChatModel → ChatModel
clear_history m = record m { entries = [] }

unfoldable pub clear_all : ChatModel → ChatModel
clear_all m = record { entries = []; cache = []; active_peer = [] }

unfoldable pub row_count : Bool → ChatModel → ℕ
row_count parent_valid m = if parent_valid then 0 else length m.entries

abbrev nth_entry : ℕ → List ChatEntry → Option ChatEntry
nth_entry n [] = none
nth_entry zero (e ∷ es) = some e
nth_entry (suc n) (e ∷ es) = nth_entry n es

abbrev entry_at : ℤ → List ChatEntry → Option ChatEntry
entry_at (pos n) es = nth_entry n es
entry_at (negsuc n) es = none

abbrev role_value : Role → ChatEntry → Value
role_value sender_role e = text_value e.sender
role_value content_role e = text_value e.content
role_value timestamp_role e = text_value e.timestamp
role_value is_outgoing_role e = bool_value e.is_outgoing
role_value status_role e = text_value e.status
role_value other_role e = invalid

abbrev value_of : Role → Option ChatEntry → Value
value_of r none = invalid
value_of r (some e) = role_value r e

unfoldable pub data_at : Bool → ℤ → Role → ChatModel → Value
data_at index_valid row role m =
    if index_valid then value_of role (entry_at row m.entries) else invalid

-- The loop over a vector of entries.
unfoldable pub with_status : Str → Str → List ChatEntry → List ChatEntry
with_status timestamp status =
    update_where (λ e. str_eq e.timestamp timestamp) (λ e. record e { status = status })

unfoldable pub cache_status :
    Str → Str → Str → List (Str × List ChatEntry) → List (Str × List ChatEntry)
unfolding with_status
cache_status peer timestamp status [] = []
cache_status peer timestamp status ((p, es) ∷ rest) =
    let later = cache_status peer timestamp status rest in
    if str_eq p peer then (p, with_status timestamp status es) ∷ rest else (p, es) ∷ later

unfoldable pub show_status : Str → Str → Str → ChatModel → ChatModel
unfolding with_status cache_status
show_status peer timestamp status m = record m {
  entries = if str_eq m.active_peer peer then with_status timestamp status m.entries else m.entries;
  cache = cache_status peer timestamp status m.cache;
}

unfoldable pub update_status :
    Str → Str → Str → Bool → ChatModel × LocalStorage → ChatModel × LocalStorage
unfolding show_status update_message_status update_group_message_status
update_status peer timestamp status is_group (m, s) = (
  show_status peer timestamp status m,
  if is_group
      then update_group_message_status peer timestamp status s
      else update_message_status peer timestamp status s,
)
