-- ===== src/Client/Conversations.antt =====
-- frontend/src/ConversationListModel.h and ConversationListModel.cpp: the list of conversations with
-- their unread counts, which are numbers of messages. The notifications of the view are left out.
pub mod Badges
pub mod Unread
use bit_atm.Prelude.{
  ℕ, suc, Bool, true, false, not, ◌&&◌, ◌||◌, Option, none, some, List, [], ◌∷◌, ◌++◌, ◌==◌,
  if◌then◌else◌, any, length, is_empty, Str, str_eq, text, ℤ, pos, negsuc,
}
use bit_atm.Client.Storage.{LocalStorage}
use bit_atm.Client.Storage.Messages.{increment_unread, reset_unread}
use bit_atm.Client.Storage.Groups.{increment_group_unread, reset_group_unread}

pub record ConvEntry : Type 0 where
  pub username : Str
  pub last_message : Str
  pub timestamp : Str
  pub is_group : Bool
  pub group_id : Str
  pub unread_count : ℕ

-- The entries, with the LocalStorage that the model writes to.
pub record ConversationList : Type 0 where
  pub entries : List ConvEntry
  pub storage : LocalStorage

-- A loop that returns at the first match, and what stands there.
unfoldable pub change_first :
    (ConvEntry → Bool) → (ConvEntry → ConvEntry) → List ConvEntry → List ConvEntry
change_first p f [] = []
change_first p f (e ∷ rest) =
    let later = change_first p f rest in if p e then f e ∷ rest else e ∷ later

unfoldable pub find_first : (ConvEntry → Bool) → List ConvEntry → Option ConvEntry
find_first p [] = none
find_first p (e ∷ rest) = let later = find_first p rest in if p e then some e else later

abbrev counted : Bool → ℕ → ℕ
counted more n = if more then suc n else n

abbrev named : Str → ConvEntry → Bool
named username e = str_eq e.username username

unfoldable pub add_or_update : Str → Str → Str → Bool → ConversationList → ConversationList
unfolding change_first increment_unread
add_or_update username last_message timestamp more m = record {
  entries =
      if any (named username) m.entries
      then change_first (named username)
          (λ e. record e {
            last_message = last_message;
            timestamp = timestamp;
            unread_count = counted more e.unread_count;
          })
          m.entries
      else m.entries
        ++ record {
          username = username;
          last_message = last_message;
          timestamp = timestamp;
          is_group = false;
          group_id = [];
          unread_count = counted more 0;
        }
          ∷ [];
  storage = if more then increment_unread username m.storage else m.storage;
}

-- const bool matches = e.isGroup ? (e.groupId == peer) : (e.username == peer);
abbrev pub matches : Str → ConvEntry → Bool
matches peer e = if e.is_group then str_eq e.group_id peer else str_eq e.username peer

unfoldable pub drop_first : (ConvEntry → Bool) → List ConvEntry → List ConvEntry
drop_first p [] = []
drop_first p (e ∷ rest) = let later = drop_first p rest in if p e then rest else e ∷ later

unfoldable pub remove : Str → ConversationList → ConversationList
unfolding drop_first
remove peer m = record m { entries = drop_first (matches peer) m.entries }

abbrev reset_found : ConvEntry → LocalStorage → LocalStorage
reset_found e s = if e.is_group then reset_group_unread e.group_id s else reset_unread e.username s

abbrev mark_found : Str → Option ConvEntry → ConversationList → ConversationList
mark_found peer none m = m
mark_found peer (some e) m = if e.unread_count == 0 then m else record {
  entries = change_first (matches peer) (λ e. record e { unread_count = 0 }) m.entries;
  storage = reset_found e m.storage;
}

unfoldable pub mark_read : Str → ConversationList → ConversationList
unfolding change_first find_first reset_unread reset_group_unread
mark_read peer m = mark_found peer (find_first (matches peer) m.entries) m

unfoldable pub clear : ConversationList → ConversationList
clear m = if is_empty m.entries then m else record m { entries = [] }

unfoldable pub row_count : Bool → ConversationList → ℕ
row_count parent_valid m = if parent_valid then 0 else length m.entries

abbrev is_group_of : Str → ConvEntry → Bool
is_group_of group_id e = e.is_group && str_eq e.group_id group_id

abbrev unless_empty : Str → Str → Str
unless_empty new old = if is_empty new then old else new

unfoldable pub add_or_update_group :
    Str → Str → Str → Str → Bool → ConversationList → ConversationList
unfolding change_first increment_group_unread
add_or_update_group group_id group_name last_message last_timestamp more m = record {
  entries =
      if any (is_group_of group_id) m.entries
      then change_first (is_group_of group_id)
          (λ e. record e {
            last_message = unless_empty last_message e.last_message;
            timestamp = unless_empty last_timestamp e.timestamp;
            unread_count = counted more e.unread_count;
          })
          m.entries
      else m.entries
        ++ record {
          username = group_name;
          last_message = last_message;
          timestamp = last_timestamp;
          is_group = true;
          group_id = group_id;
          unread_count = counted more 0;
        }
          ∷ [];
  storage = if more then increment_group_unread group_id m.storage else m.storage;
}

-- An entry that has the count already is left as it is, which is to set it.
unfoldable pub set_unread_count : Str → ℕ → ConversationList → ConversationList
unfolding change_first
set_unread_count peer count m = record m {
  entries =
      change_first (matches peer)
        (λ e. if e.unread_count == count then e else record e { unread_count = count }) m.entries;
}
