-- ===== src/Server/Ordered/Keys.antt =====
-- The handlers that create groups and exchange their keys.
use bit_atm.Prelude.{ℕ, Bool, true, false, Option, none, some, List, [], ◌∷◌, Str, ℤ}
use bit_atm.Packet.{Packet}
use bit_atm.Repo.Users
use bit_atm.Repo.Groups
use bit_atm.Action.Keeps.{Keeps, keeps_rules, Keeps-pure}
use bit_atm.Repo.Ordered.{IsOrdered, ordered_rules}
use bit_atm.Repo.Groups
use bit_atm.Repo.Users
use bit_atm.Handler.Base.{handle}
use bit_atm.Handler.GroupKeyExchange
use bit_atm.Handler.CreateGroup
use bit_atm.Server.Ordered.Groups.{base_authorize-IsOrdered, queue-IsOrdered}

notify_at-IsOrdered :
    (p : Packet) (a n : Str) (b : Bool) (u k : Str) (o : Option ℕ)
    → Keeps IsOrdered (GroupKeyExchange.notify_at p a n b u k o)
unfolding GroupKeyExchange.notify_at
notify_at-IsOrdered p a n b u k none = search (keeps_rules, queue-IsOrdered)
notify_at-IsOrdered p a n b u k (some sid) = search (keeps_rules, queue-IsOrdered)

notify-IsOrdered :
    (p : Packet) (a n : Str) (b : Bool) (f : Str) (uk : Str × Str)
    → Keeps IsOrdered (GroupKeyExchange.notify p a n b f uk)
unfolding GroupKeyExchange.notify
notify-IsOrdered p a n b f (u, k) = search (keeps_rules, notify_at-IsOrdered)

group_name-IsOrdered : (g : ℤ) (b : Bool) → Keeps IsOrdered (GroupKeyExchange.group_name g b)
unfolding GroupKeyExchange.group_name Groups.find_group_by_id
group_name-IsOrdered g false = Keeps-pure _
group_name-IsOrdered g true = search keeps_rules

store_keys-IsOrdered :
    (g : ℤ) (ps : List (Str × Str)) → Keeps IsOrdered (GroupKeyExchange.store_keys g ps)
unfolding GroupKeyExchange.store_keys Groups.get_member_role
store_keys-IsOrdered g [] = Keeps-pure _
store_keys-IsOrdered g ((u, k) ∷ []) = search (keeps_rules, ordered_rules)
store_keys-IsOrdered g (a ∷ b ∷ rest) = search (keeps_rules, ordered_rules)

pub group_key_exchange-IsOrdered :
    (p : Packet) (sid : ℕ) → Keeps IsOrdered (handle GroupKeyExchange.handler p sid)
unfolding GroupKeyExchange.handler GroupKeyExchange.validate GroupKeyExchange.execute_key_exchange
    GroupKeyExchange.recover GroupKeyExchange.distribute Groups.get_member_role
    Groups.find_group_by_id Groups.get_key handle
group_key_exchange-IsOrdered p sid =
    search
      (
        keeps_rules, base_authorize-IsOrdered, notify-IsOrdered, group_name-IsOrdered,
        store_keys-IsOrdered,
      )
      depth 20

invite_at-IsOrdered :
    (c g n m k : Str) (o : Option ℕ) → Keeps IsOrdered (CreateGroup.invite_at c g n m k o)
unfolding CreateGroup.invite_at
invite_at-IsOrdered c g n m k none = queue-IsOrdered _ _ _ _ _ _
invite_at-IsOrdered c g n m k (some sid) = search (keeps_rules, queue-IsOrdered)

pub create_group_handler-IsOrdered :
    (p : Packet) (sid : ℕ) → Keeps IsOrdered (handle CreateGroup.handler p sid)
unfolding CreateGroup.handler CreateGroup.validate CreateGroup.execute_create CreateGroup.check_user
    CreateGroup.enrol CreateGroup.invite Users.find_by_username handle
create_group_handler-IsOrdered p sid =
    search (keeps_rules, ordered_rules, base_authorize-IsOrdered, invite_at-IsOrdered) depth 20
