-- ===== src/Server/Ordered/Groups.antt =====
-- The handlers of groups.
use bit_atm.Prelude.{ℕ, Option, none, some, Str, ℤ}
use bit_atm.Packet.{PacketType, Packet}
use bit_atm.Db.{Db}
use bit_atm.Action.{set_db}
use bit_atm.Handler.Base.{Handler, base_authorize}
use bit_atm.Repo.Sessions
use bit_atm.Repo.Groups
use bit_atm.Repo.Pending
use bit_atm.Action.Keeps.{Keeps, keeps_rules, Keeps-set_db, Keeps-execute, Keeps-pure}
use bit_atm.Repo.Ordered.{IsOrdered, ordered_rules, All-select}
use bit_atm.Repo.Groups
use bit_atm.Repo.Pending
use bit_atm.Repo.Sessions
use bit_atm.Handler.Base.{Handler, handle, base_authorize}
use bit_atm.Handler.GroupMessage
use bit_atm.Handler.GroupInfo
use bit_atm.Handler.GroupLeave
use bit_atm.Handler.DeleteGroup

pub base_authorize-IsOrdered : (sid : ℕ) → Keeps IsOrdered (base_authorize sid)
unfolding base_authorize Sessions.find_by_token
base_authorize-IsOrdered sid = search keeps_rules depth 12

pub handle-Keeps :
    {Q : Db → Type 0} (h : Handler) (p : Packet) (sid : ℕ)
    → Keeps Q (h.validate p)
    → Keeps Q (h.authorize sid)
    → Keeps Q (h.execute p sid)
    → Keeps Q (handle h p sid)
unfolding handle
handle-Keeps h p sid v a e = search keeps_rules

deliver_to-IsOrdered : (p : Packet) (o : Option ℕ) → Keeps IsOrdered (GroupMessage.deliver_to p o)
unfolding GroupMessage.deliver_to
deliver_to-IsOrdered p none = Keeps-pure tt
deliver_to-IsOrdered p (some sid) = search keeps_rules

pub group_message-IsOrdered :
    (p : Packet) (sid : ℕ) → Keeps IsOrdered (handle GroupMessage.handler p sid)
unfolding GroupMessage.handler GroupMessage.validate GroupMessage.execute_group_message
    GroupMessage.fan_out Groups.get_member_role Groups.get_members handle
group_message-IsOrdered p sid =
    search (keeps_rules, ordered_rules, base_authorize-IsOrdered, deliver_to-IsOrdered) depth 20

show_to-IsOrdered :
    (p : Packet) (u : Str) (o : Option ℕ) → Keeps IsOrdered (GroupInfo.show_to p u o)
unfolding GroupInfo.show_to
show_to-IsOrdered p u none = Keeps-pure tt
show_to-IsOrdered p u (some sid) = search keeps_rules

pub group_info-IsOrdered : (p : Packet) (sid : ℕ) → Keeps IsOrdered (handle GroupInfo.handler p sid)
unfolding GroupInfo.handler GroupInfo.validate GroupInfo.execute_info GroupInfo.grant_admin
    GroupInfo.revoke_admin GroupInfo.fan_out Groups.get_member_role Groups.get_members
    Groups.find_group_by_id handle
group_info-IsOrdered p sid =
    search (keeps_rules, ordered_rules, base_authorize-IsOrdered, show_to-IsOrdered) depth 20

leave_tell-IsOrdered :
    (p : Packet) (u : Str) (o : Option ℕ) → Keeps IsOrdered (GroupLeave.tell p u o)
unfolding GroupLeave.tell
leave_tell-IsOrdered p u none = Keeps-pure tt
leave_tell-IsOrdered p u (some sid) = search keeps_rules

pub group_leave-IsOrdered :
    (p : Packet) (sid : ℕ) → Keeps IsOrdered (handle GroupLeave.handler p sid)
unfolding GroupLeave.handler GroupLeave.validate GroupLeave.execute_leave GroupLeave.remove_target
    GroupLeave.guard_kick Groups.get_member_role handle
group_leave-IsOrdered p sid =
    search (keeps_rules, ordered_rules, base_authorize-IsOrdered, leave_tell-IsOrdered) depth 20

pub queue-IsOrdered :
    (u : Str) (t : PacketType) (a b c d : Str) → Keeps IsOrdered (Pending.queue u t a b c d)
unfolding Pending.queue
queue-IsOrdered u t a b c d = search (keeps_rules, Keeps-execute)

delete_tell-IsOrdered :
    (p : Packet) (a u : Str) (o : Option ℕ) → Keeps IsOrdered (DeleteGroup.tell p a u o)
unfolding DeleteGroup.tell
delete_tell-IsOrdered p a u none = queue-IsOrdered _ _ _ _ _ _
delete_tell-IsOrdered p a u (some sid) = search (keeps_rules, queue-IsOrdered)

drop_group-IsOrdered : (g : ℤ) → Keeps IsOrdered (set_db (λ w. Groups.drop_group g w.db))
drop_group-IsOrdered g = Keeps-set_db _ (λ w h. All-select _ _ h)

pub delete_group-IsOrdered :
    (p : Packet) (sid : ℕ) → Keeps IsOrdered (handle DeleteGroup.handler p sid)
unfolding DeleteGroup.handler DeleteGroup.validate DeleteGroup.execute_delete DeleteGroup.notify
    Groups.get_member_role Groups.get_members handle
delete_group-IsOrdered p sid =
    search
      (
        keeps_rules, ordered_rules, base_authorize-IsOrdered, delete_tell-IsOrdered,
        drop_group-IsOrdered,
      )
      depth 20
