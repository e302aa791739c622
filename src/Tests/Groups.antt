-- ===== src/Tests/Groups.antt =====
-- Groups: alice is the creator of group 7, bob an administrator.
use bit_atm.Prelude.{
  ◌∷◌, any, if◌then◌else◌, ◌&&◌, ◌≡◌, true, leb, length, stoi, refl, [], text, pos, int_eq, str_eq,
}
use bit_atm.Packet.{group_message, group_info, delete_group, group_key_exchange, group_leave}
use bit_atm.Action.{done, after}
use bit_atm.Handler.Base.{handle}
use bit_atm.Handler.GroupLeave
use bit_atm.Handler.GroupMessage
use bit_atm.Handler.GroupInfo
use bit_atm.Handler.GroupInfo.{grant_admin}
use bit_atm.Handler.GroupInfo.Roles.{role_in-grant_admin}
use bit_atm.Handler.DeleteGroup
use bit_atm.Handler.GroupKeyExchange
use bit_atm.Handler.GroupKeyExchange.{parse_key_pairs}
use bit_atm.Handler.GroupKeyExchange.Pairs.{parse_key_pairs-deserialize}
use bit_atm.Server.Reject.{Rejected}
use bit_atm.Server.Reject.Kicks.{kick-Rejected}
use bit_atm.Server.Reject.Outsiders.{outsider-Rejected}
use bit_atm.Server.Reject.Creators.{role_change-Rejected, group_deletion-Rejected}
use bit_atm.Wire.{serialize}
use bit_atm.Repo.Groups.{role_in, is_member, upsert_member}
use bit_atm.Repo.Groups.Enrol.{role_in-upsert_member}
use bit_atm.Handler.CreateGroup.{enrol}
use bit_atm.Handler.CreateGroup.Roles.{role_in-enrol}
use bit_atm.World.{World}
use bit_atm.Wire.RoundTrip.{deserialize-serialize}
use bit_atm.Handler.GroupLeave.Creator.{IsCreator, handle-IsCreator}
use bit_atm.Tests.Data.{quiet_run, packet, world}

-- The administrator bob would remove alice.
handle-IsCreator_example :
    IsCreator
      (pos 7)
      (text "alice")
      (after
        (handle GroupLeave.handler (packet group_leave (text "7") (text "alice") []) 2 world)).db
unfolding text int_eq str_eq
handle-IsCreator_example =
    handle-IsCreator (packet group_leave (text "7") (text "alice") []) 2 world (pos 7)
      (text "alice") refl

-- Bob, who is logged in, is no member of group 8.
outsider-Rejected_example :
    Rejected world
      (handle GroupMessage.handler (packet group_message (text "8") (text "c") []) 2 world)
    × Rejected world
        (handle GroupKeyExchange.handler (packet group_message (text "8") (text "c") []) 2 world)
    × Rejected world
        (handle GroupLeave.handler (packet group_message (text "8") (text "c") []) 2 world)
    × Rejected world
        (handle DeleteGroup.handler (packet group_message (text "8") (text "c") []) 2 world)
unfolding text str_eq int_eq stoi
outsider-Rejected_example =
    outsider-Rejected (packet group_message (text "8") (text "c") []) 2 world (pos 8) refl refl

-- The administrator bob would make itself one again.
role_change-Rejected_example : Rejected world (
    handle GroupInfo.handler
      (packet group_info (text "7") (text "grant_admin") (text "bob"))
      2
      world)
unfolding text str_eq int_eq stoi
role_change-Rejected_example =
    role_change-Rejected (packet group_info (text "7") (text "grant_admin") (text "bob")) 2 world
      (pos 7) refl refl refl

group_deletion-Rejected_example :
    Rejected world (handle DeleteGroup.handler (packet delete_group (text "7") [] []) 2 world)
unfolding text str_eq int_eq stoi
group_deletion-Rejected_example =
    group_deletion-Rejected (packet delete_group (text "7") [] []) 2 world (pos 7) refl refl

parse_key_pairs-deserialize_example : leb (length (parse_key_pairs (text "bob:k"))) 1 ≡ true
unfolding text
parse_key_pairs-deserialize_example =
    parse_key_pairs-deserialize (pos 0)
      (serialize (packet group_key_exchange (text "7") [] (text "bob:k")))
      (packet group_key_exchange (text "7") [] (text "bob:k"))
      (deserialize-serialize (pos 0) (packet group_key_exchange (text "7") [] (text "bob:k"))
        (record {
          version = refl;
          from = tt;
          to = (refl, tt);
          body = tt;
          key = (refl, (refl, (refl, (refl, (refl, tt)))));
          timestamp = tt;
          error_msg = tt;
        }))

-- Alice, who creates group 8, stands in its list of members too.
role_in-enrol_example :
    (x : World) × (enrol (pos 8) (text "alice") (text "bob" ∷ text "alice" ∷ []) world ≡ done tt x)
    × (role_in (pos 8) (text "alice") x.db ≡ (
        if any (λ m. str_eq m (text "alice")) (text "bob" ∷ text "alice" ∷ [])
        then text "member"
        else if str_eq (text "alice") (text "alice")
        then text "creator"
        else role_in (pos 8) (text "alice") world.db))
role_in-enrol_example =
    role_in-enrol (pos 8) (text "alice") (text "alice") (text "bob" ∷ text "alice" ∷ []) world
      quiet_run

role_in-upsert_member_example :
    role_in (pos 7) (text "bob") (upsert_member (pos 7) (text "bob") (text "member") 5 world.db) ≡ (
      if int_eq (pos 7) (pos 7) && str_eq (text "bob") (text "bob")
      then text "member"
      else role_in (pos 7) (text "bob") world.db)
role_in-upsert_member_example =
    role_in-upsert_member (pos 7) (pos 7) (text "bob") (text "bob") (text "member") 5 world.db

-- The creator alice grants itself administration.
role_in-grant_admin_example :
    (x : World) × (grant_admin
        (packet group_info (text "7") (text "grant_admin") (text "alice"))
        (pos 7)
        (text "alice")
        world
      ≡ done tt x)
    × (role_in (pos 7) (text "alice") x.db ≡ (
        if str_eq (text "alice") (text "alice")
        then (if any (is_member (pos 7) (text "alice")) world.db.group_members
            then text "admin"
            else [])
        else role_in (pos 7) (text "alice") world.db))
unfolding text str_eq int_eq
role_in-grant_admin_example =
    role_in-grant_admin (packet group_info (text "7") (text "grant_admin") (text "alice")) (pos 7)
      (text "alice") (text "alice") world quiet_run refl refl

-- The administrator bob would remove itself by naming itself, which only the creator may.
kick-Rejected_example :
    Rejected world
      (handle GroupLeave.handler (packet group_leave (text "7") (text "bob") []) 2 world)
unfolding text str_eq int_eq stoi
kick-Rejected_example =
    kick-Rejected (packet group_leave (text "7") (text "bob") []) 2 world (pos 7) refl refl refl
