-- ===== src/Tests/Sessions.antt =====
-- Packets of sessions.
use bit_atm.Prelude.{refl, inl, [], text}
use bit_atm.Packet.{group_leave}
use bit_atm.Server.Connection.{Local, on_packet}
use bit_atm.Server.Reject.Packets.{Refused, on_packet-Refused}
use bit_atm.Tests.Data.{packet, world}

abbrev nobody : Local
nobody = record { username = []; session_token = [] }

on_packet-Refused_example :
    Refused 3 nobody world
      (on_packet 3 nobody (packet group_leave (text "bob") (text "7") []) world)
on_packet-Refused_example =
    on_packet-Refused 3 nobody (packet group_leave (text "bob") (text "7") []) world (λ e. cc)
      (λ e. cc) (inl refl)
