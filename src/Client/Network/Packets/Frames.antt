-- ===== src/Client/Network/Packets/Frames.antt =====
-- NetworkManager::sendPacket: its frames are those of the server.
use bit_atm.Prelude.{◌≡◌, text}
use mathlib.Core.List.{append_assoc}
use bit_atm.Packet.{Packet}
use bit_atm.Wire.{serialize}
use bit_atm.Client.Network.Packets.{frame}

pub frame-serialize : (p : Packet) → frame p ≡ serialize p
unfolding frame serialize text
frame-serialize p = simp append_assoc
