-- ===== src/Tests/Wire.antt =====
-- Packets on the wire.
use bit_atm.Prelude.{◌≡◌, refl, text, pos}
use bit_atm.Error.{ok}
use bit_atm.Packet.{message}
use bit_atm.Wire.{serialize, deserialize}
use bit_atm.Wire.RoundTrip.{deserialize-serialize}
use bit_atm.Tests.Data.{packet}

deserialize-serialize_example :
    deserialize (pos 0) (serialize (packet message (text "bob") (text "hi") (text "k;s")))
    ≡ ok (packet message (text "bob") (text "hi") (text "k;s"))
unfolding text
deserialize-serialize_example =
    deserialize-serialize (pos 0) (packet message (text "bob") (text "hi") (text "k;s")) (record {
      version = refl;
      from = tt;
      to = (refl, (refl, (refl, tt)));
      body = (refl, (refl, tt));
      key = (refl, (refl, (refl, tt)));
      timestamp = tt;
      error_msg = tt;
    })
