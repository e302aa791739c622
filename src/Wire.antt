-- ===== src/Wire.antt =====
-- backend/src/ProtocolParser.cpp and the stream operators of common/protocol.h: the wire format.
pub mod Stream
pub mod RoundTrip
pub mod Fields
use bit_atm.Prelude.{
  ℕ, zero, suc, ◌+◌, ◌-◌, ◌*◌, ◌/◌, ◌%◌, ◌≤◌, ◌<◌, String, ◌≡◌, refl, sym, ap, ◌∙◌, ◌≢◌, ◌↔◌, ◌⊎◌,
  inl, inr, Bool, true, false, not, ◌&&◌, ◌||◌, Option, none, some, List, [], ◌∷◌, ◌++◌, map, arith,
  ltb, leb, ◌==◌, if◌then◌else◌, ==_iff, ==_refl, Bool-cases, Option-cases, length, length-append,
  is_empty, select, head?, last?, any, every, All, Str, text, str_eq, str_eq_refl, str_eq→≡,
  str_eq_iff, is_digit, is_space, split_at, tokens, ℤ, pos, negsuc, int_eq, int_max, in_int,
  to_string, skip_spaces, read_digits, read_number, stoi,
}
use bit_atm.Error.{Error, protocol, Result, ok, err}
use bit_atm.Packet.{PacketType, login, Packet, blank, type_code, type_of_code}
use Stream.{IStream, open_stream, read_int, read_char, getline, clear_at_eof}

unfoldable pub serialize : Packet → Str
serialize p =
    to_string (pos (type_code p.type))
    ++ (b'|'
        ∷ (to_string p.version
            ++ (b'|'
                ∷ (p.from
                    ++ (b'|'
                        ∷ (p.to
                            ++ (b'|'
                                ∷ (p.body
                                    ++ (b'|'
                                        ∷ (p.key
                                            ++ (b'|'
                                                ∷ (p.timestamp ++ (b'|' ∷ p.error_msg)))))))))))))

-- operator>>. `t0` is what the uninitialised local `t` holds; the packet comes back with the
-- number read for its type and the state of the stream.
unfoldable pub extract : ℤ → IStream → ℤ × Packet × IStream
extract t0 s0 =
    let (t, s1) = read_int t0 s0 in
    let s2 = read_char s1 in
    let (v, s3) = read_int (blank login).version s2 in
    let s4 = read_char s3 in
    let (f, s5) = getline b'|' [] s4 in
    let (o, s6) = getline b'|' [] s5 in
    let (b, s7) = getline b'|' [] s6 in
    let (k, s8) = getline b'|' [] s7 in
    let (c, s9) = getline b'|' [] s8 in
    let (e, s10) = getline 10 [] s9 in
    (
      t,
      record {
        type = login;
        version = v;
        from = f;
        to = o;
        body = b;
        key = k;
        timestamp = c;
        error_msg = e;
      },
      clear_at_eof s10,
    )

-- What deserialize does with the number of the type and the state of the stream.
unfoldable pub finish : ℤ → Packet → Option PacketType → Bool → Result Packet
finish t p none fail =
    err (protocol (text "ProtocolParser: malformed packet - unknown packet type: " ++ to_string t))
finish t p (some ty) true = err (protocol (text "ProtocolParser: incomplete packet fields"))
finish t p (some ty) false = ok (record p { type = ty })

unfoldable pub deserialize : ℤ → Str → Result Packet
deserialize t0 [] = err (protocol (text "ProtocolParser: empty input"))
deserialize t0 (c ∷ s) =
    let (t, p, end) = extract t0 (open_stream (c ∷ s)) in finish t p (type_of_code t) end.fail
