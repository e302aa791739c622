-- ===== src/Wire/RoundTrip.antt =====
-- ProtocolParser: what deserialize makes of a text that serialize wrote.
use bit_atm.Prelude.{
  ℕ, ◌≡◌, refl, ◌∙◌, true, false, some, [], ◌∷◌, ◌++◌, ◌==◌, ==_refl, All, Str, ℤ, pos, in_int,
  to_string, read_number,
}
use bit_atm.Prelude.Int.Print.{read_number-to_string, skip_spaces-to_string, to_string-cons}
use bit_atm.Error.{ok}
use bit_atm.Packet.{PacketType, login, Packet, type_code, type_of_code}
use bit_atm.Wire.{serialize, extract, deserialize, finish}
use bit_atm.Wire.Stream.{
  open_stream, read_int, read_char, getline, clear_at_eof, take_until, int_at, took_number, line_at,
}

abbrev pub Lacks : ℕ → Str → Type 0
Lacks d s = All (λ c. (c == d) ≡ false) s

take_until-append : (d : ℕ) (s r : Str) → Lacks d s → take_until d (s ++ d ∷ r) ≡ (s, r, true)
unfolding take_until
take_until-append d [] r h = rw (==_refl d)
take_until-append d (c ∷ s) r h = rw (h.0, take_until-append d s r h.1)

take_until_end : (d : ℕ) (s : Str) → Lacks d s → take_until d s ≡ (s, [], false)
unfolding take_until
take_until_end d [] h = refl
take_until_end d (c ∷ s) h = rw (h.0, take_until_end d s h.1)

-- A field that lacks the delimiter is read back whole, and the stream goes on behind it.
getline_field :
    (d : ℕ) (s r : Str) → Lacks d s → getline d [] (open_stream (s ++ d ∷ r)) ≡ (s, open_stream r)
unfolding getline line_at take_until
getline_field d [] r h = rw (==_refl d)
getline_field d (c ∷ s) r h = rw (h.0, take_until-append d s r h.1)

int_at_lem :
    (old : ℤ) (s : Str)
    → ((c : ℕ) × (t : Str) × (s ≡ c ∷ t))
    → int_at old s ≡ took_number (read_number s).0 (read_number s).1
unfolding int_at
int_at_lem old s (c, t, e) = rw e

int_field :
    (old n : ℤ) (r : Str)
    → in_int n ≡ true
    → read_int old (open_stream (to_string n ++ b'|' ∷ r)) ≡ (n, open_stream (b'|' ∷ r))
unfolding read_int
int_field old n r h =
    let (c, t, e) = to_string-cons n in
    rw (
      skip_spaces-to_string n (b'|' ∷ r),
      int_at_lem old (to_string n ++ b'|' ∷ r) (c, t ++ b'|' ∷ r, rw e),
      read_number-to_string n b'|' r refl,
      h,
    )

bar : (r : Str) → read_char (open_stream (b'|' ∷ r)) ≡ open_stream r
unfolding read_char
bar r = refl

-- The last field may be empty, which leaves the stream failed at its end until it is cleared.
last_field :
    (s : Str)
    → Lacks 10 s
    → ((getline 10 [] (open_stream s)).0 ≡ s)
      × (clear_at_eof (getline 10 [] (open_stream s)).1 ≡ open_stream [])
unfolding getline line_at clear_at_eof take_until
last_field [] h = (refl, refl)
last_field (c ∷ s) h = (rw (h.0, take_until_end 10 s h.1), rw (h.0, take_until_end 10 s h.1))

-- The fields that the wire format can carry.
pub record IsCarried (p : Packet) : Type 0 where
  pub version : in_int p.version ≡ true
  pub from : Lacks b'|' p.from
  pub to : Lacks b'|' p.to
  pub body : Lacks b'|' p.body
  pub key : Lacks b'|' p.key
  pub timestamp : Lacks b'|' p.timestamp
  pub error_msg : Lacks 10 p.error_msg

type_code-in_int : (t : PacketType) → in_int (pos (type_code t)) ≡ true
type_code-in_int login = refl
type_code-in_int _ = refl

type_of_code-type_code : (t : PacketType) → type_of_code (pos (type_code t)) ≡ some t
type_of_code-type_code login = refl
type_of_code-type_code _ = refl

extract-serialize :
    (t0 : ℤ) (p : Packet)
    → IsCarried p
    → extract t0 (open_stream (serialize p))
      ≡ (pos (type_code p.type), record p { type = login }, open_stream [])
unfolding extract serialize
extract-serialize t0 p v = rw (
  int_field t0 (pos (type_code p.type)) _ (type_code-in_int p.type),
  bar,
  int_field (pos 1) p.version _ v.version,
  bar,
  getline_field b'|' p.from _ v.from,
  getline_field b'|' p.to _ v.to,
  getline_field b'|' p.body _ v.body,
  getline_field b'|' p.key _ v.key,
  getline_field b'|' p.timestamp _ v.timestamp,
  (last_field p.error_msg v.error_msg).0,
  (last_field p.error_msg v.error_msg).1,
)

deserialize_lem :
    (t0 : ℤ) (s : Str)
    → ((c : ℕ) × (r : Str) × (s ≡ c ∷ r))
    → deserialize t0 s
      ≡ (let (t, p, end) = extract t0 (open_stream s) in finish t p (type_of_code t) end.fail)
unfolding deserialize
deserialize_lem t0 s (c, r, e) = rw e

cons-append :
    (s t : Str) → ((c : ℕ) × (r : Str) × (s ≡ c ∷ r)) → (c : ℕ) × (r : Str) × (s ++ t ≡ c ∷ r)
cons-append s t (c, r, e) = (c, r ++ t, rw e)

serialize-cons : (p : Packet) → (c : ℕ) × (r : Str) × (serialize p ≡ c ∷ r)
unfolding serialize
serialize-cons p = cons-append _ _ (to_string-cons (pos (type_code p.type)))

-- deserialize gives back each packet that serialize wrote, of every type, if no field but the last
-- holds a bar, the last no newline, and the version is an int.
pub deserialize-serialize :
    (t0 : ℤ) (p : Packet) → IsCarried p → deserialize t0 (serialize p) ≡ ok p
unfolding finish
deserialize-serialize t0 p v =
    deserialize_lem t0 (serialize p) (serialize-cons p)
    ∙ (rw (extract-serialize t0 p v, type_of_code-type_code p.type))
