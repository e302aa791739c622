-- ===== src/Client/Network/Packets/Asked.antt =====
-- NetworkManager::requestGroupKey: the guard on requests in flight.
use bit_atm.Prelude.{◌≡◌, inl, inr, Bool, true, Bool-cases, any, Str, str_eq, str_eq_refl}
use bit_atm.Error.{ok}
use bit_atm.Client.Throwing.{returns, ◌>>=◌, gets, modify}
use bit_atm.Client.Network.{NetworkManager, emit, request, fail_with}
use bit_atm.Client.Network.Packets.{send_packet, send_as_user, request_group_key}

is_asked : Str → NetworkManager → Bool
is_asked g n = any (λ h. str_eq h g) n.pending_group_key_requests

asked_after : (g : Str) (n : NetworkManager) → is_asked g (request_group_key g n).1 ≡ true
unfolding is_asked request_group_key ◌>>=◌ gets modify send_as_user send_packet returns request
    fail_with emit
asked_after g n = elim (Bool-cases (any (λ h. str_eq h g) n.pending_group_key_requests)) [
  | inl a ↦ rw (a, a)
  | inr a ↦ elim (Bool-cases n.is_connected) [
    | inl c ↦ rw (a, c, str_eq_refl g)
    | inr c ↦ rw (a, c, str_eq_refl g)
  ]
]

unasked : (g : Str) (n : NetworkManager) → is_asked g n ≡ true → request_group_key g n ≡ (ok tt, n)
unfolding is_asked request_group_key ◌>>=◌ gets returns
unasked g n h = rw h

-- Asking for the key of a group a second time, at once, changes nothing and sends nothing.
pub request_group_key_again :
    (g : Str) (n : NetworkManager)
    → request_group_key g (request_group_key g n).1 ≡ (ok tt, (request_group_key g n).1)
request_group_key_again g n = unasked g (request_group_key g n).1 (asked_after g n)
