-- ===== src/Client/Network/Invites/Drained.antt =====
-- NetworkManager: what handleGroupMessage and sendGroupMessage do to the packets and messages that
-- wait for the key of a group that is there.
use bit_atm.Prelude.{
  ◌≡◌, refl, inl, inr, Bool, true, false, List, [], ◌∷◌, ◌++◌, if◌then◌else◌, Bool-cases, is_empty,
  Str, text,
}
use bit_atm.Error.{Error, Result, ok, err, what}
use bit_atm.Packet.{Packet}
use bit_atm.Client.Map.{Map, contains}
use bit_atm.Client.Throwing.{returns, ◌>>=◌, gets, modify, skip, try_catch, caught, for_each}
use bit_atm.Client.Throwing.Keeps.{Keeps, Keeps-returns, Keeps-try_catch}
use bit_atm.Client.Network.{NetworkManager, Net, utc_now, emit, fail_with}
use bit_atm.Client.Network.Incoming.{packet_time}
use bit_atm.Client.Network.Incoming.Unlock.{next_lem}
use bit_atm.Client.Network.GroupKeys.{send_group_message}
use bit_atm.Client.Network.GroupMessages.{open_group_message, with_stored_key, handle_group_message}
use bit_atm.Client.Network.Invites.Waiting.{
  Waits, fail_with-Keeps, open_group_message-Keeps, encrypt_for_group-Keeps, with_stored_key-Keeps,
  other_group,
}

module _ (g : Str) (R : Map (List (Str × Str)) → Type 0) where
  -- A computation that returns and keeps what waits.
  abbrev pub Passes : Net (Unit {0}) → NetworkManager → Type 0
  Passes m n = ((m n).0 ≡ ok tt) × Waits g R (m n).1

  caught_ok :
      (h : Error → Net (Unit {0}))
      → ((e : Error) (n : NetworkManager) → (h e n).0 ≡ ok tt)
      → (r : Result (Unit {0}) × NetworkManager) → (caught h r).0 ≡ ok tt
  caught_ok h k (ok a, n) = refl
  caught_ok h k (err e, n) = k e n

  try_catch-Passes :
      (m : Net (Unit {0})) (h : Error → Net (Unit {0}))
      → ((e : Error) (n : NetworkManager) → (h e n).0 ≡ ok tt)
      → Keeps (Waits g R) m
      → ((e : Error) → Keeps (Waits g R) (h e))
      → (n : NetworkManager) → Waits g R n
      → Passes (try_catch m h) n
  unfolding try_catch
  try_catch-Passes m h k km kh n w = (caught_ok h k (m n), (Keeps-try_catch m h km kh).at n w)

  opened_or_buffered :
      (p : Packet) (ts k : Str) (n : NetworkManager)
      → Waits g R n
      → (known : Bool) → contains p.to n.group_keys ≡ known
      → Passes
          (try_catch
            (if known then open_group_message p ts k else with_stored_key p ts)
            (λ e. skip))
          n
  unfolding returns
  opened_or_buffered p ts k n w true e =
      try_catch-Passes _ _ (λ x m. refl) (open_group_message-Keeps g R p ts k)
        (λ x. Keeps-returns tt) n w
  opened_or_buffered p ts k n w false e =
      try_catch-Passes _ _ (λ x m. refl)
        (with_stored_key-Keeps g R p ts (other_group g R p.to n.group_keys w.0 e))
        (λ x. Keeps-returns tt) n w

  pub handle_group_message-Passes :
      (p : Packet) (n : NetworkManager) → Waits g R n → Passes (handle_group_message p) n
  unfolding handle_group_message ◌>>=◌ gets packet_time utc_now
  handle_group_message-Passes p n w = elim (Bool-cases (is_empty p.timestamp)) [
    | inl e ↦ rw e (opened_or_buffered p _ _ _ w _ refl)
    | inr e ↦ rw e (opened_or_buffered p _ _ n w _ refl)
  ]

  fail_with_ok : (t : Str) (n : NetworkManager) → (fail_with t n).0 ≡ ok tt
  unfolding fail_with ◌>>=◌ modify emit
  fail_with_ok t n = refl

  pub send_group_message-Passes :
      (m ts : Str) (n : NetworkManager) → Waits g R n → Passes (send_group_message g m ts) n
  unfolding send_group_message ◌>>=◌ gets
  send_group_message-Passes m ts n w = rw w.0 (
      try_catch-Passes _ _ (λ e x. fail_with_ok (text "sendGroupMessage failed: " ++ what e) x)
        (encrypt_for_group-Keeps g R g m ts) (λ e. fail_with-Keeps g R _) n w)

  pub for_each-Passes :
      {A : Type 0} (f : A → Net (Unit {0})) (l : List A)
      → ((a : A) (n : NetworkManager) → Waits g R n → Passes (f a) n)
      → (n : NetworkManager) → Waits g R n
      → Passes (for_each f l) n
  unfolding for_each ◌>>=◌ returns
  for_each-Passes f [] k n w = (refl, w)
  for_each-Passes f (a ∷ l) k n w =
      let (ran, later) = k a n w in
      rw (next_lem (λ u. for_each f l) tt (f a n) ran) (for_each-Passes f l k (f a n).1 later)
