-- ===== src/Client/Network/Invites/Arrived.antt =====
-- NetworkManager: after the key of a group has arrived, nothing waits for it.
use bit_atm.Prelude.{
  ◌≡◌, refl, sym, ap, ◌∙◌, inl, inr, true, false, not, List, [], ◌∷◌, arith, Bool-cases, none, map,
  select, any, All, Str, str_eq, str_eq_refl, str_eq→≡,
}
use bit_atm.Error.{Error, Result, ok}
use bit_atm.Packet.{Packet}
use bit_atm.Client.Sql.{key_eq}
use bit_atm.Client.Sql.Unique.{Keyed}
use bit_atm.Client.Map.{Map, insert, lookup, contains, value, remove, or_empty}
use bit_atm.Client.Throwing.{returns, ◌>>=◌, ◌>>◌, gets, modify, skip, try_catch, caught, for_each}
use bit_atm.Client.Crypto.{decrypt_rsa}
use bit_atm.Client.Network.{NetworkManager, Net, crypt, store, emit}
use bit_atm.Client.Network.Incoming.Unlock.{next_lem}
use bit_atm.Client.Network.GroupKeys.{send_group_message}
use bit_atm.Client.Network.GroupMessages.{handle_group_message}
use bit_atm.Client.Network.Invites.{
  drain, take_key, save_key, key_arrived, handle_group_invite, handle_group_key_exchange,
}
use bit_atm.Client.Network.Invites.Waiting.{Waits}
use bit_atm.Client.Network.Invites.Drained.{
  handle_group_message-Passes, send_group_message-Passes, for_each-Passes,
}

-- A QMap has one value for a key.
abbrev pub IsQMap : {V : Type 0} → Map V → Type 0
IsQMap {V} m = Keyed (λ (e : Str × V). e.0 ∷ []) m

no_entry :
    {A : Type 0} (g : Str) (m : Map (List A))
    → All (λ k. key_eq k (g ∷ []) ≡ false) (map (λ (e : Str × List A). e.0 ∷ []) m)
    → lookup g m ≡ none
unfolding lookup
no_entry g [] h = refl
no_entry g ((j, w) ∷ m) (h, hs) = ground (arith, no_entry g m hs)

value-remove : {A : Type 0} (g : Str) (m : Map (List A)) → IsQMap m → value g (remove g m) ≡ []
unfolding value lookup remove
value-remove g [] u = refl
value-remove g ((j, w) ∷ m) (u, us) = elim (Bool-cases (str_eq j g)) [
  | inl e ↦
      rw e (ap (λ k. or_empty (lookup k m)) (sym (str_eq→≡ j g e)) ∙ ap or_empty (no_entry j m u))
  | inr e ↦ rw (e, e) (value-remove g m us)
]

any-select :
    (g : Str) (l : List Str) → any (λ h. str_eq h g) (select (λ h. not (str_eq h g)) l) ≡ false
any-select g [] = refl
any-select g (h ∷ l) = ground (arith, any-select g l)

contains-insert_same : {V : Type 0} (g : Str) (v : V) (m : Map V) → contains g (insert g v m) ≡ true
unfolding contains insert
contains-insert_same g v [] = rw (str_eq_refl g)
contains-insert_same g v ((j, w) ∷ m) = ground (arith, str_eq_refl g, contains-insert_same g v m)

module _ (g : Str) where
  -- The key of the group is there, and neither a packet nor a message nor a request waits for it.
  abbrev pub Settled : NetworkManager → Type 0
  Settled = Waits g (λ sends. value g sends ≡ [])

  -- What `drain` does behind the packets.
  send_waiting : Net (Unit {0})
  unfolding ◌>>=◌ gets modify for_each value remove send_group_message
  send_waiting = do
    sends ← gets (λ n. value g n.pending_group_sends)
    modify (λ n. record n { pending_group_sends = remove g n.pending_group_sends })
    for_each (λ m. send_group_message g m.0 m.1) sends

  send_waiting-Settled :
      (n : NetworkManager)
      → Waits g (λ sends. value g (remove g sends) ≡ []) n
      → ((send_waiting n).0 ≡ ok tt) × Settled (send_waiting n).1
  unfolding send_waiting ◌>>=◌ gets modify
  send_waiting-Settled n w =
      for_each-Passes g (λ m. value g m ≡ []) (λ m. send_group_message g m.0 m.1)
        (value g n.pending_group_sends)
        (λ m x v. send_group_message-Passes g (λ m. value g m ≡ []) m.0 m.1 x v)
        (record n { pending_group_sends = remove g n.pending_group_sends }) w

  drain-Settled :
      (n : NetworkManager)
      → contains g n.group_keys ≡ true
      → any (λ h. str_eq h g) n.pending_group_key_requests ≡ false
      → IsQMap n.pending_group_packets
      → IsQMap n.pending_group_sends
      → ((drain g n).0 ≡ ok tt) × Settled (drain g n).1
  unfolding drain send_waiting ◌>>=◌ gets modify
  drain-Settled n key asked packets sends =
      let (ran, opened) =
        for_each-Passes g (λ m. value g (remove g m) ≡ []) handle_group_message
          (value g n.pending_group_packets)
          (λ p m w. handle_group_message-Passes g (λ m. value g (remove g m) ≡ []) p m w)
          (record n { pending_group_packets = remove g n.pending_group_packets })
          (
            key,
            value-remove g n.pending_group_packets packets,
            asked,
            value-remove g n.pending_group_sends sends,
          ) in
      rw
        (next_lem (λ u. send_waiting) tt
          (for_each handle_group_message (value g n.pending_group_packets)
            (record n { pending_group_packets = remove g n.pending_group_packets }))
          ran)
        (send_waiting-Settled _ opened)

  key_arrived-Settled :
      (n : NetworkManager)
      → contains g n.group_keys ≡ true
      → IsQMap n.pending_group_packets
      → IsQMap n.pending_group_sends
      → ((key_arrived g n).0 ≡ ok tt) × Settled (key_arrived g n).1
  unfolding key_arrived ◌>>=◌ modify emit
  key_arrived-Settled n key packets sends =
      drain-Settled _ key (any-select g n.pending_group_key_requests) packets sends

kept-Settled :
    (g : Str) (h : Error → Net (Unit {0})) (r : Result (Unit {0}) × NetworkManager)
    → (r.0 ≡ ok tt) × Settled g r.1
    → Settled g (caught h r).1
kept-Settled g h (r, n) (ran, settled) = rw ran settled

module _ (g wrapped aes_key : Str) (n : NetworkManager) where
  keyed : NetworkManager
  keyed = record n {
    tick = (decrypt_rsa n.env.ssl (n.env.ssl.from_base64 wrapped) n.own_priv_key n.tick).1;
    group_keys = insert g aes_key n.group_keys;
  }

  take_key_lem :
      (decrypt_rsa n.env.ssl (n.env.ssl.from_base64 wrapped) n.own_priv_key n.tick).0 ≡ ok aes_key
      → take_key g wrapped n ≡ (ok aes_key, keyed)
  unfolding take_key ◌>>=◌ gets modify returns crypt keyed
  take_key_lem h =
      next_lem (λ k. modify (λ n. record n { group_keys = insert g k n.group_keys }) >> returns k)
        aes_key _ h

-- If the private key unwraps the key field of a GROUP_KEY_EXCHANGE or of a GROUP_INVITE, and the maps
-- of waiting packets and messages have one entry for a group, then after it was handled the client
-- has a key of the group, no packet of the group and no message to it waits, and the key is not
-- asked for any more.
pub key_arrives-Settled :
    (p : Packet) (aes_key : Str) (n : NetworkManager)
    → (decrypt_rsa n.env.ssl (n.env.ssl.from_base64 p.key) n.own_priv_key n.tick).0 ≡ ok aes_key
    → IsQMap n.pending_group_packets
    → IsQMap n.pending_group_sends
    → Settled p.to (handle_group_key_exchange p n).1 × Settled p.body (handle_group_invite p n).1
unfolding handle_group_key_exchange handle_group_invite try_catch ◌>>=◌ save_key gets store emit
    modify keyed
key_arrives-Settled p aes_key n h packets sends = (
  rw (take_key_lem p.to p.key aes_key n h) (
      kept-Settled p.to (λ e. skip) _
        (key_arrived-Settled p.to _ (contains-insert_same p.to aes_key n.group_keys) packets
          sends)),
  rw (take_key_lem p.body p.key aes_key n h) (
      kept-Settled p.body (λ e. skip) _
        (key_arrived-Settled p.body _ (contains-insert_same p.body aes_key n.group_keys) packets
          sends)),
)
