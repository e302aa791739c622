-- ===== src/Handler/GroupKeyExchange/Pairs.antt =====
-- parseKeyPairsGKE of GroupKeyExchangeHandler.cpp on packets that were parsed.
use bit_atm.Prelude.{
  ◌≡◌, refl, true, Option, none, some, [], ◌∷◌, arith, leb, if◌then◌else◌, length, is_empty, Str,
  split_at, tokens-one, tokens, ℤ,
}
use bit_atm.Error.{ok}
use bit_atm.Packet.{Packet}
use bit_atm.Wire.{deserialize}
use bit_atm.Wire.Fields.{deserialize-Lacks}
use bit_atm.Handler.CreateGroup.{pairs_of, add_pair}
use bit_atm.Handler.GroupKeyExchange.{parse_key_pairs}

one_pair : (o : Option (Str × Str)) → leb (length (add_pair o [])) 1 ≡ true
one_pair none = refl
one_pair (some (u, k)) = ground arith

-- A group key exchange that arrived as a frame has at most one key pair, so the handler never
-- rotates the keys of a group on account of a client.
pub parse_key_pairs-deserialize :
    (t0 : ℤ) (s : Str) (p : Packet)
    → deserialize t0 s ≡ ok p
    → leb (length (parse_key_pairs p.key)) 1 ≡ true
unfolding parse_key_pairs tokens pairs_of
parse_key_pairs-deserialize t0 s p e =
    rw (tokens-one b'|' p.key (deserialize-Lacks t0 s p e)) (at_most_one p.key)
  where
    at_most_one : (k : Str) → leb (length (pairs_of (if is_empty k then [] else k ∷ []))) 1 ≡ true
    at_most_one [] = refl
    at_most_one (c ∷ k) = one_pair (split_at b':' (c ∷ k))
