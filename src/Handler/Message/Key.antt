-- ===== src/Handler/Message/Key.antt =====
-- The two halves of a message's key field.
use bit_atm.Prelude.{◌≡◌, false, [], ◌∷◌, ◌++◌, ◌==◌, All, Str, split_at-append, split_at-none}
use bit_atm.Handler.Message.{split_key}

-- If the recipient's key has no semicolon, the key field "recipientKey;senderKey" is stored as these
-- two keys, whatever the sender's is; and a field with no semicolon is all the recipient's.
pub split_key_lem :
    (r s : Str)
    → All (λ c. (c == b';') ≡ false) r
    → (split_key (r ++ b';' ∷ s) ≡ (r, s)) × (split_key r ≡ (r, []))
unfolding split_key
split_key_lem r s h = (rw (split_at-append b';' r s h), rw (split_at-none b';' r h))
