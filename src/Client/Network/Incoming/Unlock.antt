-- ===== src/Client/Network/Incoming/Unlock.antt =====
-- NetworkManager::handleIncomingMessage: taking a message out of its envelope.
use bit_atm.Prelude.{ℕ, ◌≡◌, refl, ap, ◌∙◌, Str}
use bit_atm.Error.{Error, Result, ok, err}
use bit_atm.Client.Throwing.{Throwing, next, ◌>>=◌, gets, caught}
use bit_atm.Client.Crypto.{OpenSsl, Crypto, decrypt, decrypt_rsa}
use bit_atm.Client.Network.{NetworkManager, tuck, crypt}
use bit_atm.Client.Network.Incoming.{unlock}

abbrev pub at : ℕ → NetworkManager → NetworkManager
at t n = record n { tick = t }

ticked :
    {A B : Type 0} (n : NetworkManager) (f : A → OpenSsl → Crypto B) (r : Result A × ℕ)
    → (next (λ a. crypt (f a)) (tuck (λ t. at t n) r)).1
      ≡ at (next (λ a. crypt (f a)) (tuck (λ t. at t n) r)).1.tick n
unfolding crypt
ticked n f (ok a, t) = refl
ticked n f (err e, t) = refl

pub unlock_tick :
    (w body : Str) (n : NetworkManager) → (unlock w body n).1 ≡ at (unlock w body n).1.tick n
unfolding unlock ◌>>=◌ gets crypt
unlock_tick w body n =
    ticked n (λ aes_key o. decrypt o body aes_key)
      (decrypt_rsa n.env.ssl (n.env.ssl.from_base64 w) n.own_priv_key n.tick)

pub next_lem :
    {S A B : Type 0} (f : A → Throwing S B) (a : A) (r : Result A × S)
    → r.0 ≡ ok a
    → next f r ≡ f a r.1
next_lem f a (r, s) e = rw e

pub kept :
    {S A : Type 0} (h : Error → Throwing S A) (a : A) (r : Result A × S)
    → r.0 ≡ ok a
    → (caught h r).1 ≡ r.1
kept h a (r, s) e = rw e

same_plain :
    {A B : Type 0} (m n : NetworkManager) (f : A → OpenSsl → Crypto B) (r : Result A × ℕ)
    → m.env ≡ n.env
    → (next (λ a. crypt (f a)) (tuck (λ t. at t m) r)).0
      ≡ (next (λ a. crypt (f a)) (tuck (λ t. at t n) r)).0
unfolding crypt
same_plain m n f (ok a, t) e = rw e
same_plain m n f (err x, t) e = refl

rsa_same :
    (w : Str) (t : ℕ) (m n : NetworkManager)
    → m.env ≡ n.env
    → m.own_priv_key ≡ n.own_priv_key
    → decrypt_rsa m.env.ssl (m.env.ssl.from_base64 w) m.own_priv_key t
      ≡ decrypt_rsa n.env.ssl (n.env.ssl.from_base64 w) n.own_priv_key t
rsa_same w t m n e k = rw (e, k)

plain_of : Str → ℕ → NetworkManager → Result Str × ℕ → Result Str
plain_of body t n r =
    (next (λ aes_key. crypt (λ o. decrypt o body aes_key)) (tuck (λ u. at u n) r)).0

pub unlock_same :
    (w body : Str) (t : ℕ) (m n : NetworkManager)
    → m.env ≡ n.env
    → m.own_priv_key ≡ n.own_priv_key
    → (unlock w body (at t m)).0 ≡ (unlock w body (at t n)).0
unfolding unlock ◌>>=◌ gets crypt plain_of
unlock_same w body t m n e k =
    same_plain m n (λ aes_key o. decrypt o body aes_key)
      (decrypt_rsa m.env.ssl (m.env.ssl.from_base64 w) m.own_priv_key t) e
    ∙ ap (plain_of body t n) (rsa_same w t m n e k)
