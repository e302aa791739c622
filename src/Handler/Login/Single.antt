-- ===== src/Handler/Login/Single.antt =====
-- The session that a login opens (backend/src/LoginHandler.cpp).
use bit_atm.Prelude.{
  ℕ, suc, ◌≡◌, refl, inl, inr, Bool, true, false, not, ◌&&◌, some, List, [], ◌∷◌, ◌++◌, ◌==◌,
  if◌then◌else◌, ==_refl, Bool-cases, All, Str, str_eq, str_eq_refl, ℤ, int_eq, int_eq_refl,
}
use bit_atm.World.{World, authenticated}
use bit_atm.Db.{Session, update_where}
use bit_atm.Action.{done, pure, throw, gets, ◌>>=◌, modify, next_tick}
use bit_atm.Action.Quiet.{IsQuiet, execute-IsQuiet}
use bit_atm.Action.Runs.{at_tick}
use bit_atm.Repo.Sessions
use bit_atm.Handler.Password.{to_hex, login_token, random}
use bit_atm.Handler.Login.{open_session, authenticate}

-- An active row of the user has the token.
abbrev pub OnlyToken : ℤ → Str → Session → Type 0
OnlyToken user_id token s =
    (s.is_active && int_eq s.user_id user_id && not (str_eq s.session_token token)) ≡ false

no_longer : {c : Bool} (a b : Bool) → c ≡ false → (a && c && b) ≡ false
no_longer true b e = rw e
no_longer false b e = refl

only_after :
    (i : ℤ) (token : Str) (rows : List Session) (s : Session)
    → OnlyToken i token s
    → All (OnlyToken i token) (
        update_where (λ s. int_eq s.user_id i) (λ s. record s { is_active = false }) rows ++ s ∷ [])
only_after i token [] s h = (h, tt)
only_after i token (r ∷ rest) s h = elim (Bool-cases (int_eq r.user_id i)) [
  | inl e ↦ rw e (refl, only_after i token rest s h)
  | inr e ↦
      rw e
        (no_longer r.is_active (not (str_eq r.session_token token)) e, only_after i token rest s h)
]

-- The world behind a login's session.
abbrev opened : Str → ℤ → ℕ → World → Str → World
opened username user_id sid w token = record w {
  tick = suc (suc (suc (suc (suc w.tick))));
  db = Sessions.insert user_id token (record w {
    tick = suc (suc (suc (suc (suc w.tick))));
    db = Sessions.deactivate (λ s. int_eq s.user_id user_id) w.db;
  });
  sessions = λ n.
      if n == sid
      then record { state = authenticated; username = username; session_token = token }
      else w.sessions n;
}

open_session-run :
    (username : Str) (user_id : ℤ) (sid : ℕ) (w : World) (raw : Str)
    → IsQuiet w.env
    → w.env.rand_bytes w.tick 32 ≡ some raw
    → open_session username user_id sid w
      ≡ done (to_hex raw) (opened username user_id sid w (to_hex raw))
unfolding open_session login_token random authenticate next_tick modify ◌>>=◌ pure throw gets
    Sessions.save Sessions.deactivate_all_for_user int_eq
open_session-run username user_id sid w raw q e = rw (
  e,
  execute-IsQuiet (at_tick (suc w.tick) w) q,
  execute-IsQuiet
      (record w {
        tick = suc (suc (suc w.tick));
        db = Sessions.deactivate (λ s. int_eq s.user_id user_id) w.db;
      })
      q,
)

-- In an environment in which nothing fails and the random source gives bytes, opening a session
-- returns the bytes in hexadecimal; after it every active session row of the user has that token,
-- and the connection is authenticated as the user with it.
pub open_session-OnlyToken :
    (username : Str) (user_id : ℤ) (sid : ℕ) (w : World) (raw : Str)
    → IsQuiet w.env
    → w.env.rand_bytes w.tick 32 ≡ some raw
    → (x : World) × (open_session username user_id sid w ≡ done (to_hex raw) x)
      × All (OnlyToken user_id (to_hex raw)) x.db.sessions
      × (x.sessions sid
          ≡ record { state = authenticated; username = username; session_token = to_hex raw })
open_session-OnlyToken username user_id sid w raw q e = (
  opened username user_id sid w (to_hex raw),
  open_session-run username user_id sid w raw q e,
  only_after user_id (to_hex raw) w.db.sessions _
      (rw (str_eq_refl (to_hex raw), int_eq_refl user_id)),
  rw (==_refl sid),
)
