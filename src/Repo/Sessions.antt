-- ===== src/Repo/Sessions.antt =====
-- backend/src/SessionRepository.cpp: table sessions.
use bit_atm.Prelude.{
  ℕ, suc, ◌+◌, Bool, true, false, ◌&&◌, Option, List, [], ◌∷◌, ◌++◌, ltb, if◌then◌else◌, select,
  head?, Str, text, str_eq, ℤ, pos, int_eq,
}
use bit_atm.Db.{Session, Db, update_where}
use bit_atm.World.{World}
use bit_atm.Action.{Action, query, execute, now}
use bit_atm.Repo.Row.{present, present_rows}

-- INTERVAL '24 hours'.
abbrev pub one_day : ℕ
one_day = 86400000000

abbrev pub token_of : Session → Str
token_of s = s.session_token

unfoldable pub find_by_id : ℤ → Action (Option Session)
find_by_id id =
    query (text "SessionRepository::findById: ")
      (λ w. present token_of (head? (select (λ s. int_eq s.id id) w.db.sessions)))

unfoldable pub find_all : Action (List Session)
find_all = query (text "SessionRepository::findAll: ") (λ w. present_rows token_of w.db.sessions)

-- INSERT INTO sessions: active, for a day.
abbrev pub insert : ℤ → Str → World → Db
insert user_id token w = record w.db {
  sessions =
      w.db.sessions
      ++ record {
        id = pos (suc w.db.serials.sessions);
        user_id = user_id;
        session_token = token;
        created_at = now w;
        expires_at = now w + one_day;
        is_active = true;
      }
        ∷ [];
  serials = record (w.db.serials) { sessions = suc w.db.serials.sessions };
}

unfoldable pub save : Session → Action (Unit {0})
save s = execute (text "SessionRepository::save: ") (λ w.
    if int_eq s.id (pos 0) then insert s.user_id s.session_token w else record w.db {
      sessions =
          update_where (λ r. int_eq r.id s.id) (λ r. record r { is_active = s.is_active })
            w.db.sessions;
    })

-- session_token = $1 AND is_active = TRUE AND expires_at > NOW()
abbrev pub grants : ℕ → Str → Session → Bool
grants time token s = str_eq s.session_token token && s.is_active && ltb time s.expires_at

unfoldable pub find_by_token : Str → Action (Option Session)
find_by_token token =
    query (text "SessionRepository::findByToken: ")
      (λ w. present token_of (head? (select (grants (now w) token) w.db.sessions)))

abbrev pub deactivate : (Session → Bool) → Db → Db
deactivate p d = record d {
  sessions = update_where p (λ s. record s { is_active = false }) d.sessions;
}

unfoldable pub deactivate_all_for_user : ℤ → Action (Unit {0})
deactivate_all_for_user user_id =
    execute (text "SessionRepository::deactivateAllForUser: ")
      (λ w. deactivate (λ s. int_eq s.user_id user_id) w.db)

unfoldable pub deactivate_by_token : Str → Action (Unit {0})
deactivate_by_token token =
    execute (text "SessionRepository::deactivateByToken: ")
      (λ w. deactivate (λ s. str_eq s.session_token token) w.db)

unfoldable pub deactivate_expired : Action (Unit {0})
deactivate_expired =
    execute (text "SessionRepository::deactivateExpired: ")
      (λ w. deactivate (λ s. ltb s.expires_at (now w) && s.is_active) w.db)
