-- ===== src/Repo/Users.antt =====
-- backend/src/UserRepository.cpp: table users.
use bit_atm.Prelude.{
  suc, Option, List, [], ◌∷◌, ◌++◌, if◌then◌else◌, select, head?, Str, text, str_eq, ℤ, pos, int_eq,
}
use bit_atm.Db.{User, Db, update_where}
use bit_atm.World.{World}
use bit_atm.Action.{Action, query, execute, now}
use bit_atm.Repo.Row.{present, present_rows}

abbrev username_of : User → Str
username_of u = u.username

unfoldable pub find_by_id : ℤ → Action (Option User)
find_by_id id =
    query (text "UserRepository::findById: ")
      (λ w. present username_of (head? (select (λ u. int_eq u.id id) w.db.users)))

unfoldable pub find_all : Action (List User)
find_all = query (text "UserRepository::findAll: ") (λ w. present_rows username_of w.db.users)

-- INSERT INTO users.
abbrev insert : User → World → Db
insert u w = record w.db {
  users =
      w.db.users
      ++ record {
        id = pos (suc w.db.serials.users);
        username = u.username;
        password_hash = u.password_hash;
        public_key = u.public_key;
        last_seen = now w;
        created_at = now w;
      }
        ∷ [];
  serials = record (w.db.serials) { users = suc w.db.serials.users };
}

-- UPDATE users SET public_key, last_seen WHERE id.
abbrev update : User → World → Db
update u w = record w.db {
  users =
      update_where (λ v. int_eq v.id u.id)
        (λ v. record v { public_key = u.public_key; last_seen = now w }) w.db.users;
}

unfoldable pub save : User → Action (Unit {0})
save u =
    execute (text "UserRepository::save: ")
      (λ w. if int_eq u.id (pos 0) then insert u w else update u w)

unfoldable pub update_last_seen : Str → Action (Unit {0})
update_last_seen username = execute (text "UserRepository::updateLastSeen: ") (λ w. record w.db {
  users =
      update_where (λ v. str_eq v.username username) (λ v. record v { last_seen = now w })
        w.db.users;
})

unfoldable pub find_by_username : Str → Action (Option User)
find_by_username username =
    query (text "UserRepository::findByUsername: ")
      (λ w. present username_of (head? (select (λ u. str_eq u.username username) w.db.users)))
