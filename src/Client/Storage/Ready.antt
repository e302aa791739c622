-- ===== src/Client/Storage/Ready.antt =====
-- LocalStorage: statements on an open database that do not fail.
use bit_atm.Prelude.{ℕ, ◌≡◌, refl, ap, ◌∙◌, false, Option, some, Str, str_eq_refl}
use bit_atm.Client.Storage.{Tables, LocalStorage, exec_on, update, query}

-- The account's file is open and SQLite works.
pub record IsReady (file : Str) (s : LocalStorage) : Type 0 where
  pub opened : s.opened ≡ some file
  pub works : (n : ℕ) → s.sql_fails n ≡ false

module _ (file : Str) (f : Tables → Option Tables) (t : Tables) where
  exec_on-disk :
      (o : Option Str) (s : LocalStorage)
      → o ≡ some file
      → s.sql_fails s.tick ≡ false
      → f (s.disk file) ≡ some t
      → ((exec_on f o s).1.disk file ≡ t)
        × ((exec_on f o s).1.opened ≡ s.opened)
        × ((exec_on f o s).1.sql_fails ≡ s.sql_fails)
  exec_on-disk o s e w h = rw (e, w, h, str_eq_refl file) (refl, refl, refl)

module _ (file : Str) (f : Tables → Tables) (s : LocalStorage) (r : IsReady file s) where
  updated :
      ((update f s).disk file ≡ f (s.disk file))
      × ((update f s).opened ≡ s.opened)
      × ((update f s).sql_fails ≡ s.sql_fails)
  unfolding update
  updated =
      exec_on-disk file (λ t. some (f t)) (f (s.disk file)) s.opened s r.opened (r.works s.tick)
        refl

  pub disk-update : (update f s).disk file ≡ f (s.disk file)
  disk-update = updated.0

  pub update-IsReady : IsReady file (update f s)
  update-IsReady = record {
    opened = updated.1 ∙ r.opened;
    works = λ n. ap (λ g. g n) updated.2 ∙ r.works n;
  }

module _ {A : Type 0} (file : Str) (f : Tables → A) (s : LocalStorage) (r : IsReady file s) where
  pub query_lem : (query f s).0 ≡ some (f (s.disk file))
  unfolding query
  query_lem = rw (r.opened, r.works s.tick)

  pub query-IsReady : IsReady file (query f s).1
  unfolding query
  query-IsReady = record { opened = r.opened; works = r.works }

module _ (file : Str) (f g : Tables → Tables) (s : LocalStorage) (r : IsReady file s) where
  pub update_twice-IsReady : IsReady file (update g (update f s))
  update_twice-IsReady = update-IsReady file g (update f s) (update-IsReady file f s r)

  pub disk-update_twice : (update g (update f s)).disk file ≡ g (f (s.disk file))
  disk-update_twice =
      disk-update file g (update f s) (update-IsReady file f s r) ∙ ap g (disk-update file f s r)
