-- ===== src/Server/Clients/Laws.antt =====
-- addClient and removeClient of backend/src/Server.cpp as updates of a function from a username to
-- a list of sessions.
use bit_atm.Prelude.{
  ℕ, ◌≡◌, refl, sym, ap, inl, inr, Bool, true, false, List, [], ◌∷◌, ◌++◌, arith, if◌then◌else◌,
  Bool-cases, is_empty, All, Str, str_eq, str_eq_refl, str_eq→≡,
}
use bit_atm.Server.Clients.{
  ClientMap, get_sessions_for_user, add_client, remove_client, without, keep_entry,
}

-- No entry of a username.
abbrev Absent : Str → ClientMap → Type 0
Absent u m = All (λ e. str_eq e.0 u ≡ false) m

-- An unordered_map has one entry for a key, and removeClient leaves none that is empty.
abbrev pub IsClientMap : ClientMap → Type 0
IsClientMap [] = Unit {0}
IsClientMap ((v, ss) ∷ m) = Absent v m × (is_empty ss ≡ false) × IsClientMap m

get-Absent : (u : Str) (m : ClientMap) → Absent u m → get_sessions_for_user u m ≡ []
unfolding get_sessions_for_user
get-Absent u [] h = refl
get-Absent u ((v, ss) ∷ m) h = rw (h.0, get-Absent u m h.1)

add_client-Absent :
    (v u : Str) (s : ℕ) (m : ClientMap)
    → str_eq u v ≡ false
    → Absent v m
    → Absent v (add_client u s m)
unfolding add_client
add_client-Absent v u s [] e h = (e, tt)
add_client-Absent v u s ((x, ss) ∷ m) e h = elim (Bool-cases (str_eq x u)) [
  | inl hit ↦ rw hit h
  | inr miss ↦ rw miss (h.0, add_client-Absent v u s m e h.1)
]

str_eq_flip : (x u : Str) → str_eq x u ≡ false → str_eq u x ≡ false
str_eq_flip x u h = ground (arith, str_eq→≡ u x, str_eq_refl u)

append_full : (ss : List ℕ) (s : ℕ) → is_empty (ss ++ s ∷ []) ≡ false
append_full [] s = refl
append_full (x ∷ ss) s = refl

add_client-IsClientMap :
    (u : Str) (s : ℕ) (m : ClientMap) → IsClientMap m → IsClientMap (add_client u s m)
unfolding add_client
add_client-IsClientMap u s [] h = (tt, refl, tt)
add_client-IsClientMap u s ((x, ss) ∷ m) h = elim (Bool-cases (str_eq x u)) [
  | inl hit ↦ rw hit (h.0, append_full ss s, h.2)
  | inr miss ↦
      rw miss (
        add_client-Absent x u s m (str_eq_flip x u miss) h.0,
        h.1,
        add_client-IsClientMap u s m h.2,
      )
]

remove_client-Absent :
    (v u : Str) (s : ℕ) (m : ClientMap) → Absent v m → Absent v (remove_client u s m)
unfolding remove_client
remove_client-Absent v u s [] h = tt
remove_client-Absent v u s ((x, ss) ∷ m) h = elim (Bool-cases (str_eq x u)) [
  | inl hit ↦ rw hit (kept (without s ss))
  | inr miss ↦ rw miss (h.0, remove_client-Absent v u s m h.1)
]
  where
    kept : (ss : List ℕ) → Absent v (keep_entry x ss m)
    kept [] = h.1
    kept (y ∷ ys) = h

remove_client-IsClientMap :
    (u : Str) (s : ℕ) (m : ClientMap) → IsClientMap m → IsClientMap (remove_client u s m)
unfolding remove_client
remove_client-IsClientMap u s [] h = tt
remove_client-IsClientMap u s ((x, ss) ∷ m) h = elim (Bool-cases (str_eq x u)) [
  | inl hit ↦ rw hit (kept (without s ss))
  | inr miss ↦ rw miss (remove_client-Absent x u s m h.0, h.1, remove_client-IsClientMap u s m h.2)
]
  where
    kept : (ss : List ℕ) → IsClientMap (keep_entry x ss m)
    kept [] = h.2
    kept (y ∷ ys) = (h.0, refl, h.2)

other_user : (u v x : Str) → str_eq x u ≡ false → str_eq x v ≡ true → str_eq u v ≡ false
other_user u v x miss here = rw (sym (str_eq→≡ x v here)) (str_eq_flip x u miss)

at_none : (b : Bool) → ◌≡◌ {A = List ℕ} [] (if b then [] else [])
at_none true = refl
at_none false = refl

module _ (u v : Str) (s : ℕ) where
  -- addClient puts the session behind those of its user, and leaves every other user's.
  pub get_sessions_for_user-add_client :
      (m : ClientMap)
      → get_sessions_for_user v (add_client u s m)
        ≡ (if str_eq u v then get_sessions_for_user v m ++ s ∷ [] else get_sessions_for_user v m)
  unfolding add_client get_sessions_for_user
  get_sessions_for_user-add_client [] = refl
  get_sessions_for_user-add_client ((x, ss) ∷ m) = elim (Bool-cases (str_eq x u)) [
    | inl hit ↦ rw (hit, same_user hit) (at_key (str_eq u v))
    | inr miss ↦ elim (Bool-cases (str_eq x v)) [
      | inl here ↦ rw (miss, here, other_user u v x miss here)
      | inr there ↦ rw (miss, there) (get_sessions_for_user-add_client m)
    ]
  ]
    where
      same_user : str_eq x u ≡ true → str_eq x v ≡ str_eq u v
      same_user hit = rw (str_eq→≡ x u hit)

      at_key :
          (b : Bool)
          → (if b then ss ++ s ∷ [] else get_sessions_for_user v m) ≡ (
              if b
              then (if b then ss else get_sessions_for_user v m) ++ s ∷ []
              else if b
              then ss
              else get_sessions_for_user v m)
      at_key true = refl
      at_key false = refl

  kept_at :
      (x : Str) (ss : List ℕ) (m : ClientMap)
      → Absent x m
      → get_sessions_for_user v (keep_entry x ss m)
        ≡ (if str_eq x v then ss else get_sessions_for_user v m)
  unfolding get_sessions_for_user
  kept_at x (y ∷ ys) m h = refl
  kept_at x [] m h = elim (Bool-cases (str_eq x v)) [
    | inl e ↦ rw e (rw (sym (str_eq→≡ x v e)) (get-Absent x m h))
    | inr e ↦ rw e
  ]

  -- removeClient takes every copy of the session from its user, and leaves every other user's.
  pub get_sessions_for_user-remove_client :
      (m : ClientMap)
      → IsClientMap m
      → get_sessions_for_user v (remove_client u s m)
        ≡ (if str_eq u v then without s (get_sessions_for_user v m) else get_sessions_for_user v m)
  unfolding remove_client get_sessions_for_user
  get_sessions_for_user-remove_client [] h = at_none (str_eq u v)
  get_sessions_for_user-remove_client ((x, ss) ∷ m) h = elim (Bool-cases (str_eq x u)) [
    | inl hit ↦
        rw (hit, kept_at x (without s ss) m h.0, ap (λ y. str_eq y v) (str_eq→≡ x u hit))
          (at_key (str_eq u v))
    | inr miss ↦ elim (Bool-cases (str_eq x v)) [
      | inl here ↦ rw (miss, here, other_user u v x miss here)
      | inr there ↦ rw (miss, there) (get_sessions_for_user-remove_client m h.2)
    ]
  ]
    where
      at_key :
          (b : Bool)
          → (if b then without s ss else get_sessions_for_user v m) ≡ (
              if b
              then without s (if b then ss else get_sessions_for_user v m)
              else if b
              then ss
              else get_sessions_for_user v m)
      at_key true = refl
      at_key false = refl

-- Every entry keeps its own key and at least one session, whatever is added and removed.
pub client_map-IsClientMap :
    (u : Str) (s : ℕ) (m : ClientMap)
    → IsClientMap m
    → IsClientMap (add_client u s m) × IsClientMap (remove_client u s m)
client_map-IsClientMap u s m h = (add_client-IsClientMap u s m h, remove_client-IsClientMap u s m h)
