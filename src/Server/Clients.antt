-- ===== src/Server/Clients.antt =====
-- Server's map from a username to its active sessions (addClient, removeClient, findClient,
-- getSessionsForUser), an unordered_map as an association list.
pub mod Laws
use bit_atm.Prelude.{
  ℕ, not, Option, List, [], ◌∷◌, ◌++◌, ◌==◌, if◌then◌else◌, select, head?, Str, str_eq,
}

abbrev pub ClientMap : Type 0
ClientMap = List (Str × List ℕ)

unfoldable pub get_sessions_for_user : Str → ClientMap → List ℕ
get_sessions_for_user u [] = []
get_sessions_for_user u ((v, ss) ∷ m) =
    let rest = get_sessions_for_user u m in if str_eq v u then ss else rest

-- findClient: the first session, or nullptr.
unfoldable pub find_client_in : Str → ClientMap → Option ℕ
find_client_in u m = head? (get_sessions_for_user u m)

-- _clients[username].push_back(session)
unfoldable pub add_client : Str → ℕ → ClientMap → ClientMap
add_client u s [] = (u, s ∷ []) ∷ []
add_client u s ((v, ss) ∷ m) =
    let rest = add_client u s m in if str_eq v u then (v, ss ++ s ∷ []) ∷ m else (v, ss) ∷ rest

-- An entry with no session is erased.
abbrev keep_entry : Str → List ℕ → ClientMap → ClientMap
keep_entry v [] m = m
keep_entry v (s ∷ ss) m = (v, s ∷ ss) ∷ m

-- Every copy of the session goes.
abbrev pub without : ℕ → List ℕ → List ℕ
without s ss = select (λ x. not (x == s)) ss

unfoldable pub remove_client : Str → ℕ → ClientMap → ClientMap
remove_client u s [] = []
remove_client u s ((v, ss) ∷ m) =
    let rest = remove_client u s m in
    if str_eq v u then keep_entry v (without s ss) m else (v, ss) ∷ rest
