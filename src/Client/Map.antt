-- ===== src/Client/Map.antt =====
-- QMap from QString, as a list in the order of its keys, which is taken to be that of their bytes.
use bit_atm.Prelude.{
  Bool, true, false, Option, none, some, List, [], ◌∷◌, if◌then◌else◌, Str, str_eq,
}
use bit_atm.Client.Sql.{str_less}

abbrev pub Map : Type 0 → Type 0
Map V = List (Str × V)

module _ {V : Type 0} where
  unfoldable pub insert : Str → V → Map V → Map V
  unfolding str_less
  insert k v [] = (k, v) ∷ []
  insert k v ((j, w) ∷ m) =
      let later = insert k v m in
      if str_eq j k
      then (k, v) ∷ m
      else if str_less k j
      then (k, v) ∷ (j, w) ∷ m
      else (j, w) ∷ later

  unfoldable pub lookup : Str → Map V → Option V
  lookup k [] = none
  lookup k ((j, w) ∷ m) = let later = lookup k m in if str_eq j k then some w else later

  unfoldable pub contains : Str → Map V → Bool
  contains k [] = false
  contains k ((j, w) ∷ m) = let later = contains k m in if str_eq j k then true else later

  unfoldable pub remove : Str → Map V → Map V
  remove k [] = []
  remove k ((j, w) ∷ m) = let later = remove k m in if str_eq j k then m else (j, w) ∷ later

abbrev pub or_empty : {A : Type 0} → Option (List A) → List A
or_empty none = []
or_empty (some l) = l

-- map.value(key) of texts and lists, empty on a missing key.
unfoldable pub value : {A : Type 0} → Str → Map (List A) → List A
unfolding lookup
value k m = or_empty (lookup k m)
