-- ===== src/Client/Sql.antt =====
-- What the client's SQLite statements do to the rows of a table, which stand in the order of
-- insertion. A key is the list of the columns that an index or a primary key names.
pub mod Unique
pub mod Sorted
use bit_atm.Prelude.{
  Bool, true, false, not, ◌&&◌, ◌||◌, List, [], ◌∷◌, ◌++◌, ltb, ◌==◌, if◌then◌else◌, select, any,
  Str, str_eq,
}
use bit_atm.Db.{update_where}

abbrev pub Key : Type 0
Key = List Str

abbrev pub key_eq : Key → Key → Bool
key_eq [] [] = true
key_eq [] (b ∷ bs) = false
key_eq (a ∷ xs) [] = false
key_eq (a ∷ xs) (b ∷ bs) = str_eq a b && key_eq xs bs

-- The BINARY collation: memcmp of the bytes, then the length.
unfoldable pub str_less : Str → Str → Bool
str_less xs [] = false
str_less [] (b ∷ bs) = true
str_less (a ∷ xs) (b ∷ bs) = let rest = str_less xs bs in ltb a b || ((a == b) && rest)

module _ {A : Type 0} where
  unfoldable pub insert_before : (A → A → Bool) → A → List A → List A
  insert_before before a [] = a ∷ []
  insert_before before a (b ∷ bs) =
      let rest = insert_before before a bs in if before b a then b ∷ rest else a ∷ b ∷ bs

  -- ORDER BY, where `before b a` puts b strictly before a; equal rows keep their order.
  unfoldable pub sort_by : (A → A → Bool) → List A → List A
  unfolding insert_before
  sort_by before [] = []
  sort_by before (a ∷ rest) = insert_before before a (sort_by before rest)

  abbrev pub has_key : (A → Key) → Key → A → Bool
  has_key key k a = key_eq (key a) k

  -- INSERT OR IGNORE, where a unique index or a primary key is on `key`.
  unfoldable pub insert_or_ignore : (A → Key) → A → List A → List A
  insert_or_ignore key a rows = if any (has_key key (key a)) rows then rows else rows ++ a ∷ []

  -- INSERT ... ON CONFLICT(key) DO UPDATE.
  unfoldable pub upsert : (A → Key) → (A → A) → A → List A → List A
  upsert key change a rows =
      if any (has_key key (key a)) rows
      then update_where (has_key key (key a)) change rows
      else rows ++ a ∷ []
