-- ===== src/Repo/Row.antt =====
-- How the repositories take rows over: a row whose first text is empty counts as no row.
use bit_atm.Prelude.{not, Option, none, some, List, if◌then◌else◌, is_empty, select, Str}

abbrev pub present : {A : Type 0} → (A → Str) → Option A → Option A
present key none = none
present key (some a) = if is_empty (key a) then none else some a

abbrev pub present_rows : {A : Type 0} → (A → Str) → List A → List A
present_rows key rows = select (λ a. not (is_empty (key a))) rows
