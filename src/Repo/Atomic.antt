-- ===== src/Repo/Atomic.antt =====
-- The two methods with a transaction: deleteConversation and replaceAllKeys.
use bit_atm.Prelude.{List, [], ◌∷◌, ◌++◌, Str, ℤ}
use bit_atm.World.{World}
use bit_atm.Db.{Db}
use bit_atm.Action.Atomic.{
  IsAllOrNothing, Changes, Changes-bind, Changes-set_db, Changes-statement, Changes-for_each, each,
  in_repo-IsAllOrNothing,
}
use bit_atm.Repo.Messages.{drop_queued, drop_messages, delete_conversation}
use bit_atm.Repo.Groups.{drop_keys, insert_key, new_key, replace_all_keys}

-- A row of group_keys.
abbrev pub put_key : ℤ → Str × Str → Db → Db
put_key g uk d = record d { group_keys = d.group_keys ++ new_key g uk.0 uk.1 ∷ [] }

insert_key-Changes : (g : ℤ) (uk : Str × Str) → Changes (put_key g uk) (insert_key g uk)
unfolding insert_key
insert_key-Changes g (u, k) =
    Changes-bind _ _ _ (λ _. Changes-set_db (put_key g (u, k))) _ Changes-statement

-- Whatever fails, deleteConversation either returns, with the queued entries and then the messages
-- of the conversation deleted, or throws with all tables as they were.
pub delete_conversation-IsAllOrNothing :
    (a b : Str) (w : World)
    → IsAllOrNothing (λ d. drop_messages a b (drop_queued a b d)) w.db (delete_conversation a b w)
unfolding delete_conversation
delete_conversation-IsAllOrNothing a b w =
    in_repo-IsAllOrNothing _ (λ d. drop_messages a b (drop_queued a b d)) _ w
      (Changes-bind _ _ _
        (λ _.
          Changes-bind _ _ _
            (λ _.
              Changes-bind _ _ _
                (λ _.
                  Changes-bind _ _ _ (λ _. Changes-statement) _
                    (Changes-set_db (drop_messages a b)))
                _ Changes-statement)
            _ (Changes-set_db (drop_queued a b)))
        _ Changes-statement)

-- Whatever fails, replaceAllKeys either returns, with exactly the given keys in place of the keys of
-- the group, in their order behind the other groups' keys, or throws with all tables as they were.
pub replace_all_keys-IsAllOrNothing :
    (g : ℤ) (pairs : List (Str × Str)) (w : World)
    → IsAllOrNothing (λ d. each (put_key g) pairs (drop_keys g d)) w.db (replace_all_keys g pairs w)
unfolding replace_all_keys
replace_all_keys-IsAllOrNothing g pairs w =
    in_repo-IsAllOrNothing _ (λ d. each (put_key g) pairs (drop_keys g d)) _ w
      (Changes-bind _ _ _
        (λ _.
          Changes-bind _ _ _
            (λ _.
              Changes-bind _ _ _ (λ _. Changes-statement) _
                (Changes-for_each (put_key g) _ pairs (insert_key-Changes g)))
            _ (Changes-set_db (drop_keys g)))
        _ Changes-statement)
