-- ===== src/Handler/Login/Attempts.antt =====
-- The flush of the offline queue in LoginHandler.cpp, and the counters of attempts.
use bit_atm.Prelude.{
  ℕ, suc, ◌≡◌, refl, ap, ◌∙◌, ◌⊎◌, inl, inr, Bool, true, Option, none, some, List, [], ◌∷◌, ◌++◌,
  map, Bool-cases, Option-cases, Str, ℤ, int_eq,
}
use bit_atm.Error.{Error, protocol, network, db, crypto, poco, std_error}
use bit_atm.Db.{Db, OfflineMessage, Message, update_where}
use bit_atm.World.{World}
use bit_atm.Action.{
  Run, done, threw, Action, after, pure, throw, gets, ◌>>=◌, ◌>>◌, try_catch, handle_run, execute,
  session, statement, next_tick, set_db, modify, go_on,
}
use bit_atm.Action.Runs.{at_tick}
use bit_atm.Action.Keeps.{Keeps, keeps_rules, Keeps-execute, Keeps-pure}
use bit_atm.Repo.OfflineQueue
use bit_atm.Repo.OfflineQueue.{count_attempt, deliver, update}
use bit_atm.Repo.Messages
use bit_atm.Handler.Login.{flush_entry, send_stored, after_failure}

-- The counters of the queue.
abbrev pub attempts : Db → List ℕ
attempts d = map (λ q. q.delivery_attempts) d.offline_queue

abbrev HasAttempts : List ℕ → Db → Type 0
HasAttempts l d = attempts d ≡ l

attempts-deliver :
    (i : ℤ) (rows : List OfflineMessage)
    → map (λ q. q.delivery_attempts) (update_where (λ q. int_eq q.id i) deliver rows)
      ≡ map (λ q. q.delivery_attempts) rows
attempts-deliver i [] = refl
attempts-deliver i (q ∷ rest) = elim (Bool-cases (int_eq q.id i)) [
  | inl e ↦ rw (e, attempts-deliver i rest)
  | inr e ↦ rw (e, attempts-deliver i rest)
]

mark_delivered-HasAttempts :
    (l : List ℕ) (i : ℤ) → Keeps (HasAttempts l) (OfflineQueue.mark_delivered i)
unfolding OfflineQueue.mark_delivered
mark_delivered-HasAttempts l i =
    Keeps-execute _ _ (λ w h. attempts-deliver i w.db.offline_queue ∙ h)

send_stored-HasAttempts :
    (l : List ℕ) (u : Str) (sid : ℕ) (q : OfflineMessage) (o : Option Message)
    → Keeps (HasAttempts l) (send_stored u sid q o)
unfolding send_stored
send_stored-HasAttempts l u sid q none = Keeps-pure tt
send_stored-HasAttempts l u sid q (some m) = search (keeps_rules, mark_delivered-HasAttempts)

after_failure_stays : (e : Error) (w : World) → after (after_failure e w) ≡ w
unfolding after_failure pure
after_failure_stays (network m) w = refl
after_failure_stays (db m) w = refl
after_failure_stays (protocol m) w = refl
after_failure_stays (crypto m) w = refl
after_failure_stays (poco m) w = refl
after_failure_stays (std_error m) w = refl

-- A statement that was executed, or a throw; the frames stay.
data Executing (f : World → Db) (w : World) (r : Run (Unit {0})) : Type 0 where
  changed : (n : ℕ) → r ≡ done tt (record w { tick = n; db = f (at_tick n w) }) → Executing f w r
  refused : (e : Error) (n : ℕ) → r ≡ threw e (at_tick n w) → Executing f w r

execute-run : (c : Str) (f : World → Db) (w : World) → Executing f w (execute c f w)
unfolding execute set_db session statement next_tick modify ◌>>=◌ pure throw gets try_catch
execute-run c f w = elim (Option-cases (w.env.session_fails w.tick)) [
  | inr (m, e) ↦ refused (db m) (suc w.tick) (rw e)
  | inl e ↦ elim (Option-cases (w.env.statement_fails (suc w.tick))) [
    | inr (m, e') ↦ refused (db (c ++ m)) (suc (suc w.tick)) (rw (e, e'))
    | inl e' ↦ changed (suc (suc w.tick)) (rw (e, e'))
  ]
]

rest-HasAttempts :
    (l : List ℕ) (u : Str) (sid : ℕ) (q : OfflineMessage)
    → Keeps
        (HasAttempts l)
        (do m ← Messages.find_by_id q.message_id; send_stored u sid q m; pure true)
unfolding Messages.find_by_id
rest-HasAttempts l u sid q = search (keeps_rules, send_stored-HasAttempts)

after_failure-HasAttempts : (l : List ℕ) (e : Error) → Keeps (HasAttempts l) (after_failure e)
after_failure-HasAttempts l e = record { at = λ w h. rw (after_failure_stays e w) h }

-- Whatever fails, a round of the flush sends no frame, or has counted an attempt at its entry and at no
-- other.
pub flush_entry_counts :
    (u : Str) (sid : ℕ) (q : OfflineMessage) (w : World)
    → ((after (flush_entry u sid q w)).sent ≡ w.sent)
      ⊎ (attempts (after (flush_entry u sid q w)).db ≡ attempts (update q.id count_attempt w.db))
unfolding flush_entry OfflineQueue.increment_attempts try_catch ◌>>=◌
flush_entry_counts u sid q w = counted (execute-run _ _ w)
  where
    rest : Action Bool
    rest = do m ← Messages.find_by_id q.message_id; send_stored u sid q m; pure true

    kept :
        Keeps
          (HasAttempts (attempts (update q.id count_attempt w.db)))
          (try_catch rest after_failure)
    kept = search (keeps_rules, rest-HasAttempts, after_failure-HasAttempts)

    counted :
        {r : Run (Unit {0})}
        → Executing (λ x. update q.id count_attempt x.db) w r
        → ((after (handle_run after_failure (go_on (λ _. rest) r))).sent ≡ w.sent)
          ⊎ (attempts (after (handle_run after_failure (go_on (λ _. rest) r))).db
              ≡ attempts (update q.id count_attempt w.db))
    counted (changed n e) =
        inr (rw e (kept.at (record w { tick = n; db = update q.id count_attempt w.db }) refl))
    counted (refused x n e) = inl (rw e (ap (λ y. y.sent) (after_failure_stays x (at_tick n w))))
