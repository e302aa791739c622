-- ===== src/Server/Reject/Outsiders.antt =====
-- The group handlers of backend/src on packets of users who are not members of the group.
use bit_atm.Prelude.{
  ℕ, ◌≡◌, refl, ◌⊎◌, inl, inr, Option, none, some, [], ◌++◌, Bool-cases, is_empty, Str, text,
  str_eq, ℤ, stoi,
}
use bit_atm.Error.{protocol, db}
use bit_atm.Packet.{Packet}
use bit_atm.Db.{Session}
use bit_atm.World.{World}
use bit_atm.Action.{Action, pure, throw, gets, ◌>>=◌, skip, or_throw}
use bit_atm.Handler.Base.{base_authorize}
use bit_atm.Repo.Sessions
use bit_atm.Repo.Groups
use bit_atm.Action.{go_on, Run, done, threw}
use bit_atm.Action.Leads.{Guards, Guards-require, Guards-bind}
use bit_atm.Action.Runs.{at_tick, Asked, answered, lost, query-run}
use bit_atm.Repo.Groups
use bit_atm.Repo.Groups.{role_in}
use bit_atm.Repo.Sessions
use bit_atm.Handler.Base.{handle, base_authorize, is_authenticated}
use bit_atm.Handler.GroupMessage
use bit_atm.Handler.GroupLeave
use bit_atm.Handler.DeleteGroup
use bit_atm.Handler.GroupKeyExchange
use bit_atm.Server.Reject.{Rejected, Rejected-here}

-- The same, seen from another step.
pub earlier : {A : Type 0} (n : ℕ) (w : World) (r : Run A) → Rejected (at_tick n w) r → Rejected w r
earlier n w r x = record {
  error = x.error;
  world = x.world;
  threw_it = x.threw_it;
  app = x.app;
  tables = x.tables;
  clients = x.clients;
  sessions = x.sessions;
  sent = x.sent;
}

pub moved :
    {A B : Type 0} (w : World) (r : Run A) (k : A → Action B) (x : Rejected w r)
    → Rejected w (go_on k r)
moved w r k x = record {
  error = x.error;
  world = x.world;
  threw_it = rw x.threw_it;
  app = x.app;
  tables = x.tables;
  clients = x.clients;
  sessions = x.sessions;
  sent = x.sent;
}

-- base_authorize only moves the step on, or rejects.
data Admission (w : World) : Run (Unit {0}) → Type 0 where
  admitted : (n : ℕ) → Admission w (done tt (at_tick n w))
  denied : (r : Run (Unit {0})) → Rejected w r → Admission w r

found :
    (m : Str) (f : World → Option Session) (w : World) (r : Run (Option Session))
    → Asked f w r
    → Admission w (go_on (λ row. or_throw row m >>= λ _. skip) r)
unfolding ◌>>=◌ pure throw
found m f w r (lost t n e) = denied _ (record {
  error = db t;
  world = at_tick n w;
  threw_it = rw e;
  app = tt;
  tables = refl;
  clients = refl;
  sessions = refl;
  sent = refl;
})
found m f w r (answered n e) = rw e (row (f (at_tick n w)))
  where
    row :
        (o : Option Session)
        → Admission w (go_on {B = Unit {0}} (λ _. skip) (or_throw o m (at_tick n w)))
    row none = denied _ (earlier n w _ (Rejected-here (at_tick n w) _ m refl))
    row (some s) = admitted n

admission : (sid : ℕ) (w : World) → Admission w (base_authorize sid w)
unfolding base_authorize ◌>>=◌ gets pure throw Sessions.find_by_token
admission sid w = elim (Bool-cases (is_authenticated (w.sessions sid).state)) [
  | inr e ↦ rw e (denied _ (Rejected-here w _ _ refl))
  | inl e ↦ elim (Bool-cases (is_empty (w.sessions sid).session_token)) [
    | inl e' ↦ rw (e, e') (denied _ (Rejected-here w _ _ refl))
    | inr e' ↦ rw (e, e') (found _ _ w _ (query-run _ _ w))
  ]
]

executed :
    (k : Action (Unit {0})) (w : World)
    → ((n : ℕ) → Rejected w (k (at_tick n w)))
    → (r : Run (Unit {0})) → Admission w r
    → Rejected w (go_on (λ _. k) r)
executed k w x _ (admitted n) = x n
executed k w x _ (denied r d) = moved w r _ d

-- A handler with the base authorization, whose execution rejects at every step of the world.
module _ {C : Type 0} (validate : Packet → Action (Unit {0}))
    (execute : Packet → ℕ → Action (Unit {0})) where
  pub handle-Rejected :
      (p : Packet) (sid : ℕ) (w : World)
      → Guards C (validate p)
      → ((n : ℕ) → Rejected w (execute p sid (at_tick n w)))
      → Rejected w (
          handle
            (record { validate = validate; authorize = base_authorize; execute = execute })
            p
            sid
            w)
  unfolding handle ◌>>=◌
  handle-Rejected p sid w g x = validated (g.at w)
    where
      validated :
          ((validate p w ≡ done tt w) × C) ⊎ ((t : Str) × (validate p w ≡ threw (protocol t) w))
          → Rejected w (
              handle
                (record { validate = validate; authorize = base_authorize; execute = execute })
                p
                sid
                w)
      validated (inl (e, c)) = rw e (executed (execute p sid) w x _ (admission sid w))
      validated (inr (t, e)) = Rejected-here w _ t (rw e)

-- The role is read, and the guard on it fails.
pub refused_role :
    (g : ℤ) (u r t : Str) (k : Str → Action (Unit {0})) (w : World)
    → role_in g u w.db ≡ r
    → ((n : ℕ) → k r (at_tick n w) ≡ threw (protocol t) (at_tick n w))
    → Rejected w ((Groups.get_member_role g u >>= k) w)
unfolding ◌>>=◌ Groups.get_member_role
refused_role g u r t k w there refuses = read (query-run _ _ w)
  where
    read : {r : Run Str} → Asked (λ x. role_in g u x.db) w r → Rejected w (go_on k r)
    read (lost m n e) = record {
      error = db m;
      world = at_tick n w;
      threw_it = rw e;
      app = tt;
      tables = refl;
      clients = refl;
      sessions = refl;
      sent = refl;
    }
    read (answered n e) =
        earlier n w _ (Rejected-here (at_tick n w) _ t (rw (e, there) (refuses n)))

module _ (p : Packet) (sid : ℕ) (w : World) (g : ℤ) (number : stoi p.to ≡ some g)
    (outside : role_in g (w.sessions sid).username w.db ≡ []) (n : ℕ) where
  message_refused : Rejected w (GroupMessage.execute_group_message p sid (at_tick n w))
  unfolding GroupMessage.execute_group_message ◌>>=◌ pure throw gets
  message_refused =
      rw number (earlier n w _ (refused_role g _ _ _ _ (at_tick n w) outside (λ m. refl)))

  delete_refused : Rejected w (DeleteGroup.execute_delete p sid (at_tick n w))
  unfolding DeleteGroup.execute_delete ◌>>=◌ pure throw gets
  delete_refused =
      rw number (earlier n w _ (refused_role g _ _ _ _ (at_tick n w) outside (λ m. refl)))

  leave_refused : Rejected w (GroupLeave.execute_leave p sid (at_tick n w))
  unfolding GroupLeave.execute_leave GroupLeave.remove_target ◌>>=◌ pure throw gets
  leave_refused =
      rw number
        (moved w _ _ (earlier n w _ (refused_role g _ _ _ _ (at_tick n w) outside (λ m. refl))))

  exchange_refused : Rejected w (GroupKeyExchange.execute_key_exchange p sid (at_tick n w))
  unfolding GroupKeyExchange.execute_key_exchange GroupKeyExchange.recover
      GroupKeyExchange.distribute ◌>>=◌ pure throw gets text str_eq
  exchange_refused = rw number (elim (Bool-cases (is_empty p.key)) [
    | inl e ↦ earlier n w _ (
        refused_role g _ _ (text "GROUP_KEY_EXCHANGE: requester is not a member of group " ++ p.to)
          _ (at_tick n w) outside (λ m. rw e))
    | inr e ↦ earlier n w _ (
        refused_role g _ _ (text "GROUP_KEY_EXCHANGE: only creator or admin may distribute keys") _
          (at_tick n w) outside (λ m. rw e))
  ])

-- A packet whose 'to' is the number of a group in which the session's user has no row: GROUP_MESSAGE,
-- GROUP_KEY_EXCHANGE, GROUP_LEAVE and DELETE_GROUP each throw an exception that the connection
-- answers, and no table, client, session or frame is touched, whatever fails.
pub outsider-Rejected :
    (p : Packet) (sid : ℕ) (w : World) (g : ℤ)
    → stoi p.to ≡ some g
    → role_in g (w.sessions sid).username w.db ≡ []
    → Rejected w (handle GroupMessage.handler p sid w)
      × Rejected w (handle GroupKeyExchange.handler p sid w)
      × Rejected w (handle GroupLeave.handler p sid w)
      × Rejected w (handle DeleteGroup.handler p sid w)
unfolding GroupMessage.handler GroupKeyExchange.handler GroupLeave.handler DeleteGroup.handler
    GroupMessage.validate GroupKeyExchange.validate GroupLeave.validate DeleteGroup.validate
outsider-Rejected p sid w g e o = (
  handle-Rejected _ _ p sid w
      (Guards-bind _ _ (Guards-require _ _)
        (Guards-bind _ _ (Guards-require _ _) (Guards-require _ _)))
      (message_refused p sid w g e o),
  handle-Rejected _ _ p sid w (Guards-require _ _) (exchange_refused p sid w g e o),
  handle-Rejected _ _ p sid w (Guards-require _ _) (leave_refused p sid w g e o),
  handle-Rejected _ _ p sid w (Guards-require _ _) (delete_refused p sid w g e o),
)
