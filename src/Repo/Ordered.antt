-- ===== src/Repo/Ordered.antt =====
-- The methods of the repositories and the rows of group_message_receipts: a row that is seen
-- should be delivered.
use bit_atm.Prelude.{
  ℕ, ◌≡◌, refl, inl, inr, Bool, true, false, not, ◌&&◌, ◌||◌, Option, none, some, List, [], ◌∷◌,
  ◌++◌, Bool-cases, select, any, All, Str, str_eq, ℤ, pos, int_eq,
}
use bit_atm.Db.{Db, Session, User, OfflineMessage, Message, GroupReceipt, update_where}
use bit_atm.Action.{now, set_db}
use bit_atm.Action.Keeps.{
  Keeps, Keeps-gets, Keeps-cast_timestamp, keeps_rules, Keeps-set_db, Keeps-execute,
}
use bit_atm.Repo.Receipts
use bit_atm.Repo.Receipts.{
  at_time, same_receipt, mark_rows, coalesce, mark_delivered_at, mark_seen_at,
}
use bit_atm.Repo.Groups
use bit_atm.Repo.Users
use bit_atm.Repo.Messages
use bit_atm.Repo.OfflineQueue
use bit_atm.Repo.Sessions
use bit_atm.Repo.Pending

abbrev has : Option ℕ → Bool
has none = false
has (some t) = true

abbrev pub SeenIsDelivered : GroupReceipt → Type 0
SeenIsDelivered r = (not (has r.seen_at) || has r.delivered_at) ≡ true

abbrev pub IsOrdered : Db → Type 0
IsOrdered d = All SeenIsDelivered d.group_message_receipts

pub All-select :
    (p : GroupReceipt → Bool) (rows : List GroupReceipt)
    → All SeenIsDelivered rows
    → All SeenIsDelivered (select p rows)
All-select p [] h = tt
All-select p (r ∷ rest) h = elim (Bool-cases (p r)) [
  | inl e ↦ rw e (h.0, All-select p rest h.1)
  | inr e ↦ rw e (All-select p rest h.1)
]

All-update :
    (p : GroupReceipt → Bool) (f : GroupReceipt → GroupReceipt) (rows : List GroupReceipt)
    → ((r : GroupReceipt) → SeenIsDelivered r → SeenIsDelivered (f r))
    → All SeenIsDelivered rows
    → All SeenIsDelivered (update_where p f rows)
All-update p f [] k h = tt
All-update p f (r ∷ rest) k h = elim (Bool-cases (p r)) [
  | inl e ↦ rw e (k r h.0, All-update p f rest k h.1)
  | inr e ↦ rw e (h.0, All-update p f rest k h.1)
]

All-append :
    (rows : List GroupReceipt) (r : GroupReceipt)
    → All SeenIsDelivered rows
    → SeenIsDelivered r
    → All SeenIsDelivered (rows ++ r ∷ [])
All-append [] r h k = (k, tt)
All-append (x ∷ rest) r h k = (h.0, All-append rest r h.1 k)

has-coalesce : (o : Option ℕ) (t : ℕ) → has (coalesce o t) ≡ true
has-coalesce none t = refl
has-coalesce (some s) t = refl

or_true : (b : Bool) → (b || true) ≡ true
or_true true = refl
or_true false = refl

mark_delivered_at-Seen :
    (t : ℕ) (r : GroupReceipt) → SeenIsDelivered r → SeenIsDelivered (mark_delivered_at t r)
mark_delivered_at-Seen t r h = rw (has-coalesce r.delivered_at t, or_true (not (has r.seen_at)))

mark_seen_at-Seen : (t : ℕ) (r : GroupReceipt) → SeenIsDelivered (mark_seen_at t r)
mark_seen_at-Seen t r =
    rw (has-coalesce r.delivered_at t, or_true (not (has (coalesce r.seen_at t))))

module _ (g : ℤ) (u : Str) where
  pub add_member-IsOrdered : (r : Str) → Keeps IsOrdered (Groups.add_member g u r)
  unfolding Groups.add_member
  add_member-IsOrdered r = search (keeps_rules, Keeps-execute)

  pub remove_member-IsOrdered : Keeps IsOrdered (Groups.remove_member g u)
  unfolding Groups.remove_member
  remove_member-IsOrdered = search (keeps_rules, Keeps-set_db) depth 12

  pub save_key-IsOrdered : (k : Str) → Keeps IsOrdered (Groups.save_key g u k)
  unfolding Groups.save_key
  save_key-IsOrdered k = search (keeps_rules, Keeps-execute)

  pub update_role-IsOrdered : (r : Str) → Keeps IsOrdered (Groups.update_role g u r)
  unfolding Groups.update_role
  update_role-IsOrdered r = search (keeps_rules, Keeps-execute)

  pub delete_receipts_for_member-IsOrdered :
      Keeps IsOrdered (Receipts.delete_receipts_for_member g u)
  unfolding Receipts.delete_receipts_for_member
  delete_receipts_for_member-IsOrdered = Keeps-execute _ _ (λ w h. All-select _ _ h)

  pub save_message-IsOrdered : (b t : Str) → Keeps IsOrdered (Groups.save_message g u b t)
  unfolding Groups.save_message
  save_message-IsOrdered b t = search (keeps_rules, Keeps-set_db) depth 12

pub create_group-IsOrdered : (n c : Str) → Keeps IsOrdered (Groups.create_group n c)
unfolding Groups.create_group
create_group-IsOrdered n c = search (keeps_rules, Keeps-set_db) depth 12

module _ (f : ℕ → GroupReceipt → GroupReceipt)
    (keeps : (t : ℕ) (r : GroupReceipt) → SeenIsDelivered r → SeenIsDelivered (f t r)) where
  mark_rows-IsOrdered : (g : ℤ) (ts u : Str) → Keeps IsOrdered (set_db (mark_rows f g ts u))
  mark_rows-IsOrdered g ts u = Keeps-set_db _ (λ w h.
      All-update
        (λ r.
          str_eq r.username u
          && any (λ m. at_time w.env g ts m && int_eq m.id r.message_id) w.db.group_messages)
        (f (now w)) w.db.group_message_receipts (keeps (now w)) h)

  mark_receipt-IsOrdered :
      (c : Str) (g : ℤ) (ts u : Str) → Keeps IsOrdered (Receipts.mark_receipt f c g ts u)
  unfolding Receipts.mark_receipt
  mark_receipt-IsOrdered c g ts u = search (keeps_rules, mark_rows-IsOrdered) depth 12

pub mark_receipt_delivered-IsOrdered :
    (g : ℤ) (t u : Str) → Keeps IsOrdered (Receipts.mark_receipt_delivered g t u)
unfolding Receipts.mark_receipt_delivered
mark_receipt_delivered-IsOrdered = mark_receipt-IsOrdered mark_delivered_at mark_delivered_at-Seen _

pub mark_receipt_seen-IsOrdered :
    (g : ℤ) (t u : Str) → Keeps IsOrdered (Receipts.mark_receipt_seen g t u)
unfolding Receipts.mark_receipt_seen
mark_receipt_seen-IsOrdered = mark_receipt-IsOrdered mark_seen_at (λ t r h. mark_seen_at-Seen t r) _

insert_receipt-IsOrdered :
    (i : ℤ) (u : Str) (d : Db) → IsOrdered d → IsOrdered (Receipts.insert_receipt i u d)
insert_receipt-IsOrdered i u d h =
    elim (Bool-cases
      (any (λ r. int_eq r.message_id i && str_eq r.username u) d.group_message_receipts)) [
        | inl e ↦ rw e h
        | inr e ↦ rw e (All-append _ _ h refl)
      ]

add_receipt-IsOrdered :
    (i : ℤ) (u : Str) → Keeps IsOrdered (set_db (λ w. Receipts.insert_receipt i u w.db))
add_receipt-IsOrdered i u = Keeps-set_db _ (λ w h. insert_receipt-IsOrdered i u w.db h)

pub insert_receipt_rows-IsOrdered :
    (i : ℤ) (us : List Str) → Keeps IsOrdered (Receipts.insert_receipt_rows i us)
unfolding Receipts.insert_receipt_rows
insert_receipt_rows-IsOrdered i us = search (keeps_rules, add_receipt-IsOrdered) depth 12

pub queue_receipt-IsOrdered :
    (c f t ts : Str) (g : Option ℤ) (k : Str)
    → Keeps IsOrdered (Receipts.queue_receipt c f t ts g k)
unfolding Receipts.queue_receipt
queue_receipt-IsOrdered c f t ts g k = Keeps-execute _ _ (λ w h.
    elim (Bool-cases (any (same_receipt f t ts) w.db.offline_read_receipts)) [
      | inl e ↦ rw e h
      | inr e ↦ rw e h
    ])

pub replace_all_keys-IsOrdered :
    (g : ℤ) (ps : List (Str × Str)) → Keeps IsOrdered (Groups.replace_all_keys g ps)
unfolding Groups.replace_all_keys Groups.insert_key
replace_all_keys-IsOrdered g ps = search (keeps_rules, Keeps-set_db) depth 12

pub save_session-IsOrdered : (s : Session) → Keeps IsOrdered (Sessions.save s)
unfolding Sessions.save
save_session-IsOrdered s =
    Keeps-execute _ _
      (λ w h. elim (Bool-cases (int_eq s.id (pos 0))) [ inl e ↦ rw e h | inr e ↦ rw e h ])

pub save_user-IsOrdered : (u : User) → Keeps IsOrdered (Users.save u)
unfolding Users.save
save_user-IsOrdered u =
    Keeps-execute _ _
      (λ w h. elim (Bool-cases (int_eq u.id (pos 0))) [ inl e ↦ rw e h | inr e ↦ rw e h ])

pub save_entry-IsOrdered : (q : OfflineMessage) → Keeps IsOrdered (OfflineQueue.save q)
unfolding OfflineQueue.save
save_entry-IsOrdered q =
    Keeps-execute _ _
      (λ w h. elim (Bool-cases (int_eq q.id (pos 0))) [ inl e ↦ rw e h | inr e ↦ rw e h ])

created_time-IsOrdered : (t : Str) → Keeps IsOrdered (Messages.created_time t)
created_time-IsOrdered [] = Keeps-gets _
created_time-IsOrdered (c ∷ t) = Keeps-cast_timestamp _

pub save_new-IsOrdered : (m : Message) (t : Str) → Keeps IsOrdered (Messages.save_new m t)
unfolding Messages.save_new
save_new-IsOrdered m t = search (keeps_rules, created_time-IsOrdered, Keeps-set_db) depth 12

pub delete_conversation-IsOrdered : (a b : Str) → Keeps IsOrdered (Messages.delete_conversation a b)
unfolding Messages.delete_conversation
delete_conversation-IsOrdered a b = search (keeps_rules, Keeps-set_db) depth 12

pub find_and_clear-IsOrdered : (u : Str) → Keeps IsOrdered (Pending.find_and_clear u)
unfolding Pending.find_and_clear
find_and_clear-IsOrdered u = search (keeps_rules, Keeps-set_db) depth 12

all_for_user-IsOrdered : (u c : Str) → Keeps IsOrdered (Messages.all_for_user u c)
unfolding Messages.all_for_user
all_for_user-IsOrdered u [] = Keeps-gets _
all_for_user-IsOrdered u (x ∷ c) = search keeps_rules

pub find_all_for_user-IsOrdered : (u c : Str) → Keeps IsOrdered (Messages.find_all_for_user u c)
unfolding Messages.find_all_for_user
find_all_for_user-IsOrdered u c = search (keeps_rules, all_for_user-IsOrdered) depth 12

messages_for-IsOrdered : (u c : Str) → Keeps IsOrdered (Groups.messages_for u c)
unfolding Groups.messages_for
messages_for-IsOrdered u [] = Keeps-gets _
messages_for-IsOrdered u (x ∷ c) = search keeps_rules

pub find_messages_for_user_since-IsOrdered :
    (u c : Str) → Keeps IsOrdered (Groups.find_messages_for_user_since u c)
unfolding Groups.find_messages_for_user_since
find_messages_for_user_since-IsOrdered u c = search (keeps_rules, messages_for-IsOrdered) depth 12

pub ruleset ordered_rules = (
  add_member-IsOrdered, remove_member-IsOrdered, save_key-IsOrdered, update_role-IsOrdered,
  delete_receipts_for_member-IsOrdered, save_message-IsOrdered, mark_receipt_delivered-IsOrdered,
  mark_receipt_seen-IsOrdered, insert_receipt_rows-IsOrdered, queue_receipt-IsOrdered,
  replace_all_keys-IsOrdered, save_session-IsOrdered, save_user-IsOrdered, save_entry-IsOrdered,
  save_new-IsOrdered, delete_conversation-IsOrdered, find_and_clear-IsOrdered,
  find_all_for_user-IsOrdered, find_messages_for_user_since-IsOrdered, create_group-IsOrdered,
)
