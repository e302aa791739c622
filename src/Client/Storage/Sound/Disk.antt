-- ===== src/Client/Storage/Sound/Disk.antt =====
-- LocalStorage: the invariant along a statement, and opening a database.
use bit_atm.Prelude.{
  ◌≡◌, refl, inl, inr, Bool, true, false, not, ◌&&◌, ◌||◌, Option, none, some, List, [], ◌∷◌, map,
  arith, Bool-cases, any, All, Str, str_eq,
}
use bit_atm.Client.Sql.{Key, key_eq}
use bit_atm.Client.Sql.Unique.{IsUnique}
use bit_atm.Client.Storage.{
  MessageRecord, Tables, LocalStorage, messages_key, gm_key, distinct, index_messages, index_gm,
  exec, exec_on, close, update, query, commit, next_step, run_schema, schema, attach, create_schema,
  sanitize,
}
use bit_atm.Client.Storage
use bit_atm.Client.Storage.Recipients
use bit_atm.Client.Storage.Sound.{IsSound, Keeps}
use bit_atm.Client.Storage.Sound.Recipients.{put_recipient-IsSound}

-- Every file of the disk is sound.
abbrev pub IsSoundDisk : LocalStorage → Type 0
IsSoundDisk s = (file : Str) → IsSound (s.disk file)

-- What a statement would write is sound.
abbrev Writes : Option Tables → Type 0
Writes none = Unit
Writes (some t) = IsSound t

abbrev Executes : (Tables → Option Tables) → Type 0
Executes f = (t : Tables) → IsSound t → Writes (f t)

write-IsSound :
    (file : Str) (t : Tables) (s : LocalStorage)
    → IsSound t
    → IsSoundDisk s
    → IsSoundDisk (Storage.write file t s)
write-IsSound file t s v d k = elim (Bool-cases (str_eq file k)) [
  | inl e ↦ rw e v
  | inr e ↦ rw e (d k)
]

commit-IsSound :
    (file : Str) (o : Option Tables) (s : LocalStorage)
    → Writes o
    → IsSoundDisk s
    → IsSoundDisk (commit file o s).1
commit-IsSound file none s h d = d
commit-IsSound file (some t) s h d = write-IsSound file t s h d

exec_on-IsSound :
    (f : Tables → Option Tables) (o : Option Str) (s : LocalStorage)
    → Executes f
    → IsSoundDisk s
    → IsSoundDisk (exec_on f o s).1
exec_on-IsSound f none s h d = d
exec_on-IsSound f (some file) s h d = elim (Bool-cases (s.sql_fails s.tick)) [
  | inl b ↦ rw b d
  | inr b ↦ rw b (commit-IsSound file (f (s.disk file)) (next_step s) (h (s.disk file) (d file)) d)
]

exec-IsSound :
    (f : Tables → Option Tables) (s : LocalStorage)
    → Executes f
    → IsSoundDisk s
    → IsSoundDisk (exec f s).1
unfolding exec
exec-IsSound f s h d = exec_on-IsSound f s.opened s h d

pub update-IsSound :
    (f : Tables → Tables) (s : LocalStorage) → Keeps f → IsSoundDisk s → IsSoundDisk (update f s)
unfolding update
update-IsSound f s h d = exec-IsSound (λ t. some (f t)) s h d

none_equal :
    (k : Key) (js : List Key) → any (λ j. key_eq j k) js ≡ false → All (λ j. key_eq j k ≡ false) js
none_equal k [] h = tt
none_equal k (j ∷ js) h = elim (Bool-cases (key_eq j k)) [
  | inl e ↦ ground arith
  | inr e ↦ (e, none_equal k js (ground arith))
]

distinct-IsUnique : (ks : List Key) → distinct ks ≡ true → IsUnique ks
unfolding distinct
distinct-IsUnique [] h = tt
distinct-IsUnique (k ∷ ks) h = (none_equal k ks (ground arith), distinct-IsUnique ks (ground arith))

indexed :
    {P : Type 0} (dedup distinct : Bool)
    → (dedup ≡ true → P)
    → (distinct ≡ true → P)
    → (dedup || distinct) ≡ true
    → P
indexed true d f g h = f refl
indexed false d f g h = g h

index_messages-Executes : Executes index_messages
unfolding index_messages
index_messages-Executes t v =
    elim (Bool-cases (t.messages_dedup || distinct (map messages_key t.messages))) [
      | inl e ↦ rw e (record {
        messages = λ h. indexed _ _ v.messages (distinct-IsUnique _) e;
        conversations = v.conversations;
        group_messages = v.group_messages;
        group_keys = v.group_keys;
        groups = v.groups;
        recipients = v.recipients;
        seen = v.seen;
      })
      | inr e ↦ rw e tt
    ]

index_gm-Executes : Executes index_gm
unfolding index_gm
index_gm-Executes t v = elim (Bool-cases (t.gm_dedup || distinct (map gm_key t.group_messages))) [
  | inl e ↦ rw e (record {
    messages = v.messages;
    conversations = v.conversations;
    group_messages = λ h. indexed _ _ v.group_messages (distinct-IsUnique _) e;
    group_keys = v.group_keys;
    groups = v.groups;
    recipients = v.recipients;
    seen = v.seen;
  })
  | inr e ↦ rw e tt
]

run_schema-IsSound :
    (l : List (Bool × (Tables → Option Tables))) (s : LocalStorage)
    → All (λ d. Executes d.1) l
    → IsSoundDisk s
    → IsSoundDisk (run_schema l s).1
unfolding run_schema
run_schema-IsSound [] s h d = d
run_schema-IsSound ((needed, f) ∷ l) s (h, hs) d = elim (Bool-cases (needed && not (exec f s).0)) [
  | inl e ↦ rw e (exec-IsSound f s h d)
  | inr e ↦ rw e (run_schema-IsSound l (exec f s).1 hs (exec-IsSound f s h d))
]

create_schema-IsSound : (s : LocalStorage) → IsSoundDisk s → IsSoundDisk (create_schema s).1
unfolding create_schema schema
create_schema-IsSound s d =
    run_schema-IsSound schema s
      (
        same,
        (
          index_messages-Executes,
          (same, (same, (same, (same, (same, (same, (same, (index_gm-Executes, (same, tt))))))))),
        ),
      )
      d
  where
    same : Executes some
    same t v = v

pub open_for_user-IsSound :
    (u : Str) → (s : LocalStorage) → IsSoundDisk s → IsSoundDisk (Storage.open_for_user u s).1
unfolding Storage.open_for_user close
open_for_user-IsSound u s d = elim (Bool-cases (s.sql_fails s.tick)) [
  | inl e ↦ rw e d
  | inr e ↦ rw e (
      create_schema-IsSound (exec some (attach u (close s))).1
        (exec-IsSound some (attach u (close s)) (λ t v. v) d))
]

pub save_recipient_snapshot-IsSound :
    (g ts : Str) (ms : List Str) (s : LocalStorage)
    → IsSoundDisk s
    → IsSoundDisk (Recipients.save_recipient_snapshot g ts ms s)
unfolding Recipients.save_recipient_snapshot
save_recipient_snapshot-IsSound g ts [] s d = d
save_recipient_snapshot-IsSound g ts (m ∷ ms) s d =
    save_recipient_snapshot-IsSound g ts ms _ (update-IsSound _ s (put_recipient-IsSound g ts m) d)
