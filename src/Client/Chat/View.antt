-- ===== src/Client/Chat/View.antt =====
-- ChatModel: the open conversation and the cache.
use bit_atm.Prelude.{
  ◌≡◌, refl, Bool, List, [], ◌∷◌, ◌++◌, arith, if◌then◌else◌, Str, str_eq, str_eq_refl, str_eq→≡,
}
use bit_atm.Client.Chat.{
  ChatEntry, ChatModel, push_back, cached, append_entry, append_and_cache, switch_conversation,
  clear_all, with_status, cache_status, show_status, update_status,
}
use bit_atm.Client.Storage.{LocalStorage}

-- What the view shows is what the cache has of the open conversation.
abbrev pub IsShown : ChatModel → Type 0
IsShown m = m.entries ≡ cached m.active_peer m.cache

cached-push_back :
    (p q : Str) (e : ChatEntry) (c : List (Str × List ChatEntry))
    → cached q (push_back p e c) ≡ (if str_eq q p then cached q c ++ e ∷ [] else cached q c)
unfolding cached push_back
cached-push_back p q e [] = ground (arith, str_eq→≡ p q, str_eq→≡ q p, str_eq_refl p)
cached-push_back p q e ((k, es) ∷ c) = ground (
  arith,
  cached-push_back p q e c,
  str_eq→≡ k p,
  str_eq→≡ k q,
  str_eq→≡ q p,
  str_eq_refl k,
  str_eq_refl p,
)

with_none : (ts st : Str) → with_status ts st [] ≡ []
unfolding with_status
with_none ts st = refl

cached-cache_status :
    (p q ts st : Str) (c : List (Str × List ChatEntry))
    → cached q (cache_status p ts st c)
      ≡ (if str_eq q p then with_status ts st (cached q c) else cached q c)
unfolding cached cache_status
cached-cache_status p q ts st [] = ground (arith, with_none ts st)
cached-cache_status p q ts st ((k, es) ∷ c) = ground (
  arith,
  cached-cache_status p q ts st c,
  str_eq→≡ k p,
  str_eq→≡ k q,
  str_eq→≡ q p,
  str_eq_refl k,
  str_eq_refl p,
)

append_entry-IsShown :
    (p : Str) (e : ChatEntry) (m : ChatModel) → IsShown m → IsShown (append_entry p e m)
unfolding append_entry
append_entry-IsShown p e m h = rw (cached-push_back p m.active_peer e m.cache, h)

show_status-IsShown : (p ts st : Str) (m : ChatModel) → IsShown m → IsShown (show_status p ts st m)
unfolding show_status
show_status-IsShown p ts st m h = rw (cached-cache_status p m.active_peer ts st m.cache, h)

-- If the view shows what the cache has of the open conversation, then it does after appendAndCache,
-- after switchConversation, after clearAll and after updateStatus, for every peer.
pub view-IsShown :
    (peer sender content timestamp status : Str) (is_outgoing is_group : Bool) (m : ChatModel)
    (s : LocalStorage)
    → IsShown m
    → IsShown (append_and_cache peer sender content timestamp is_outgoing status m)
      × IsShown (switch_conversation peer m)
      × IsShown (clear_all m)
      × IsShown (update_status peer timestamp status is_group (m, s)).0
unfolding append_and_cache switch_conversation clear_all update_status
view-IsShown peer sender content timestamp status is_outgoing is_group m s h =
    (append_entry-IsShown peer _ m h, refl, refl, show_status-IsShown peer timestamp status m h)
