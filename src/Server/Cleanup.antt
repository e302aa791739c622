-- ===== src/Server/Cleanup.antt =====
-- Server::onCleanupTimer: three statements, each in a try block of its own.
pub mod Pending
use bit_atm.Action.{Action, try_catch, ◌>>◌, skip}
use bit_atm.Repo.Sessions
use bit_atm.Repo.OfflineQueue

abbrev pub ignoring : Action (Unit {0}) → Action (Unit {0})
ignoring m = try_catch m (λ e. skip)

unfoldable pub on_cleanup_timer : Action (Unit {0})
on_cleanup_timer = do
  ignoring Sessions.deactivate_expired
  ignoring OfflineQueue.cleanup_delivered
  ignoring OfflineQueue.cleanup_exhausted
