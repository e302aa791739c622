-- ===== src/Server/Reject/Packets.antt =====
-- The whole path of a packet of an unauthorised session, to the ERR that answers it.
use bit_atm.Prelude.{ℕ, suc, ◌≡◌, ap, ◌≢◌, ◌⊎◌, inl, inr, ◌∷◌, Str}
use bit_atm.Error.{Error, protocol, network, db, crypto, poco, std_error}
use bit_atm.Packet.{login, register, err_packet, Packet, blank}
use bit_atm.World.{World}
use bit_atm.Wire.{serialize}
use bit_atm.Action.{Run, done, threw, ◌>>=◌, pure, try_catch, skip, handle_run, go_on}
use bit_atm.Action.Runs.{at_tick, Sending, arrived, broken, send-run, throw-bind}
use bit_atm.Handler.Base.{handle}
use bit_atm.Server.Factory.{create, handlers}
use bit_atm.Server.Connection.{Local, report, run_handler, on_packet}
use bit_atm.Server.Reject.{Rejected, Unauthorised, IsApp}
use bit_atm.Server.Reject.Handlers.{create-Rejected}

abbrev pub err_frame : ℕ → Str → ℕ × Str
err_frame sid m = (sid, serialize (record (blank err_packet) { error_msg = m }))

-- The run returned the locals that it had, and moved nothing but, at most, one ERR to the session.
pub record Refused (sid : ℕ) (loc : Local) (w : World) (r : Run Local) : Type 0 where
  pub world : World
  pub returned : r ≡ done loc world
  pub tables : world.db ≡ w.db
  pub clients : world.clients ≡ w.clients
  pub sessions : world.sessions ≡ w.sessions
  pub frames : (world.sent ≡ w.sent) ⊎ ((m : Str) × (world.sent ≡ err_frame sid m ∷ w.sent))

-- `x` is `w` but for its step and environment.
abbrev Alike : World → World → Type 0
Alike x w = (x.db ≡ w.db) × (x.clients ≡ w.clients) × (x.sessions ≡ w.sessions) × (x.sent ≡ w.sent)

answered_with :
    (sid : ℕ) (loc : Local) (m : Str) (w x : World) (r : Run (Unit {0}))
    → Alike x w
    → Sending sid (record (blank err_packet) { error_msg = m }) x r
    → Refused sid loc w (go_on (λ _. pure loc) (handle_run (λ e. skip) r))
unfolding pure
answered_with sid loc m w x r (d, c, s, f) (arrived e) = record {
  world = record x { tick = suc x.tick; sent = err_frame sid m ∷ x.sent };
  returned = rw e;
  tables = d;
  clients = c;
  sessions = s;
  frames = inr (m, ap (λ l. err_frame sid m ∷ l) f);
}
answered_with sid loc m w x r (d, c, s, f) (broken t e) = record {
  world = at_tick (suc x.tick) x;
  returned = rw e;
  tables = d;
  clients = c;
  sessions = s;
  frames = inl f;
}

report-Refused :
    (sid : ℕ) (loc : Local) (e : Error) (w x : World)
    → IsApp e
    → Alike x w
    → Refused sid loc w ((report sid e >>= λ _. pure loc) x)
unfolding report try_catch ◌>>=◌
report-Refused sid loc (protocol m) w x app a = answered_with sid loc m w x _ a (send-run _ _ x)
report-Refused sid loc (network m) w x app a = answered_with sid loc m w x _ a (send-run _ _ x)
report-Refused sid loc (db m) w x app a = answered_with sid loc m w x _ a (send-run _ _ x)
report-Refused sid loc (crypto m) w x app a = answered_with sid loc m w x _ a (send-run _ _ x)
report-Refused sid loc (poco m) w x app a = absurd app
report-Refused sid loc (std_error m) w x app a = absurd app

-- A packet of any type but LOGIN and REGISTER, of a session that is not authenticated, has no
-- token, or has a token that no active row of the table has: the connection goes on with its
-- locals, no table, client map or session changes, and the only frame sent is at most one ERR to
-- that session. It holds whatever fails.
pub on_packet-Refused :
    (sid : ℕ) (loc : Local) (p : Packet) (w : World)
    → p.type ≢ login
    → p.type ≢ register
    → Unauthorised w sid
    → Refused sid loc w (on_packet sid loc p w)
unfolding on_packet try_catch
on_packet-Refused sid loc p w l r u = rw thrown (
    report-Refused sid loc no.error w no.world no.app (no.tables, no.clients, no.sessions, no.sent))
  where
    no : Rejected w ((create handlers p.type >>= λ h. handle h p sid) w)
    no = create-Rejected p.type p sid w l r u

    thrown : run_handler sid loc p w ≡ threw no.error no.world
    thrown =
        throw-bind (create handlers p.type) (λ h. handle h p sid) _ w no.world no.error no.threw_it
