-- ===== src/Server/Connection.antt =====
-- ConnectionHandler::handleRequest of backend/src/Server.cpp, and ClientSession::receive.
use bit_atm.Prelude.{
  ℕ, not, ◌&&◌, Option, none, some, List, [], ◌∷◌, ◌++◌, ◌==◌, if◌then◌else◌, Str, text, str_eq, ℤ,
}
use bit_atm.Error.{Error, network, poco, std_error, Result, ok, err, what}
use bit_atm.Packet.{Packet, blank, err_packet}
use bit_atm.World.{World, ClientSession, State, disconnected}
use bit_atm.Action.{
  Action, pure, throw, gets, modify, try_catch, ◌>>=◌, ◌>>◌, when, next_tick, send,
}
use bit_atm.Wire.{deserialize}
use bit_atm.Handler.Base.{handle, is_authenticated, present}
use bit_atm.Repo.Users
use bit_atm.Repo.Sessions
use bit_atm.Server.Clients.{add_client, remove_client}
use bit_atm.Server.Factory.{create, handlers}
use bit_atm.Server.Cleanup.{ignoring}

-- What WebSocket::receiveFrame hands over: a frame by its opcode and bytes, or a Poco::Exception.
pub data Frame : Type 0 where
  close pong : Frame
  ping : Str → Frame
  bytes : Str → Frame
  failure : Str → Frame

-- The locals of handleRequest.
pub record Local : Type 0 where
  pub username : Str
  pub session_token : Str

abbrev pub set_state : ℕ → State → World → World
set_state sid st w = record w {
  sessions = λ n. if n == sid then record (w.sessions n) { state = st } else w.sessions n;
}

unfoldable pub disconnect : ℕ → Action (Unit {0})
disconnect sid = modify (set_state sid disconnected)

-- What the loop does with an exception of a packet: an ERR, whose own failure is swallowed, for a
-- ProtocolException or another AppException; any other exception ends the loop.
unfoldable pub report : ℕ → Error → Action (Unit {0})
report sid (poco m) = throw (poco m)
report sid (std_error m) = throw (std_error m)
report sid e = ignoring (send sid (record (blank err_packet) { error_msg = what e }))

unfoldable pub set_clients : (World → List (Str × List ℕ)) → Action (Unit {0})
set_clients f = modify (λ w. record w { clients = f w })

-- After a handler that returned: an authenticated session is put into the client map under its
-- username, and leaves the map under the name that it had before.
unfoldable pub register_in_map : ℕ → Local → ClientSession → Action Local
register_in_map sid loc s =
    if is_authenticated s.state && present s.username
    then (do
      when (present loc.username && not (str_eq loc.username s.username))
          (set_clients (λ w. remove_client loc.username sid w.clients))
      set_clients (λ w. add_client s.username sid w.clients)
      pure (record { username = s.username; session_token = s.session_token }))
    else pure loc

unfoldable pub run_handler : ℕ → Local → Packet → Action Local
unfolding register_in_map
run_handler sid loc p = do
  h ← create handlers p.type
  handle h p sid
  s ← gets (λ w. w.sessions sid)
  register_in_map sid loc s

unfoldable pub on_packet : ℕ → Local → Packet → Action Local
unfolding run_handler
on_packet sid loc p = try_catch (run_handler sid loc p) (λ e. do report sid e; pure loc)

-- A text that does not parse is answered with an ERR.
unfoldable pub on_parsed : ℕ → Local → Result Packet → Action Local
on_parsed sid loc (ok p) = on_packet sid loc p
on_parsed sid loc (err e) = do report sid e; pure loc

-- _ws.sendFrame of a pong.
unfoldable pub send_pong : ℕ → Str → Action (Unit {0})
send_pong sid s = do
  t ← next_tick
  env ← gets (λ w. w.env)
  elim (env.send_fails t sid) [
    | some m ↦ throw (network (text "ClientSession::receive failed: " ++ m))
    | none ↦ modify (λ w. record w { sent = (sid, s) ∷ w.sent })
  ]

-- An exception that leaves the loop, with the locals as they stand: `none`.
abbrev pub escaping : {A : Type 0} → Action A → Action (Option A)
escaping m = try_catch (do a ← m; pure (some a)) (λ e. pure none)

-- The loop over the frames that arrive, with what the parser's uninitialised local holds; it gives
-- the locals at its end. The end of the list is the end of the stream, an empty frame.
unfoldable pub serve : ℤ → ℕ → Local → List Frame → Action Local
unfolding disconnect on_parsed send_pong
serve t0 sid loc [] = do disconnect sid; pure loc
serve t0 sid loc (close ∷ rest) = do disconnect sid; pure loc
serve t0 sid loc (pong ∷ rest) = serve t0 sid loc rest
serve t0 sid loc (ping s ∷ rest) = do
  answered ← escaping (send_pong sid s)
  elim answered [ none ↦ pure loc | some _ ↦ serve t0 sid loc rest ]
serve t0 sid loc (bytes [] ∷ rest) = do disconnect sid; pure loc
serve t0 sid loc (bytes (c ∷ s) ∷ rest) = do
  answered ← escaping (on_parsed sid loc (deserialize t0 (c ∷ s)))
  elim answered [ none ↦ pure loc | some loc' ↦ serve t0 sid loc' rest ]
serve t0 sid loc (failure m ∷ rest) = pure loc

-- What runs whether or not the connection ended with an exception.
unfoldable pub clean_up : ℕ → Local → Action (Unit {0})
clean_up sid loc = when (present loc.username) (do
  set_clients (λ w. remove_client loc.username sid w.clients)
  ignoring (Users.update_last_seen loc.username)
  when (present loc.session_token) (ignoring (Sessions.deactivate_by_token loc.session_token)))

abbrev pub no_local : Local
no_local = record { username = []; session_token = [] }

unfoldable pub handle_request : ℤ → ℕ → List Frame → Action (Unit {0})
handle_request t0 sid frames = do loc ← serve t0 sid no_local frames; clean_up sid loc
