-- ===== src/Server.antt =====
-- src/Platforms/main_server.c: the emulator's thread and the handlers of the web socket's thread, one
-- access at a time. The accesses to `wsClient` are not atomic in the source: here each has its place
-- among the others, that of a send in the step of the call in front of it. Of the data that is sent only
-- the client is kept, and cJSON gives a text.
pub mod Loop
pub mod Quiet
pub mod Safety
use game_bloat.Prelude.{
  ℕ, zero, suc, Option, none, some, List, [], ◌∷◌, Bool, true, false, ◌&&◌, if◌then◌else◌, ◌≡◌,
}
use game_bloat.Prelude.Buffer.{Buffer}
use game_bloat.Cartridge.File.{Allocator}
use game_bloat.Console.{Console, loop_cycle, reset_game_server}

-- Where the emulator's thread stands: in front of an access or a call.
pub data Point : Type 0 where
  starting waiting load_restart reset_game store_restart store_start load_connected load_step
        step_cycle store_step load_connected_again load_start run_cycle :
      Point

pub record Server : Type 0 where
  pub console : Console
  pub ws_connected : Bool
  pub restart_game : Bool
  pub start_game : Bool
  pub step : Bool
  pub point : Point
  pub ws_client : ℕ
  pub sent : List ℕ

-- `InitGlobals`, with the console as `main` leaves it. The null pointer is 0.
abbrev pub init_globals : Console → Server
init_globals c = record {
  console = c;
  ws_connected = false;
  restart_game = false;
  start_game = false;
  step = false;
  point = starting;
  ws_client = 0;
  sent = [];
}

-- The texts that `OnMessage` compares a message with, and all others.
pub data Message : Type 0 where
  reset step_once start stop other : Message

unfoldable pub on_message : Message → Server → Server
on_message reset s = record s { restart_game = true }
on_message step_once s = record s { step = true }
on_message start s = record s { start_game = true }
on_message stop s = record s { start_game = false }
on_message other s = s

-- `pthread_cond_signal`: it wakes the thread that waits, and is lost on one that does not.
abbrev pub woken : Point → Point
woken waiting = load_restart
woken p = p

-- What the other side does: the two stores and the signal of `OnOpen`, `OnClose`, `OnMessage`, and a wakeup
-- without a signal, which POSIX allows.
pub data Event : Type 0 where
  store_connected signal on_close spurious : Event
  store_client : ℕ → Event
  message : Message → Event

unfoldable pub handle : Event → Server → Server
unfolding on_message
handle store_connected s = record s { ws_connected = true }
handle signal s = record s { point = woken s.point }
handle on_close s = record s { ws_connected = false }
handle spurious s = record s { point = woken s.point }
handle (store_client client) s = record s { ws_client = client }
handle (message m) s = on_message m s

-- `SendWebsocketData`: to the client of that moment.
abbrev pub send_websocket_data : Server → Server
send_websocket_data s = record s { sent = s.ws_client ∷ s.sent }

-- `LoopCycle` on the server's console, with the send at its end.
abbrev pub cycle_to : Point → Server → Option Server
cycle_to next s = elim (loop_cycle s.console.machine) [
  | none ↦ none
  | some (_, m) ↦ some (
      send_websocket_data (record s { console = record (s.console) { machine = m }; point = next }))
]

-- The next step of `InitGameboyLoop` and `RunGameboyLoop`; `none` is a thread that is blocked, or
-- undefined behaviour in the call.
unfoldable pub thread_step_from :
    (stack : ℕ → ℕ) → Allocator → Option Buffer → Point → Server → Option Server
thread_step_from stack malloc file starting s = some (record s { point = waiting })
thread_step_from stack malloc file waiting s = none
thread_step_from stack malloc file load_restart s =
    some (record s { point = if s.restart_game then reset_game else load_connected })
thread_step_from stack malloc file reset_game s =
    elim (reset_game_server stack malloc file s.console) [
      | none ↦ none
      | some c ↦ some (send_websocket_data (record s { console = c; point = store_restart }))
    ]
thread_step_from stack malloc file store_restart s =
    some (record s { restart_game = false; point = store_start })
thread_step_from stack malloc file store_start s =
    some (record s { start_game = false; point = load_connected })
thread_step_from stack malloc file load_connected s =
    some (record s { point = if s.ws_connected then load_step else load_connected_again })
thread_step_from stack malloc file load_step s =
    some (record s { point = if s.step then step_cycle else load_connected_again })
thread_step_from stack malloc file step_cycle s = cycle_to store_step s
thread_step_from stack malloc file store_step s =
    some (record s { step = false; point = load_restart })
thread_step_from stack malloc file load_connected_again s =
    some (record s { point = if s.ws_connected then load_start else load_restart })
thread_step_from stack malloc file load_start s =
    some (record s { point = if s.start_game then run_cycle else load_restart })
thread_step_from stack malloc file run_cycle s = cycle_to load_restart s

unfoldable pub thread_step : (stack : ℕ → ℕ) → Allocator → Option Buffer → Server → Option Server
unfolding thread_step_from
thread_step stack malloc file s = thread_step_from stack malloc file s.point s

-- So many steps of the thread with nothing from outside.
unfoldable pub run_alone : (stack : ℕ → ℕ) → Allocator → Option Buffer → ℕ → Server → Option Server
run_alone stack malloc file zero s = some s
run_alone stack malloc file (suc n) s = elim (thread_step stack malloc file s) [
  | none ↦ none
  | some s' ↦ run_alone stack malloc file n s'
]

-- One step of the whole: the thread's, or one from outside of the kinds that occur.
pub data Step (stack : ℕ → ℕ) (malloc : Allocator) (file : Option Buffer) (occurs : Event → Bool)
    : Server → Server → Type 0 where
  emulator :
      {s s' : Server}
      → thread_step stack malloc file s ≡ some s'
      → Step stack malloc file occurs s s'
  outside :
      {s s' : Server} (e : Event)
      → occurs e ≡ true
      → handle e s ≡ s'
      → Step stack malloc file occurs s s'

pub data Reach (stack : ℕ → ℕ) (malloc : Allocator) (file : Option Buffer) (occurs : Event → Bool)
    (s : Server) : Server → Type 0 where
  here : Reach stack malloc file occurs s s
  next :
      {s' s'' : Server}
      → Reach stack malloc file occurs s s'
      → Step stack malloc file occurs s' s''
      → Reach stack malloc file occurs s s''
