-- ===== src/Server/Quiet.antt =====
-- src/Platforms/main_server.c: no cycle before a client has connected.
use game_bloat.Prelude.{ℕ, ◌≡◌, refl, arith, Option, some, Bool, true, false}
use mathlib.Core.Path.{subst}
use game_bloat.Prelude.Buffer.{Buffer}
use game_bloat.Cartridge.File.{Allocator}
use game_bloat.Console.{Console}
use game_bloat.Server.{
  Server, Point, load_step, step_cycle, store_step, load_start, run_cycle, Event, store_connected,
  signal, on_close, spurious, store_client, message, on_message, Reach, init_globals, thread_step,
  thread_step_from, handle, here, next, emulator, outside,
}

-- The points behind a load of `wsConnected` that was true.
unfoldable pub behind_connection : Point → Bool
behind_connection load_step = true
behind_connection step_cycle = true
behind_connection store_step = true
behind_connection load_start = true
behind_connection run_cycle = true
behind_connection _ = false

abbrev IsQuiet : Server → Type 0
IsQuiet s = (s.ws_connected ≡ false) × (behind_connection s.point ≡ false)

thread_step-IsQuiet :
    (stack : ℕ → ℕ) (malloc : Allocator) (file : Option Buffer) (s s' : Server)
    → IsQuiet s
    → thread_step stack malloc file s ≡ some s'
    → IsQuiet s'
unfolding thread_step thread_step_from behind_connection
thread_step-IsQuiet stack malloc file s s' (disconnected, before) taken = ground arith

handle-IsQuiet :
    (occurs : Event → Bool) (e : Event) (s : Server)
    → occurs store_connected ≡ false
    → occurs e ≡ true
    → IsQuiet s
    → IsQuiet (handle e s)
unfolding handle on_message behind_connection
handle-IsQuiet occurs store_connected s never now quiet = absurd (ground arith)
handle-IsQuiet occurs signal s never now (disconnected, before) = ground arith
handle-IsQuiet occurs on_close s never now (disconnected, before) = ground arith
handle-IsQuiet occurs spurious s never now (disconnected, before) = ground arith
handle-IsQuiet occurs (store_client client) s never now (disconnected, before) = ground arith
handle-IsQuiet occurs (message m) s never now (disconnected, before) = ground arith

-- While no client has connected, the thread is never behind a test of the connection, so it runs no
-- cycle, whatever messages, closings and wakeups occur.
pub Reach-quiet :
    (stack : ℕ → ℕ) (malloc : Allocator) (file : Option Buffer) (occurs : Event → Bool)
    (c : Console) {s : Server}
    → occurs store_connected ≡ false
    → Reach stack malloc file occurs (init_globals c) s
    → (s.ws_connected ≡ false) × (behind_connection s.point ≡ false)
unfolding behind_connection
Reach-quiet stack malloc file occurs c never here = (refl, refl)
Reach-quiet stack malloc file occurs c never (next {s' = s} before (outside e now same)) =
    subst IsQuiet same
      (handle-IsQuiet occurs e s never now (Reach-quiet stack malloc file occurs c never before))
Reach-quiet stack malloc file occurs c never (next {s' = s} {s'' = s'} before (emulator taken)) =
    thread_step-IsQuiet stack malloc file s s' (Reach-quiet stack malloc file occurs c never before)
      taken
