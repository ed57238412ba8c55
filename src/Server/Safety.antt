-- ===== src/Server/Safety.antt =====
-- src/Platforms/main_server.c: what holds in every interleaving of the two threads.
use game_bloat.Prelude.{
  ℕ, ◌≡◌, ◌⊎◌, refl, arith, Option, none, some, Bool, true, false, Bool-cases, inl, inr, ap, sym,
  ◌∙◌,
}
use mathlib.Core.Path.{subst}
use game_bloat.Prelude.Buffer.{Buffer}
use game_bloat.Machine.{Machine}
use game_bloat.Cartridge.File.{Allocator}
use game_bloat.Cartridge.Laws.{is_loadable}
use game_bloat.Safety.{IsWell}
use game_bloat.Console.{Console, loop_cycle, reset_game_server}
use game_bloat.Console.Cycle.{loop_cycle-Keeps, returned-total}
use game_bloat.Console.Start.{is_roomy, reset_game_server-IsWell}
use game_bloat.Server.{
  Server, Point, starting, waiting, load_restart, reset_game, store_restart, store_start,
  load_connected, load_step, step_cycle, store_step, load_connected_again, load_start, run_cycle,
  Event, Reach, init_globals, cycle_to, thread_step, thread_step_from, handle, send_websocket_data,
  here, next, emulator, outside,
}

-- A step of the thread that is taken and keeps the machine well-formed.
abbrev Proceeds : Option Server → Type 0
Proceeds x = (s' : Server) × (x ≡ some s') × IsWell false s'.console.machine

unfoldable is_waiting : Point → Bool
is_waiting waiting = true
is_waiting _ = false

abbrev Holds : Option Server → Type 0
Holds none = Unit {0}
Holds (some s) = IsWell false s.console.machine

handle-same : (e : Event) (s : Server) → (handle e s).console ≡ s.console
unfolding handle
handle-same e s = ground arith

module _ (stack : ℕ → ℕ) (malloc : Allocator) (file : Buffer)
    (loadable : is_loadable malloc file ≡ true) (roomy : is_roomy file ≡ true) where
  cycle_done :
      (p : Point) (s : Server) (m : Machine)
      → loop_cycle s.console.machine ≡ some (tt, m)
      → cycle_to p s
        ≡ some (
            send_websocket_data
              (record s { console = record (s.console) { machine = m }; point = p }))
  cycle_done p s m done =
      ap
        (λ x. elim x as (λ _. Option Server) [
          | none ↦ none
          | some (_, m') ↦ some (
              send_websocket_data
                (record s { console = record (s.console) { machine = m' }; point = p }))
        ])
        done

  reset_done :
      (s : Server) (c : Console)
      → reset_game_server stack malloc (some file) s.console ≡ some c
      → thread_step_from stack malloc (some file) reset_game s
        ≡ some (send_websocket_data (record s { console = c; point = store_restart }))
  unfolding thread_step_from
  reset_done s c done = rw (thread_step_from, done) refl

  cycle_to-Proceeds :
      (p : Point) (s : Server) → IsWell false s.console.machine → Proceeds (cycle_to p s)
  cycle_to-Proceeds p s well =
      let (m', done, well') = returned-total (loop_cycle-Keeps well) in
      (_, cycle_done p s m' done, well')

  thread_step-Proceeds :
      (p : Point) (s : Server)
      → is_waiting p ≡ false
      → IsWell false s.console.machine
      → Proceeds (thread_step_from stack malloc (some file) p s)
  unfolding thread_step_from is_waiting
  thread_step-Proceeds waiting s runs well = absurd (ground arith)
  thread_step-Proceeds starting s runs well = (_, refl, well)
  thread_step-Proceeds load_restart s runs well = (_, refl, well)
  thread_step-Proceeds reset_game s runs well =
      let (c', done, well') =
        reset_game_server-IsWell stack malloc file s.console loadable roomy well in
      (_, reset_done s c' done, well')
  thread_step-Proceeds store_restart s runs well = (_, refl, well)
  thread_step-Proceeds store_start s runs well = (_, refl, well)
  thread_step-Proceeds load_connected s runs well = (_, refl, well)
  thread_step-Proceeds load_step s runs well = (_, refl, well)
  thread_step-Proceeds step_cycle s runs well = cycle_to-Proceeds store_step s well
  thread_step-Proceeds store_step s runs well = (_, refl, well)
  thread_step-Proceeds load_connected_again s runs well = (_, refl, well)
  thread_step-Proceeds load_start s runs well = (_, refl, well)
  thread_step-Proceeds run_cycle s runs well = cycle_to-Proceeds load_restart s well

  thread_step-IsWell :
      (s : Server) {s' : Server}
      → IsWell false s.console.machine
      → thread_step stack malloc (some file) s ≡ some s'
      → IsWell false s'.console.machine
  unfolding thread_step is_waiting thread_step_from
  thread_step-IsWell s well taken = elim (Bool-cases (is_waiting s.point)) [
    | inl waits ↦ absurd (ground arith)
    | inr runs ↦
        let (s', done, well') = thread_step-Proceeds s.point s runs well in
        subst Holds (sym done ∙ taken) well'
  ]

  thread_step-cases :
      (s : Server)
      → IsWell false s.console.machine
      → (s.point ≡ waiting) ⊎ ((s' : Server) × (thread_step stack malloc (some file) s ≡ some s'))
  unfolding thread_step is_waiting
  thread_step-cases s well = elim (Bool-cases (is_waiting s.point)) [
    | inl waits ↦ inl (ground arith)
    | inr runs ↦ let (s', done, _) = thread_step-Proceeds s.point s runs well in inr (s', done)
  ]

module _ (stack : ℕ → ℕ) (malloc : Allocator) (file : Buffer) (occurs : Event → Bool)
    (c : Console) where
  reached :
      {s : Server}
      → Reach stack malloc (some file) occurs (init_globals c) s
      → is_loadable malloc file ≡ true
      → is_roomy file ≡ true
      → IsWell false c.machine
      → IsWell false s.console.machine
  reached here loadable roomy well = well
  reached (next {s' = s} before (outside e _ same)) loadable roomy well =
      rw (sym (ap (λ x. x.console) same), handle-same e s) (reached before loadable roomy well)
  reached (next {s' = s} before (emulator taken)) loadable roomy well =
      thread_step-IsWell stack malloc file loadable roomy s (reached before loadable roomy well)
        taken

module _ (stack : ℕ → ℕ) (malloc : Allocator) (file : Buffer) where
  -- Whatever the interleaving of the emulator's thread with the client's events, from a console that a
  -- reset with a loadable file of a type that leaves room has started: the machine is well-formed in
  -- every state that is reached, and the calls of the thread are never undefined, since its next step is
  -- missing only where it waits for the condition variable. The file of the tiles can be opened, and the
  -- accesses to `wsClient`, which race in the source, are taken one at a time.
  pub Reach-IsWell :
      (occurs : Event → Bool) (c : Console) {s : Server}
      → is_loadable malloc file ≡ true
      → is_roomy file ≡ true
      → IsWell false c.machine
      → Reach stack malloc (some file) occurs (init_globals c) s
      → IsWell false s.console.machine
        × ((s.point ≡ waiting)
            ⊎ ((s' : Server) × (thread_step stack malloc (some file) s ≡ some s')))
  Reach-IsWell occurs c {s} loadable roomy well reach =
      let well' = reached stack malloc file occurs c reach loadable roomy well in
      (well', thread_step-cases stack malloc file loadable roomy s well')
