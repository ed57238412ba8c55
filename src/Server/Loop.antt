-- ===== src/Server/Loop.antt =====
-- src/Platforms/main_server.c: the loop against its reading in one piece, and the flags.
use game_bloat.Prelude.{
  ℕ, List, ◌∷◌, suc, ◌<◌, ◌≤◌, ◌≡◌, refl, arith, Option, none, some, Bool, true, false,
  if◌then◌else◌, ◌&&◌, sym,
}
use mathlib.Core.Path.{subst}
use game_bloat.Prelude.Buffer.{Buffer}
use game_bloat.Machine.{Machine}
use game_bloat.Cartridge.File.{Allocator}
use game_bloat.Console.{Console, loop_cycle, reset_game_server}
use game_bloat.Server.{
  Server, Point, starting, waiting, load_restart, reset_game, step_cycle, load_connected,
  store_connected, store_client, signal, message, Message, reset, step_once, start, stop, other,
  on_message, thread_step, thread_step_from, run_alone, handle,
}

-- The body of the `while`, read in one piece: a reset that was asked for, then a cycle if the client is
-- connected and asked for a step or for running. Each sends to the client.
unfoldable pub cycled : (step' : Bool) → Server → Option Server
cycled step' s = elim (loop_cycle s.console.machine) [
  | none ↦ none
  | some (_, m) ↦ some (record s {
    console = record (s.console) { machine = m };
    step = step';
    point = load_restart;
    sent = s.ws_client ∷ s.sent;
  })
]

unfoldable pub serve : Server → Option Server
serve s =
    if s.ws_connected && s.step
    then cycled false s
    else if s.ws_connected && s.start_game
    then cycled s.step s
    else some (record s { point = load_restart })

unfoldable pub one_pass : (stack : ℕ → ℕ) → Allocator → Option Buffer → Server → Option Server
one_pass stack malloc file s =
    if s.restart_game
    then elim (reset_game_server stack malloc file s.console) [
      | none ↦ none
      | some c ↦ serve (record s {
        console = c;
        restart_game = false;
        start_game = false;
        sent = s.ws_client ∷ s.sent;
      })
    ]
    else serve s

cycle_then :
    (x : Option (Unit {0} × Machine)) (f : Machine → Server) (g : Server → Option Server)
    (h : Machine → Server)
    → ((m : Machine) → g (f m) ≡ some (h m))
    → elim (elim x as (λ _. Option Server) [ none ↦ none | some (_, m) ↦ some (f m) ])
        as (λ _. Option Server) [ none ↦ none | some s' ↦ g s' ]
      ≡ elim x as (λ _. Option Server) [ none ↦ none | some (_, m) ↦ some (h m) ]
cycle_then none f g h same = refl
cycle_then (some (_, m)) f g h same = same m

reset_then :
    (x : Option Console) (f : Console → Server) (g h : Server → Option Server)
    (k : Console → Server)
    → ((c : Console) → g (f c) ≡ h (k c))
    → elim (elim x as (λ _. Option Server) [ none ↦ none | some c ↦ some (f c) ])
        as (λ _. Option Server) [ none ↦ none | some s' ↦ g s' ]
      ≡ elim x as (λ _. Option Server) [ none ↦ none | some c ↦ h (k c) ]
reset_then none f g h k same = refl
reset_then (some c) f g h k same = same c

-- The steps from `load_connected` to the end of the pass.
steps_left : (connected step' start' : Bool) → ℕ
steps_left true true _ = 4
steps_left true false true = 5
steps_left true false false = 4
steps_left false _ _ = 2

-- The steps of the whole pass.
unfoldable pub steps_of : Server → ℕ
unfolding steps_left
steps_of s =
    if s.restart_game
    then suc (suc (suc (suc (steps_left s.ws_connected s.step false))))
    else suc (steps_left s.ws_connected s.step s.start_game)

module _ (stack : ℕ → ℕ) (malloc : Allocator) (file : Option Buffer) where
  abbrev alone : ℕ → Server → Option Server
  alone n s = run_alone stack malloc file n s

  serve_lem :
      (c : Console) (p : Point) (connected restart step' start' : Bool) (client : ℕ) (sent : List ℕ)
      → let s : Server = record {
        console = c;
        ws_connected = connected;
        restart_game = restart;
        start_game = start';
        step = step';
        point = load_connected;
        ws_client = client;
        sent = sent;
      } in
        alone (steps_left connected step' start') s ≡ serve (record s { point = p })
  unfolding run_alone thread_step thread_step_from serve cycled steps_left
  serve_lem c p true restart true start' client sent =
      cycle_then (loop_cycle c.machine) _ _ _ (λ m. refl)
  serve_lem c p true restart false true client sent =
      cycle_then (loop_cycle c.machine) _ _ _ (λ m. refl)
  serve_lem c p true restart false false client sent = refl
  serve_lem c p false restart step' start' client sent = refl

  pass_lem :
      (c : Console) (connected restart step' start' : Bool) (client : ℕ) (sent : List ℕ)
      → let s : Server = record {
        console = c;
        ws_connected = connected;
        restart_game = restart;
        start_game = start';
        step = step';
        point = load_restart;
        ws_client = client;
        sent = sent;
      } in
        alone (steps_of s) s ≡ one_pass stack malloc file s
  unfolding steps_of run_alone thread_step thread_step_from one_pass
  pass_lem c connected false step' start' client sent =
      serve_lem c load_restart connected false step' start' client sent
  pass_lem c connected true step' start' client sent =
      reset_then (reset_game_server stack malloc file c) _ _ serve _
        (λ c'. serve_lem c' load_restart connected false step' false client (client ∷ sent))

  steps_left-bound : (a b c : Bool) → (0 < steps_left a b c) × (steps_left a b c ≤ 5)
  unfolding steps_left
  steps_left-bound a b c = ground arith

  steps_of-bound : (s : Server) → (0 < steps_of s) × (steps_of s ≤ 9)
  unfolding steps_of
  steps_of-bound s =
      let restarted = steps_left-bound s.ws_connected s.step false in
      let running = steps_left-bound s.ws_connected s.step s.start_game in
      ground (arith, restarted, running)

  -- With nothing from outside in between, at most nine steps of the thread from the head of the loop do
  -- what the body of the loop says in one piece, and stand at its head again.
  pub run_alone-one_pass :
      (s : Server)
      → s.point ≡ load_restart
      → (0 < steps_of s)
        × (steps_of s ≤ 9)
        × (run_alone stack malloc file (steps_of s) s ≡ one_pass stack malloc file s)
  unfolding steps_of
  run_alone-one_pass s head =
      let (some_step, few) = steps_of-bound s in
      (
        some_step,
        few,
        subst
            (λ p.
              alone (steps_of s) (record s { point = p })
              ≡ one_pass stack malloc file (record s { point = p }))
            (sym head)
            (pass_lem s.console s.ws_connected s.restart_game s.step s.start_game s.ws_client
              s.sent),
      )

  -- Commands that arrive when the work they ask for has been decided on and is not yet done are lost:
  -- a step asked for behind the test of the flag, before the cycle of that step, and a start or another
  -- reset asked for before a reset. The cycle, or the reset, is done once, and behind it the flag is
  -- false all the same, so the thread goes on as if the command had not come.
  pub commands_lost :
      (s : Server)
      → let stepping = record s { point = step_cycle } in
        let resetting = record s { point = reset_game } in
        let cycled_once = elim (loop_cycle s.console.machine) as (λ _. Option Server) [
          | none ↦ none
          | some (_, m) ↦ some (record s {
            console = record (s.console) { machine = m };
            step = false;
            point = load_restart;
            sent = s.ws_client ∷ s.sent;
          })
        ] in
        let reset_once =
          elim (reset_game_server stack malloc file s.console) as (λ _. Option Server) [
            | none ↦ none
            | some c ↦ some (record s {
              console = c;
              restart_game = false;
              start_game = false;
              point = load_connected;
              sent = s.ws_client ∷ s.sent;
            })
          ] in
        (run_alone stack malloc file 2 (handle (message step_once) stepping) ≡ cycled_once)
        × (run_alone stack malloc file 3 (handle (message start) resetting) ≡ reset_once)
        × (run_alone stack malloc file 3 (handle (message reset) resetting) ≡ reset_once)
  unfolding run_alone thread_step thread_step_from handle on_message
  commands_lost s = (
    cycle_then (loop_cycle s.console.machine) _ _ _ (λ m. refl),
    reset_then (reset_game_server stack malloc file s.console) _ _ some _ (λ c. refl),
    reset_then (reset_game_server stack malloc file s.console) _ _ some _ (λ c. refl),
  )

  message_point :
      (m : Message) (s : Server)
      → s.point ≡ waiting
      → thread_step stack malloc file (handle (message m) s) ≡ none
  unfolding thread_step thread_step_from handle on_message
  message_point reset s at = rw at refl
  message_point step_once s at = rw at refl
  message_point start s at = rw at refl
  message_point stop s at = rw at refl
  message_point other s at = rw at refl

  -- A client that connects before the thread waits wakes nobody: the thread then waits, and stays
  -- blocked, although the client is connected: a message does not wake it.
  pub signal_lost :
      (s : Server) (client : ℕ) (m : Message)
      → s.point ≡ starting
      → (s' : Server) × (thread_step stack malloc file
            (handle signal (handle (store_client client) (handle store_connected s)))
          ≡ some s')
        × (s'.ws_connected ≡ true)
        × (thread_step stack malloc file s' ≡ none)
        × (thread_step stack malloc file (handle (message m) s') ≡ none)
  unfolding thread_step thread_step_from handle on_message
  signal_lost s client m at = (
    record s { ws_connected = true; ws_client = client; point = waiting },
    rw at refl,
    refl,
    refl,
    message_point m _ refl,
  )
