-- ===== src/Netif/Serving.antt =====
-- The main functions of src/fs/DMServer.cpp and src/fs/FMServer.cpp, with `startServer` and `stopServer`:
-- when an interrupt ends a server.
use undergraduate_project.Shared.{◌≡◌, refl, Bool, true, false, if◌then◌else◌, List, [], ◌∷◌}

-- Before `netif` is assigned, before `startServer` sets `shouldRun`, in its loop, and after it.
pub data Phase : Type 0 where
  setting_up connected serving finished : Phase

pub record Main : Type 0 where
  pub phase : Phase
  pub should_run : Bool

-- The next step of the main thread (in the loop, one turn of the event loop), or the signal.
pub data Event : Type 0 where
  advance interrupt : Event

unfoldable pub advance_main : Main → Main
advance_main s = elim s.phase [
  | setting_up ↦ record s { phase = connected }
  | connected ↦ record { phase = serving; should_run = true }
  | serving ↦ if s.should_run then s else record s { phase = finished }
  | finished ↦ s
]

-- `CtrlCHandler`: nothing while `netif` is null.
unfoldable pub ctrl_c_handler : Main → Main
ctrl_c_handler s = elim s.phase [
  | setting_up ↦ s
  | connected ↦ record s { should_run = false }
  | serving ↦ record s { should_run = false }
  | finished ↦ record s { should_run = false }
]

unfoldable pub step : Main → Event → Main
unfolding advance_main ctrl_c_handler
step s advance = advance_main s
step s interrupt = ctrl_c_handler s

unfoldable pub run : Main → List Event → Main
unfolding step
run s [] = s
run s (e ∷ events) = run (step s e) events

abbrev pub is_finished : Phase → Bool
is_finished finished = true
is_finished _ = false

-- When a server ends, told from the events alone: two steps of the main thread, with interrupts that are lost, then
-- turns, an interrupt, and one step more.
abbrev pub ends_after_interrupt : List Event → Bool
ends_after_interrupt [] = false
ends_after_interrupt (advance ∷ events) = true
ends_after_interrupt (interrupt ∷ events) = ends_after_interrupt events

abbrev pub ends_serving : List Event → Bool
ends_serving [] = false
ends_serving (advance ∷ events) = ends_serving events
ends_serving (interrupt ∷ events) = ends_after_interrupt events

abbrev pub ends_connected : List Event → Bool
ends_connected [] = false
ends_connected (advance ∷ events) = ends_serving events
ends_connected (interrupt ∷ events) = ends_connected events

abbrev pub ends : List Event → Bool
ends [] = false
ends (advance ∷ events) = ends_connected events
ends (interrupt ∷ events) = ends events

run_finished :
    (r : Bool) (events : List Event)
    → is_finished (run (record { phase = finished; should_run = r }) events).phase ≡ true
unfolding run
run_finished r [] = refl
run_finished r (advance ∷ events) = run_finished r events
run_finished r (interrupt ∷ events) = run_finished false events

run_stopping :
    (events : List Event)
    → is_finished (run (record { phase = serving; should_run = false }) events).phase
      ≡ ends_after_interrupt events
unfolding run
run_stopping [] = refl
run_stopping (advance ∷ events) = run_finished false events
run_stopping (interrupt ∷ events) = run_stopping events

run_serving :
    (events : List Event)
    → is_finished (run (record { phase = serving; should_run = true }) events).phase
      ≡ ends_serving events
unfolding run
run_serving [] = refl
run_serving (advance ∷ events) = run_serving events
run_serving (interrupt ∷ events) = run_stopping events

run_connected :
    (r : Bool) (events : List Event)
    → is_finished (run (record { phase = connected; should_run = r }) events).phase
      ≡ ends_connected events
unfolding run
run_connected r [] = refl
run_connected r (advance ∷ events) = run_serving events
run_connected r (interrupt ∷ events) = run_connected false events

-- A server ends just when an interrupt comes while it serves and its loop takes a turn after it; every
-- interrupt before `startServer` set its flag is lost.
pub ends_when_interrupted :
    (r : Bool) (events : List Event)
    → is_finished (run (record { phase = setting_up; should_run = r }) events).phase ≡ ends events
unfolding run
ends_when_interrupted r [] = refl
ends_when_interrupted r (advance ∷ events) = run_connected r events
ends_when_interrupted r (interrupt ∷ events) = ends_when_interrupted r events
