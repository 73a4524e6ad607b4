-- ===== src/Supervisor/Runs.antt =====
-- Runs of the supervisor: any number of passes of its loop.
use esp32_monitor.Base.{List, [], ◌∷◌}
use esp32_monitor.BleLink.{LinkState}
use esp32_monitor.Network.{NetworkState}
use esp32_monitor.Storage.{StorageState}
use esp32_monitor.Supervisor.{Runtime, Env}
use esp32_monitor.Supervisor.Actions.{Panel}
use esp32_monitor.Supervisor.Loop.{Arrivals, supervisor_pass}
use esp32_monitor.Supervisor.Darkness.{Answers, IsDark, SeenDark, dark-IsKept}
use esp32_monitor.Supervisor.Secrecy.{IsSecret, SeenSecret, secret-IsKept}
use esp32_monitor.Supervisor.Passes.{supervisor_pass-Holds}

-- What the host task, the network's events and the log's task make of their parts of the runtime
-- record before a pass, what the pass meets before and after the event of the link, and what arrives.
pub record Pass (Node Float : Type 0) : Type 0 where
  pub host_task : LinkState → LinkState
  pub network_events : NetworkState → NetworkState
  pub log_task : StorageState → StorageState
  pub before : Env Node
  pub after : Env Node
  pub panel : Panel Float
  pub arrivals : Arrivals

module _ {Node Float : Type 0} where
  abbrev pub by_others : Pass Node Float → Runtime → Runtime
  by_others pass runtime = record runtime {
    link = pass.host_task runtime.link;
    network = pass.network_events runtime.network;
    storage = pass.log_task runtime.storage;
  }

  abbrev pub run_passes : List (Pass Node Float) → Runtime → Runtime
  run_passes [] runtime = runtime
  run_passes (pass ∷ passes) runtime =
      run_passes passes
        (supervisor_pass pass.before pass.after pass.panel pass.arrivals (by_others pass runtime))

  -- The lock of the screen is got in every pass, and the backlight goes off when it is told to.
  abbrev pub AllAnswer : List (Pass Node Float) → Type 0
  AllAnswer [] = Unit
  AllAnswer (pass ∷ passes) = (Answers pass.before × Answers pass.after) × AllAnswer passes

  -- With a touch input, a lock of the screen that is got in every pass and a backlight that goes off
  -- whenever it is told to, any run of the supervisor, whatever other tasks do to the link, the
  -- network and the log between its passes, keeps the screen and the touch input off
  -- outside an active session.
  pub run_passes-IsDark :
      (passes : List (Pass Node Float)) (runtime : Runtime)
      → AllAnswer passes
      → IsDark runtime
      → IsDark (run_passes passes runtime)
  run_passes-IsDark [] runtime l h = h
  run_passes-IsDark (pass ∷ passes) runtime l h = run_passes-IsDark passes _ l.1 (
      supervisor_pass-Holds pass.before pass.after pass.panel SeenDark
        (dark-IsKept pass.before l.0.0) (dark-IsKept pass.after l.0.1) pass.arrivals
        (by_others pass runtime) h)

  -- Any run of the supervisor, whatever arrives, whatever the calls answer and whatever other tasks
  -- do to the link, the network and the log between its passes, keeps it so that in
  -- LOCKED the system state, the control layout, the state of the agents and the media state are
  -- those of the start.
  pub run_passes-IsSecret :
      (passes : List (Pass Node Float)) (runtime : Runtime)
      → IsSecret runtime
      → IsSecret (run_passes passes runtime)
  run_passes-IsSecret [] runtime h = h
  run_passes-IsSecret (pass ∷ passes) runtime h = run_passes-IsSecret passes _ (
      supervisor_pass-Holds pass.before pass.after pass.panel SeenSecret (secret-IsKept pass.before)
        (secret-IsKept pass.after) pass.arrivals (by_others pass runtime) h)
