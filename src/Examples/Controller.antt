-- ===== src/Examples/Controller.antt =====
-- A controller that launches a daemon, stops it and launches it again.
use agent_session_harness.Prelude.{◌≡◌, true, false, none, some, [], ◌∷◌}
use agent_session_harness.Resources.State.{ProcessIdentity, ProcessState}
use agent_session_harness.Daemon.{child_running, System, Definition}
use agent_session_harness.Daemon.Control.{starts, stops, restarts, asks, serve_all}
use agent_session_harness.Daemon.Grants.{is_permitted}
use agent_session_harness.Daemon.Served.{serve_all-permitted}

abbrev leader : ProcessIdentity
leader = record {
  platform = "linux";
  pid = 7;
  opaque_start_token = "boot:7";
  executable_identity = "python";
  captured_at = 1;
}

-- Every process is alive, so that a stop has to kill.
abbrev busy_system : System
busy_system = record {
  clock = λ t. 1;
  spawned = λ t. some 7;
  captured = λ t pid. some leader;
  observed = λ t i. ProcessState.running;
  child_state = λ t pid. child_running;
  listed = λ t. none;
  polls = λ t. 2;
  exists = λ t pid. true;
  ended = λ t pid. false;
  written = λ t r. true;
}

abbrev own_daemon : Definition
own_daemon = record { daemon_key = "guardian"; allow_process_takeover = false }

serve_all-permitted_example :
    is_permitted busy_system own_daemon
      (serve_all busy_system own_daemon
        (starts ∷ stops ∷ restarts ∷ asks ∷ [])
        (record { file = none; child = none; trace = [] })).trace
    ≡ true
serve_all-permitted_example =
    serve_all-permitted busy_system own_daemon (starts ∷ stops ∷ restarts ∷ asks ∷ []) none
