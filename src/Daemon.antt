-- ===== src/Daemon.antt =====
-- daemon_lifecycle.py and daemon_supervisor.py: the lifecycle of one supervised daemon.
pub mod Exec
pub mod Launch
pub mod Control
pub mod Grants
pub mod Signals
pub mod Launches
pub mod Stops
pub mod Served
use agent_session_harness.Prelude.{
  ℕ, String, Bool, true, false, not, ◌&&◌, List, Option, none, some, is_none,
}
use agent_session_harness.Resources.State.{ProcessIdentity, ProcessState}

pub data DaemonLifecyclePhase : Type 0 where
  stopped starting running stopping failed : DaemonLifecyclePhase

-- The texts of `detail`.
pub data Detail : Type 0 where
  creation_failed probe_failed publication_failed cleanup_failed group_remains : Detail
  lifetime_absent deadlines_passed : Detail

pub record DaemonLifecycleRecord : Type 0 where
  pub daemon_key : String
  pub phase : DaemonLifecyclePhase
  pub generation : ℕ
  pub changed_at : ℕ
  pub detail : Option Detail
  pub process_identity : Option ProcessIdentity

unfoldable pub is_running : DaemonLifecyclePhase → Bool
is_running running = true
is_running _ = false

-- `require_running_identity`
unfoldable pub is_valid : DaemonLifecycleRecord → Bool
unfolding is_running
is_valid r = not (is_running r.phase && is_none r.process_identity)

pub data ChildState : Type 0 where
  child_running child_zombie child_missing : ChildState

pub data DaemonError : Type 0 where
  identity_unknown launch_failed stop_timeout different_daemon contract unpublished : DaemonError

-- The signals to a process group.
pub data Signal : Type 0 where
  term kill : Signal

-- What a controller does, the latest first.
pub data Call : Type 0 where
  publish : DaemonLifecycleRecord → Call
  spawn : Option ℕ → Call
  observe : ProcessIdentity → Call
  capture child_status read_processes wait poll : ℕ → Call
  signal_group : Signal → ℕ → Call
  pause : Call

abbrev pub Trace : Type 0
Trace = List Call

-- A line of `ps`, in fields: the process group and whether its status starts with a Z.
pub record PsLine : Type 0 where
  pub group : ℕ
  pub is_zombie : Bool

-- The operating system, by what was done before. `spawned` is the new child's pid, none for an
-- OSError; `listed` the lines of `ps`, none after its timeout; `polls` how often a wait looks before
-- its deadline; `exists` whether killpg finds the group; `written` whether the state file can be
-- written; `ended` whether `poll` has an exit code.
pub record System : Type 0 where
  pub clock : Trace → ℕ
  pub spawned : Trace → Option ℕ
  pub captured : Trace → ℕ → Option ProcessIdentity
  pub observed : Trace → ProcessIdentity → ProcessState
  pub child_state : Trace → ℕ → ChildState
  pub listed : Trace → Option (List PsLine)
  pub polls : Trace → ℕ
  pub exists : Trace → ℕ → Bool
  pub ended : Trace → ℕ → Bool
  pub written : Trace → DaemonLifecycleRecord → Bool

-- `DaemonSupervisor`, by what its methods read of the definition and the arguments.
pub record Definition : Type 0 where
  pub daemon_key : String
  pub allow_process_takeover : Bool

-- The state file, the child that was launched, and the history.
pub record DaemonSupervisor : Type 0 where
  pub file : Option DaemonLifecycleRecord
  pub child : Option ℕ
  pub trace : Trace
