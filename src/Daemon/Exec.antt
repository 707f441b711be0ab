-- ===== src/Daemon/Exec.antt =====
-- daemon_supervisor.py: the statements of the methods; an action may raise and keeps what it did.
use agent_session_harness.Prelude.{
  ℕ, zero, suc, Bool, true, false, not, ◌&&◌, List, [], ◌∷◌, Option, none, some, Except, returned,
  thrown, same, string_eq, nat_eq, if◌then◌else◌,
}
use agent_session_harness.Resources.State.{ProcessIdentity, ProcessState}
use agent_session_harness.Daemon.{
  DaemonLifecyclePhase, Detail, DaemonLifecycleRecord, is_valid, DaemonError, contract, unpublished,
  Signal, Call, publish, observe, read_processes, wait, signal_group, pause, Trace, PsLine, System,
  Definition, DaemonSupervisor,
}

abbrev pub M : Type 0 → Type 0
M A = DaemonSupervisor → Except DaemonError A × DaemonSupervisor

unfoldable pub pure : {A : Type 0} → A → M A
pure a s = (returned a, s)

unfoldable pub continue_with :
    {A B : Type 0}
    → (A → M B)
    → Except DaemonError A × DaemonSupervisor
    → Except DaemonError B × DaemonSupervisor
continue_with f (returned a, s) = f a s
continue_with f (thrown e, s) = (thrown e, s)

infixl 5 ◌>>=◌ ◌>>◌
unfoldable pub ◌>>=◌ : {A B : Type 0} → M A → (A → M B) → M B
◌>>=◌ m f s = continue_with f (m s)

unfoldable pub ◌>>◌ : {B : Type 0} → M (Unit {0}) → M B → M B
unfolding ◌>>=◌
◌>>◌ m k = m >>= λ _. k

unfoldable pub choose : {A : Type 0} → Bool → M A → M A → M A
choose true m n = m
choose false m n = n

unfoldable pub raise : {A : Type 0} → DaemonError → M A
raise e s = (thrown e, s)

-- `try: … except BaseException: …`
unfoldable pub attempt : {A : Type 0} → M A → M (Except DaemonError A)
attempt m s = (returned (m s).0, (m s).1)

unfoldable pub get : M DaemonSupervisor
get s = (returned s, s)

unfoldable pub set_child : Option ℕ → M (Unit {0})
set_child c s = (returned tt, record s { child = c })

-- A call that is answered by what was done before.
unfoldable pub ask : {A : Type 0} → Call → (Trace → A) → M A
ask c answer s = (returned (answer s.trace), record s { trace = c ∷ s.trace })

-- A group of `ps` with a line that is no zombie.
unfoldable pub has_live_line : ℕ → List PsLine → Bool
has_live_line group [] = false
has_live_line group (l ∷ ls) =
    let rest = has_live_line group ls in
    if same l.group group && not l.is_zombie then true else rest

unfoldable pub is_live_group : ℕ → Option (List PsLine) → Bool
unfolding has_live_line
is_live_group group none = true
is_live_group group (some ls) = has_live_line group ls

-- `_owned_child`
unfoldable pub owned_child : ℕ → Option ℕ → Option ℕ
owned_child pid none = none
owned_child pid (some child) = if same child pid then some child else none

module _ (x : System) (d : Definition) where
  -- `DaemonLifecycleStore.read`
  unfoldable pub read : M (Option DaemonLifecycleRecord)
  unfolding is_valid
  read s = elim s.file [
    | none ↦ (returned none, s)
    | some r ↦ if is_valid r then (returned (some r), s) else (thrown contract, s)
  ]

  -- `DaemonLifecycleStore.publish`
  unfoldable pub store : DaemonLifecycleRecord → M (Unit {0})
  unfolding is_valid
  store r s =
      if not (is_valid r)
      then (thrown contract, s)
      else if x.written s.trace r
      then (returned tt, record s { file = some r; trace = publish r ∷ s.trace })
      else (thrown unpublished, s)

  -- `_publish`
  unfoldable pub publish_phase :
      DaemonLifecyclePhase → ℕ → Option Detail → Option ProcessIdentity → M DaemonLifecycleRecord
  publish_phase phase generation detail identity = do
    s ← get
    let r : DaemonLifecycleRecord = record {
      daemon_key = d.daemon_key;
      phase = phase;
      generation = generation;
      changed_at = x.clock s.trace;
      detail = detail;
      process_identity = identity;
    }
    store r
    pure r

  unfoldable pub observe_identity : ProcessIdentity → M ProcessState
  observe_identity i = ask (observe i) (λ t. x.observed t i)

  -- `_process_group_has_live_members`
  unfoldable pub has_live_members : ℕ → M Bool
  has_live_members group = ask (read_processes group) (λ t. is_live_group group (x.listed t))

  -- `os.killpg`; false for a ProcessLookupError.
  unfoldable pub signal : Signal → ℕ → M Bool
  signal which group = ask (signal_group which group) (λ t. x.exists t group)

  -- `child.wait()` of a child, if there is one.
  unfoldable pub wait_child : Option ℕ → M (Unit {0})
  wait_child none = pure tt
  wait_child (some pid) = ask (wait pid) (λ _. tt)

  -- The loop of `_wait_group_absent`, as often as the deadline allows.
  unfoldable pub poll_group : ℕ → ℕ → Option ℕ → M Bool
  poll_group zero group child = pure false
  poll_group (suc n) group child = do
    alive ← has_live_members group
    choose alive (do ask pause (λ _. tt); poll_group n group child) (do wait_child child; pure true)

  unfoldable pub wait_group_absent : ℕ → Option ℕ → M Bool
  wait_group_absent group child = do s ← get; poll_group (x.polls s.trace) group child
