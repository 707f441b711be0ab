-- ===== src/Supervisor/Start.antt =====
-- supervisor.py: the first launch (`_start_unlocked`), and the requests that a supervisor serves.
pub mod History
use agent_session_harness.Prelude.{
  ℕ, String, Bool, true, false, not, ◌&&◌, ◌||◌, Option, none, some, List, [], ◌∷◌, ◌==◌,
}
use agent_session_harness.Models.{ActivitySnapshot}
use agent_session_harness.Supervisor.State.{
  Phase, launching, running, Settings, Snapshot, Supervisor, initial_snapshot, started, finished,
  claim_effect, launch_effect, claim_task, start_process,
}
use agent_session_harness.Supervisor.World.{World}
use agent_session_harness.Supervisor.Exec.{
  M, choose, pure, get, ask, note, update, save, set_current, now, ◌>>=◌, ◌>>◌,
}
use agent_session_harness.Supervisor.Usage.{UsageSample}
use agent_session_harness.Supervisor.Acknowledge.{acknowledge_unlocked}
use agent_session_harness.Supervisor.Tick.{
  is_initial, is_completed, finalize_completed_cleanup, ensure_active_process_is_live,
  tick_unlocked,
}

unfoldable pub is_launching : Phase → Bool
is_launching launching = true
is_launching _ = false

module _ (w : World) (settings : Settings) where
  pub first_claim : M (Unit {0})
  first_claim = do
    save
    note claim_effect started 0
    at ← now w
    claim ← ask (claim_task 0) (λ t. w.claim t 0 at)
    update (λ snapshot. record snapshot {
      generation = 0;
      phase = launching;
      owner_session_id = some 0;
      claim = some claim;
      last_heartbeat_at = some at;
    })
    save
    note claim_effect finished 0

  pub first_launch : M (Unit {0})
  first_launch = do
    note launch_effect started 0
    p ← ask (start_process 0) (λ t. w.start_fresh t 0)
    set_current (some p)
    update (λ snapshot. record snapshot { phase = running; process = some p })
    save
    note launch_effect finished 0

  -- `_start_unlocked`; the launch request of generation 0 is not checked.
  unfoldable pub start_unlocked : M (Unit {0})
  unfolding first_claim first_launch
  start_unlocked = do
    s ← get
    choose (is_completed s.snapshot.phase) (finalize_completed_cleanup w settings) (do
      choose (is_initial s.snapshot.phase) first_claim (pure tt)
      t ← get
      choose (is_launching t.snapshot.phase && t.snapshot.generation == 0) first_launch
          (ensure_active_process_is_live w settings))

-- A request to a supervisor, with what the caller hands over.
pub data Request : Type 0 where
  start : Request
  tick : ActivitySnapshot → Option UsageSample → Request
  acknowledge : ℕ → Option String → String → ℕ → Request

-- A supervisor without a state file.
abbrev pub fresh_supervisor : Supervisor
fresh_supervisor = record {
  snapshot = initial_snapshot;
  disk = initial_snapshot;
  current_process = none;
  successor_abort_pending = false;
  trace = [];
}

unfoldable pub serve : World → Settings → Request → M (Unit {0})
serve w settings start = start_unlocked w settings
serve w settings (tick activity sample) = tick_unlocked w settings activity sample
serve w settings (acknowledge generation fingerprint conversation owner_pid) =
    acknowledge_unlocked w settings generation fingerprint conversation owner_pid

-- The supervisor after a sequence of requests, each of which may have raised.
unfoldable pub serve_all : World → Settings → List Request → Supervisor → Supervisor
serve_all w settings [] s = s
serve_all w settings (r ∷ rs) s = serve_all w settings rs (serve w settings r s).1
