-- ===== src/Supervisor/Shutdown.antt =====
-- supervisor.py: the end of a supervisor (`_shutdown_unlocked`).
pub mod Spares
pub mod Claim
pub mod Released
use agent_session_harness.Prelude.{
  ℕ, Bool, true, false, not, ◌&&◌, ◌||◌, Option, none, some, is_none, ltb, if◌then◌else◌,
}
use agent_session_harness.Supervisor.State.{
  Settings, Phase, blocked, launching, awaiting_ack, stopping, ManagedProcess, ClaimHandle,
  Snapshot, Supervisor, detached, detach_effect, stop_effect, fence_effect, started, finished,
  probe_alive, stop_process, clear_exit, fence_claim,
}
use agent_session_harness.Supervisor.World.{World, Fault, runtime, stale_owner, value}
use agent_session_harness.Supervisor.Exec.{
  M, Result, ok, err, Error, fault, choose, pure, raise, fail, attempt, get, ask, note, update,
  save, set_current, persist_blocked, ◌>>=◌, ◌>>◌,
}
use agent_session_harness.Supervisor.Heartbeat.{is_io}
use agent_session_harness.Supervisor.Tick.{is_completed, finalize_completed_cleanup}

-- The phases of a successor on trial and of a predecessor that is being rotated out.
unfoldable pub is_ending : Phase → Bool
is_ending launching = true
is_ending awaiting_ack = true
is_ending stopping = true
is_ending _ = false

-- `_runtime_was_adopted`
unfoldable pub runtime_was_adopted : Supervisor → Bool
unfolding is_ending
runtime_was_adopted s =
    if s.successor_abort_pending
    then false
    else if is_ending s.snapshot.phase
    then false
    else not (ltb 0 s.snapshot.generation && is_none s.snapshot.conversation_id)

-- An error of a stop that the shutdown remembers; ValueError is not caught there.
unfoldable pub is_stop_error : Error → Bool
is_stop_error (fault stale_owner) = true
is_stop_error (fault runtime) = true
is_stop_error _ = false

module _ (w : World) where
  -- The live runtime is left running.
  unfoldable pub detach : ℕ → M (Unit {0})
  detach generation = do
    note detach_effect started generation
    update (λ snapshot. record snapshot { supervision_alarm = some detached })
    save
    note detach_effect finished generation

  unfoldable pub after_stop : Result (Unit {0}) → M (Unit {0})
  unfolding is_stop_error
  after_stop (ok _) = pure tt
  after_stop (err e) = choose (is_stop_error e) (pure tt) (fail e)

  -- A process that survives its stop is a failure.
  unfoldable pub require_dead : Bool → M (Unit {0})
  require_dead alive = choose alive (do persist_blocked; raise runtime) (pure tt)

  unfoldable pub terminate : ManagedProcess → ℕ → M (Unit {0})
  unfolding after_stop require_dead
  terminate p generation = do
    note stop_effect started generation
    r ← attempt (ask (stop_process p) λ t. w.graceful_stop t p)
    after_stop r
    alive ← ask (probe_alive p) (λ t. w.is_alive t p)
    require_dead alive
    note stop_effect finished generation

  -- The exit record is cleared; whether that failed.
  unfoldable pub after_clear : Result (Unit {0}) → M Bool
  after_clear (ok _) = pure false
  after_clear (err e) = choose (is_io e) (pure true) (fail e)

  unfoldable pub clear_record : Bool → ManagedProcess → M Bool
  unfolding after_clear
  clear_record was_detached p =
      choose was_detached (pure false)
        (do r ← attempt (ask (clear_exit p) λ t. w.clear_exit_status t p); after_clear r)

  unfoldable pub end_live : Bool → ManagedProcess → ℕ → M (Unit {0})
  unfolding detach terminate
  end_live adopted p generation = choose adopted (detach generation) (terminate p generation)

  -- What becomes of the process; whether its exit record could not be cleared.
  unfoldable pub end_process : Bool → Option ManagedProcess → M Bool
  unfolding end_live clear_record
  end_process adopted none = pure false
  end_process adopted (some p) = do
    update (λ snapshot. record snapshot { phase = blocked })
    save
    s ← get
    alive ← ask (probe_alive p) (λ t. w.is_alive t p)
    choose alive (end_live adopted p s.snapshot.generation) (pure tt)
    clear_record (alive && adopted) p

  -- Whether the claim is released, and whether fencing it failed.
  unfoldable pub after_fence : Result (Unit {0}) → M Bool
  after_fence (ok _) = pure true
  after_fence (err (fault stale_owner)) = pure true
  after_fence (err (fault runtime)) = pure false
  after_fence (err e) = fail e

  unfoldable pub release_claim_of : Option ClaimHandle → ℕ → M Bool
  unfolding after_fence
  release_claim_of none generation = pure true
  release_claim_of (some c) generation = do
    note fence_effect started generation
    r ← attempt (ask (fence_claim c) λ t. w.fence t c)
    after_fence r

  unfoldable pub forget : Bool → Bool → Snapshot → Snapshot
  forget uncleared released snapshot = record snapshot {
    phase = blocked;
    process = if uncleared then snapshot.process else none;
    owner_session_id = if released then none else snapshot.owner_session_id;
    claim = if released then none else snapshot.claim;
    last_heartbeat_at = if released then none else snapshot.last_heartbeat_at;
  }

  -- What failed is raised once all is written.
  unfoldable pub close : Bool → Bool → Bool → ℕ → M (Unit {0})
  close released had_claim uncleared generation = do
    choose released (pure tt) (raise runtime)
    choose had_claim (note fence_effect finished generation) (pure tt)
    choose uncleared (raise runtime) (pure tt)

  -- The claim is fenced, and what is left is written.
  unfoldable pub end_claim : Bool → M (Unit {0})
  unfolding release_claim_of forget close
  end_claim uncleared = do
    t ← get
    released ← release_claim_of t.snapshot.claim t.snapshot.generation
    update (forget uncleared released)
    save
    close released (not (is_none t.snapshot.claim)) uncleared t.snapshot.generation

  -- The end of a supervisor that has not completed.
  unfoldable pub end_supervision : M (Unit {0})
  unfolding end_process runtime_was_adopted end_claim
  end_supervision = do
    s ← get
    uncleared ← end_process (runtime_was_adopted s) s.current_process
    choose uncleared (pure tt) (set_current none)
    end_claim uncleared

-- `_shutdown_unlocked`
unfoldable pub shutdown_unlocked : World → Settings → M (Unit {0})
unfolding end_supervision
shutdown_unlocked w settings = do
  s ← get
  choose (is_completed s.snapshot.phase) (finalize_completed_cleanup w settings) (end_supervision w)
