-- ===== src/Examples/Departure.antt =====
-- The shutdown of a supervisor whose runtime is live.
use agent_session_harness.Prelude.{◌≡◌, refl, true, false, some, []}
use agent_session_harness.Supervisor.State.{Supervisor, Snapshot, running, initial_snapshot}
use agent_session_harness.Supervisor.Exec.{
  ok, pure, continue_with, ◌>>=◌, ◌>>◌, choose, raise, fail, attempt, get, to_result, ask, note,
  update, save, set_current,
}
use agent_session_harness.Supervisor.Tick.{is_completed}
use agent_session_harness.Supervisor.Shutdown.{
  runtime_was_adopted, is_ending, detach, after_clear, clear_record, end_live, end_process,
  after_fence, release_claim_of, forget, close, end_claim, end_supervision, shutdown_unlocked,
}
use agent_session_harness.Supervisor.Shutdown.Spares.{count_stops, shutdown_unlocked-adopted}
use agent_session_harness.Supervisor.Shutdown.Released.{IsReleased, shutdown_unlocked-IsReleased}
use agent_session_harness.Examples.Machine.{world, settings, lease, process_of}

abbrev live_snapshot : Snapshot
live_snapshot = record initial_snapshot {
  phase = running;
  conversation_id = some "talk";
  claim = some lease;
  process = some (process_of 0);
}

abbrev live : Supervisor
live = record {
  snapshot = live_snapshot;
  disk = live_snapshot;
  current_process = some (process_of 0);
  successor_abort_pending = false;
  trace = [];
}

was_adopted : runtime_was_adopted live ≡ true
unfolding runtime_was_adopted is_ending
was_adopted = refl

shutdown_unlocked-adopted_example : count_stops (shutdown_unlocked world settings live).1.trace ≡ 0
shutdown_unlocked-adopted_example = shutdown_unlocked-adopted world settings live was_adopted

not_completed : is_completed live.snapshot.phase ≡ false
unfolding is_completed
not_completed = refl

shuts_down : (shutdown_unlocked world settings live).0 ≡ ok tt
unfolding shutdown_unlocked end_supervision end_process end_live detach clear_record after_clear
    end_claim release_claim_of after_fence forget close is_completed runtime_was_adopted is_ending
    pure continue_with ◌>>=◌ ◌>>◌ choose raise fail attempt get to_result ask note update save
    set_current
shuts_down = refl

shutdown_unlocked-IsReleased_example :
    IsReleased world (some lease) (shutdown_unlocked world settings live).1
shutdown_unlocked-IsReleased_example =
    shutdown_unlocked-IsReleased world settings live not_completed shuts_down
