-- ===== src/Checkpoint.antt =====
-- checkpoint.py: the required stores of a capsule and its mirrors.
pub mod Verified
pub mod Mirrors
use agent_session_harness.Prelude.{
  ℕ, ◌≡◌, String, Bool, true, false, not, ◌&&◌, List, [], ◌∷◌, ◌++◌, Option, none, some,
  if◌then◌else◌, is_nonempty, contains, string_eq, Except, returned, thrown, map,
}
use agent_session_harness.Capsule.{HandoffCapsule}
use agent_session_harness.Outbox.{
  AdapterOperation, write, read, acknowledge, AdapterRequest, AdapterResponse, Calls, Adapters,
  matches, Outbox, MirrorOutbox, QueueError, enqueue, ReplayResult,
}
use agent_session_harness.Outbox.Replay.{Site, replay}

pub record AdapterAttempt : Type 0 where
  pub adapter : String
  pub operation : AdapterOperation
  pub response : AdapterResponse
  pub enqueue_error : Option String

pub record CheckpointResult : Type 0 where
  pub verified : Bool
  pub fingerprint : String
  pub required_attempts : List AdapterAttempt
  pub mirror_attempts : List AdapterAttempt

-- The names of the adapters of the required stores and of the mirrors.
pub record CheckpointManager : Type 0 where
  pub required : List String
  pub mirrors : List String

-- What a manager calls: the outbox, the adapters, and the sanitized texts of the exceptions.
pub record Host : Type 0 where
  pub outbox : MirrorOutbox
  pub site : Site
  pub raised_text : Calls → String
  pub enqueue_text : QueueError → String

-- The calls so far and the outbox's files.
pub record Stores : Type 0 where
  pub calls : Calls
  pub outbox : Outbox

unfoldable pub has_repeats : List String → Bool
has_repeats [] = false
has_repeats (name ∷ names) = if contains name names then true else has_repeats names

-- `__init__`; none where it raises.
unfoldable pub manager : List String → List String → Option CheckpointManager
unfolding has_repeats
manager required mirrors =
    if not (is_nonempty required)
    then none
    else if has_repeats (required ++ mirrors)
    then none
    else some (record { required = required; mirrors = mirrors })

unfoldable pub request_of : HandoffCapsule → AdapterOperation → String → AdapterRequest
request_of capsule operation key = record {
  operation = operation;
  idempotency_key = key;
  capsule = capsule;
}

unfoldable pub attempt_of :
    String → AdapterOperation → AdapterResponse → Option String → AdapterAttempt
attempt_of name operation response error = record {
  adapter = name;
  operation = operation;
  response = response;
  enqueue_error = error;
}

-- The attempts at one operation in the required stores; what an adapter raises is not caught.
unfoldable pub add_attempt :
    AdapterAttempt → Option (List AdapterAttempt) × Calls → Option (List AdapterAttempt) × Calls
add_attempt attempt (none, calls) = (none, calls)
add_attempt attempt (some attempts, calls) = (some (attempt ∷ attempts), calls)

-- `all(self._matches(…))`
unfoldable pub all_match : String → List AdapterAttempt → Bool
unfolding matches
all_match expected [] = true
all_match expected (attempt ∷ attempts) =
    matches attempt.response expected && all_match expected attempts

module _ (h : Host) where
  unfoldable pub execute_required :
      AdapterRequest → List String → Calls → Option (List AdapterAttempt) × Calls
  unfolding add_attempt attempt_of
  execute_required request [] calls = (some [], calls)
  execute_required request (name ∷ names) calls =
      let later : Calls = (name, request) ∷ calls in
      elim (h.site.adapters.execute calls name request) [
        | none ↦ (none, later)
        | some response ↦
            add_attempt (attempt_of name request.operation response none)
              (execute_required request names later)
      ]

  -- `_execute_mirror`
  unfoldable pub execute_mirror : Calls → String → AdapterRequest → AdapterResponse
  execute_mirror calls name request = elim (h.site.adapters.execute calls name request) [
    | some response ↦ response
    | none ↦ record {
      ok = false;
      fingerprint = none;
      retryable = true;
      error = some (h.raised_text calls);
    }
  ]

  -- `_enqueue_mirror`: the error's text, and the outbox.
  unfoldable pub enqueue_mirror : String → AdapterRequest → ℕ → Outbox → Option String × Outbox
  unfolding enqueue
  enqueue_mirror name request now outbox =
      let (result, after) = enqueue h.outbox name request now outbox in
      elim result [ returned added ↦ (none, after) | thrown e ↦ (some (h.enqueue_text e), after) ]

  -- One mirror: a response that does not match is queued.
  unfoldable pub mirror_attempt : AdapterRequest → String → Stores → AdapterAttempt × Stores
  unfolding execute_mirror enqueue_mirror attempt_of matches
  mirror_attempt request name s =
      let response = execute_mirror s.calls name request in
      let later : Calls = (name, request) ∷ s.calls in
      let (error, outbox) = enqueue_mirror name request (h.site.clock later) s.outbox in
      if matches response request.capsule.fingerprint
      then (
        attempt_of name request.operation response none,
        record { calls = later; outbox = s.outbox },
      )
      else (
        attempt_of name request.operation response error,
        record { calls = later; outbox = outbox },
      )

  unfoldable pub mirror_attempts :
      AdapterRequest → List String → Stores → List AdapterAttempt × Stores
  unfolding mirror_attempt
  mirror_attempts request [] s = ([], s)
  mirror_attempts request (name ∷ names) s =
      let (attempt, t) = mirror_attempt request name s in
      let (attempts, u) = mirror_attempts request names t in (attempt ∷ attempts, u)

  -- The mirrors and the result, once the required stores have answered.
  unfoldable pub conclude :
      CheckpointManager
      → HandoffCapsule
      → AdapterOperation
      → String
      → List AdapterAttempt
      → Stores
      → Option CheckpointResult × Stores
  unfolding mirror_attempts request_of all_match
  conclude m capsule operation key attempts s =
      let (mirrored, after) = mirror_attempts (request_of capsule operation key) m.mirrors s in
      (
        some (record {
          verified = all_match capsule.fingerprint attempts;
          fingerprint = capsule.fingerprint;
          required_attempts = attempts;
          mirror_attempts = mirrored;
        }),
        after,
      )

  unfoldable pub read_back :
      CheckpointManager
      → HandoffCapsule
      → String
      → List AdapterAttempt
      → Stores
      → Option CheckpointResult × Stores
  unfolding execute_required request_of conclude
  read_back m capsule key writes s =
      let (reads, calls) = execute_required (request_of capsule read key) m.required s.calls in
      elim reads [
        | none ↦ (none, record s { calls = calls })
        | some attempts ↦
            conclude m capsule write key (writes ++ attempts) (record s { calls = calls })
      ]

  -- None where a required adapter raises.
  unfoldable pub checkpoint :
      CheckpointManager → HandoffCapsule → String → Stores → Option CheckpointResult × Stores
  unfolding execute_required request_of read_back
  checkpoint m capsule key s =
      let (writes, calls) = execute_required (request_of capsule write key) m.required s.calls in
      elim writes [
        | none ↦ (none, record s { calls = calls })
        | some attempts ↦ read_back m capsule key attempts (record s { calls = calls })
      ]

  -- The manager's `acknowledge`.
  unfoldable pub acknowledge_capsule :
      CheckpointManager → HandoffCapsule → String → Stores → Option CheckpointResult × Stores
  unfolding execute_required request_of conclude
  acknowledge_capsule m capsule key s =
      let (attempts, calls) =
        execute_required (request_of capsule acknowledge key) m.required s.calls in
      elim attempts [
        | none ↦ (none, record s { calls = calls })
        | some answers ↦ conclude m capsule acknowledge key answers (record s { calls = calls })
      ]

  -- The queue is replayed with the mirrors' adapters only.
  unfoldable pub replay_mirrors :
      CheckpointManager → ℕ → (Outbox → Outbox) → Stores → Except QueueError ReplayResult × Outbox
  unfolding replay
  replay_mirrors m max_attempts others s =
      replay h.outbox
        (record h.site {
          adapters = record h.site.adapters { is_known = λ name. contains name m.mirrors };
        })
        max_attempts others s.calls s.outbox
