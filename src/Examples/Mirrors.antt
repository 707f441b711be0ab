-- ===== src/Examples/Mirrors.antt =====
-- One capsule, a queue with one request, and adapters that answer as they should.
use agent_session_harness.Prelude.{
  ◌≡◌, ◌⊎◌, ◌↔◌, refl, inl, true, false, List, [], ◌∷◌, none, some, arith, returned, same,
  string_eq, ◌||◌,
}
use agent_session_harness.Capsule.{
  HandoffCapsule, Texts, validate, verify_path, verify_fingerprint, expected_fingerprint,
  has_bounded_fields, is_bounded, is_clean,
}
use agent_session_harness.Capsule.Integrity.{validate-validate}
use agent_session_harness.Outbox.{
  AdapterRequest, write, read, OutboxEntry, MirrorOutbox, Outbox, record_line, matches, read_queue,
  read_dead, enqueue, enqueue_entry, new_entry, replace_file, encoded_bytes, exceeds, line_of,
  has_pair,
}
use agent_session_harness.Outbox.Queue.Keys.{IsQueue, enqueue-enqueue}
use agent_session_harness.Outbox.Queue.Split.{Refuses, enqueue-Refuses}
use agent_session_harness.Outbox.Replay.{Site, letter_of, take, repeat_batch, finish_replay}
use agent_session_harness.Outbox.Replay.Accounted.{
  Steps, stays, enqueues, replays, IsAccounted, Steps-IsAccounted,
}
use agent_session_harness.Outbox.Replay.Intact.{Steps-IsIntact}
use agent_session_harness.Outbox.Replay.Drain.{IsAnswering, IsReadable, rounds, rounds-drained}
use agent_session_harness.Checkpoint.{
  CheckpointManager, CheckpointResult, Host, Stores, request_of, checkpoint,
}
use agent_session_harness.Checkpoint.Verified.{AllAnswer, after, checkpoint-verified}
use agent_session_harness.Checkpoint.Mirrors.{IsWhole, LeavesMirrored, checkpoint-IsMirrored}

abbrev capsule : HandoffCapsule
capsule = record {
  chain_id = "chain";
  predecessor_conversation_id = "first";
  target_generation = 2;
  task_ids = [];
  objective = "port the parser";
  exact_next_action = "run the tests";
  completed_criteria = [];
  remaining_criteria = "tests pass" ∷ [];
  repository_path = "/repo";
  branch = "main";
  head = "abc";
  dirty_paths = [];
  file_anchors = [];
  symbol_anchors = [];
  test_results = [];
  decisions = [];
  blockers = [];
  process_summaries = [];
  created_at = 5;
  fingerprint = "ff";
}

abbrev texts : Texts
texts = record { is_credential = λ s. false; resolve = λ s. some s; digest = λ c. "ff" }

capsule_valid : validate texts capsule ≡ some capsule
unfolding validate verify_path verify_fingerprint has_bounded_fields is_bounded is_clean string_eq
capsule_valid = refl

validate-validate_example :
    (validate texts capsule ≡ some capsule)
    × (capsule.fingerprint ≡ expected_fingerprint texts capsule)
    × ((capsule.fingerprint ≡ "") ⊎ (capsule ≡ capsule))
validate-validate_example =
    validate-validate texts capsule capsule (λ e. refl) (λ e. omega arith) refl capsule_valid

abbrev request : AdapterRequest
request = record { operation = write; idempotency_key = "chain:2"; capsule = capsule }

abbrev entry : OutboxEntry
entry = record { adapter = "linear"; request = request; enqueued_at = 3 }

-- A box in which the records of one adapter hold a character that ends a line.
abbrev box : MirrorOutbox
box = record {
  max_queue_bytes = 100;
  entries = record { bytes = λ e. 10; is_split = λ e. same e.adapter "split" };
  letters = record { bytes = λ d. 10; is_split = λ d. same d.adapter "split" };
}

abbrev waiting : Outbox
waiting = record { queue = some (record_line 10 entry ∷ []); dead = none }

abbrev site : Site
site = record {
  adapters = record {
    is_known = λ name. same name "linear" || same name "file";
    execute = λ calls name r. some (record {
      ok = true;
      fingerprint = some r.capsule.fingerprint;
      retryable = false;
      error = none;
    });
  };
  is_claimed = λ calls e. true;
  clock = λ calls. 9;
  sanitize_error = λ s. s;
}

waiting_queue : read_queue box waiting ≡ returned (entry ∷ [])
unfolding read_queue
waiting_queue = refl

waiting-IsQueue : IsQueue box (entry ∷ []) waiting
unfolding replace_file encoded_bytes line_of string_eq
waiting-IsQueue = record {
  file = inl refl;
  whole = (refl, tt);
  fits = omega arith;
  distinct = (tt, tt);
}

abbrev later_request : AdapterRequest
later_request = record request { idempotency_key = "chain:3" }

abbrev appended : Outbox
appended = (enqueue box "linear" later_request 4 waiting).1

-- One replay, during which another process enqueues a request.
replayed :
    Steps box site waiting
      (finish_replay box (repeat_batch site (take 5 (entry ∷ [])) []) appended).1
replayed = replays (entry ∷ []) 5 [] waiting_queue stays (enqueues "linear" later_request 4 stays)

Steps-IsAccounted_example : IsAccounted box site entry replayed
unfolding letter_of string_eq
Steps-IsAccounted_example =
    Steps-IsAccounted box site entry refl (λ t error. refl) replayed (inl (10, refl))

Steps-IsIntact_example :
    (es : List OutboxEntry) × IsQueue box es
      (finish_replay box (repeat_batch site (take 5 (entry ∷ [])) []) appended).1
unfolding replayed new_entry string_eq
Steps-IsIntact_example =
    Steps-IsIntact box site replayed (tt, (refl, tt)) (entry ∷ [], waiting-IsQueue)

entry-IsAnswering : IsAnswering site entry
unfolding matches string_eq
entry-IsAnswering = record {
  claimed = λ calls. refl;
  known = refl;
  response =
      λ calls. record { ok = true; fingerprint = some "ff"; retryable = false; error = none };
  answer = λ calls. refl;
  matched = λ calls. refl;
}

waiting-IsReadable : IsReadable box site (entry ∷ []) [] waiting
unfolding read_dead encoded_bytes
waiting-IsReadable = record { queue = waiting-IsQueue; dead = refl; fits = omega arith }

rounds-drained_example :
    (read_queue box (rounds box site 1 4 (λ k. []) waiting) ≡ returned [])
    × (read_dead box (rounds box site 1 4 (λ k. []) waiting) ≡ returned [])
rounds-drained_example =
    rounds-drained box site 1 4 (λ k. []) (entry ∷ []) [] waiting waiting-IsReadable
      (entry-IsAnswering, tt) (omega arith)

-- The same request again.
known_again : (enqueue box "linear" request 8 waiting).0 ≡ returned false
unfolding enqueue enqueue_entry read_queue has_pair new_entry string_eq
known_again = refl

enqueue-enqueue_example :
    enqueue box "linear" request 12 (enqueue box "linear" request 8 waiting).1
    ≡ (returned false, (enqueue box "linear" request 8 waiting).1)
unfolding new_entry string_eq
enqueue-enqueue_example =
    enqueue-enqueue box (entry ∷ []) waiting "linear" request 8 12 false waiting-IsQueue refl
      known_again

split_is_split : box.entries.is_split (new_entry "split" request 8) ≡ true
unfolding new_entry string_eq
split_is_split = refl

split_added : (enqueue box "split" request 8 waiting).0 ≡ returned true
unfolding enqueue enqueue_entry read_queue has_pair new_entry exceeds string_eq
split_added = refl

enqueue-Refuses_example : Refuses box (enqueue box "split" request 8 waiting).1
enqueue-Refuses_example =
    enqueue-Refuses box (entry ∷ []) waiting "split" request 8 waiting-IsQueue split_is_split
      split_added

abbrev checkpoint_manager : CheckpointManager
checkpoint_manager = record { required = "file" ∷ []; mirrors = "linear" ∷ [] }

abbrev machine : Host
machine = record {
  outbox = box;
  site = site;
  raised_text = λ calls. "raised";
  enqueue_text = λ e. "refused";
}

abbrev stores : Stores
stores = record { calls = []; outbox = waiting }

abbrev stored : CheckpointResult
unfolding checkpoint
stored = elim (checkpoint machine checkpoint_manager capsule "chain:2" stores).0 [
  | some result ↦ result
  | none ↦ record {
    verified = false;
    fingerprint = "";
    required_attempts = [];
    mirror_attempts = [];
  }
]

abbrev stored_in : Stores
stored_in = (checkpoint machine checkpoint_manager capsule "chain:2" stores).1

is_stored :
    checkpoint machine checkpoint_manager capsule "chain:2" stores ≡ (some stored, stored_in)
unfolding checkpoint string_eq
is_stored = refl

checkpoint-verified_example :
    ((stored.verified ≡ true) ↔ (
      AllAnswer machine (request_of capsule write "chain:2") "ff" ("file" ∷ []) []
      × AllAnswer machine
          (request_of capsule read "chain:2")
          "ff"
          ("file" ∷ [])
          (after machine (request_of capsule write "chain:2") "ff" ("file" ∷ []) [])))
    × (stored.fingerprint ≡ "ff")
checkpoint-verified_example =
    checkpoint-verified machine checkpoint_manager capsule "chain:2" stores stored_in stored
      is_stored

linear-IsWhole : IsWhole box (request_of capsule write "chain:2") ("linear" ∷ [])
unfolding new_entry string_eq
linear-IsWhole = ((λ now. refl), tt)

checkpoint-IsMirrored_example :
    LeavesMirrored machine checkpoint_manager
      (request_of capsule write "chain:2")
      (entry ∷ [])
      waiting
      stored.mirror_attempts
      stored_in
checkpoint-IsMirrored_example =
    checkpoint-IsMirrored machine checkpoint_manager capsule "chain:2" stores stored_in stored
      (entry ∷ []) waiting-IsQueue linear-IsWhole is_stored
