-- ===== src/Outbox/Replay.antt =====
-- outbox.py: `replay`, in three parts: the batch is read under the lock, its requests are repeated
-- without it, and the outcomes are reconciled with the queue that is there when the lock is taken
-- again.
pub mod Outcomes
pub mod Accounted
pub mod Intact
pub mod Drain
use agent_session_harness.Prelude.{
  ℕ, zero, suc, ◌+◌, String, Bool, true, false, not, ◌&&◌, List, [], ◌∷◌, ◌++◌, Option, none, some,
  same, string_eq, ltb, ◌==◌, length, if◌then◌else◌, Except, returned, thrown,
}
use agent_session_harness.Outbox.{
  Adapters, AdapterResponse, Calls, matches, OutboxEntry, entry_eq, DeadLetterEntry, Outbox,
  MirrorOutbox, QueueError, bad_limit, dead_letters_full, ReplayResult, read_queue, read_dead,
  encoded_bytes, append_records, replace_file,
}

pub data Outcome : Type 0 where
  retain success : Outcome
  dead_letter : DeadLetterEntry → Outcome

-- What a replay meets: the adapters, the lock of an entry's stripe, and the clock.
pub record Site : Type 0 where
  pub adapters : Adapters
  pub is_claimed : Calls → OutboxEntry → Bool
  pub clock : Calls → ℕ
  pub sanitize_error : String → String

unfoldable pub take : {A : Type 0} → ℕ → List A → List A
take zero xs = []
take (suc n) [] = []
take (suc n) (x ∷ xs) = x ∷ take n xs

-- `list.index` and `del`; none for the ValueError.
unfoldable pub delete_first : OutboxEntry → List OutboxEntry → Option (List OutboxEntry)
delete_first e [] = none
delete_first e (x ∷ xs) =
    let rest = delete_first e xs in
    if same x e then some xs else elim rest [ none ↦ none | some ys ↦ some (x ∷ ys) ]

unfoldable pub letter_of : OutboxEntry → ℕ → String → DeadLetterEntry
letter_of entry now error = record {
  adapter = entry.adapter;
  request = entry.request;
  enqueued_at = entry.enqueued_at;
  failed_at = now;
  error = error;
}

-- `response.error or "…"`
unfoldable pub error_text : Option String → String
error_text none = "adapter reported failure"
error_text (some error) = if same error "" then "adapter reported failure" else error

module _ (x : Site) where
  -- The outcome of an answer.
  unfoldable pub outcome_of : Calls → OutboxEntry → AdapterResponse → Outcome
  unfolding matches letter_of error_text
  outcome_of calls entry response =
      if matches response entry.request.capsule.fingerprint
      then success
      else if response.ok
      then dead_letter (
          letter_of entry (x.clock calls)
            (x.sanitize_error "adapter returned the wrong fingerprint"))
      else if response.retryable
      then retain
      else dead_letter
          (letter_of entry (x.clock calls) (x.sanitize_error (error_text response.error)))

  -- One entry: whether its adapter is called, and the outcome.
  unfoldable pub repeat_entry : Calls → OutboxEntry → Outcome × Calls
  unfolding outcome_of
  repeat_entry calls entry =
      if not (x.is_claimed calls entry)
      then (retain, calls)
      else if not (x.adapters.is_known entry.adapter)
      then (retain, calls)
      else elim (x.adapters.execute calls entry.adapter entry.request) [
        | none ↦ (retain, (entry.adapter, entry.request) ∷ calls)
        | some response ↦ (outcome_of calls entry response, (entry.adapter, entry.request) ∷ calls)
      ]

  -- The loop over the batch.
  unfoldable pub repeat_batch : List OutboxEntry → Calls → List (OutboxEntry × Outcome)
  unfolding repeat_entry
  repeat_batch [] calls = []
  repeat_batch (entry ∷ entries) calls =
      let (outcome, later) = repeat_entry calls entry in
      (entry, outcome) ∷ repeat_batch entries later

-- `succeeded` counts the successes.
unfoldable pub count_success : List (OutboxEntry × Outcome) → ℕ
count_success [] = 0
count_success ((entry, success) ∷ outcomes) = suc (count_success outcomes)
count_success ((entry, outcome) ∷ outcomes) = count_success outcomes

-- One step of the reconciliation: what is left of the queue, and the letters to be written.
unfoldable pub settle :
    OutboxEntry → Outcome → List OutboxEntry → List OutboxEntry × List DeadLetterEntry
unfolding delete_first
settle original retain retained = (retained, [])
settle original success retained = elim (delete_first original retained) [
  | none ↦ (retained, [])
  | some rest ↦ (rest, [])
]
settle original (dead_letter letter) retained = elim (delete_first original retained) [
  | none ↦ (retained, [])
  | some rest ↦ (rest, letter ∷ [])
]

unfoldable pub reconcile :
    List (OutboxEntry × Outcome) → List OutboxEntry → List OutboxEntry × List DeadLetterEntry
unfolding settle
reconcile [] retained = (retained, [])
reconcile ((original, outcome) ∷ outcomes) retained =
    let (rest, letters) = settle original outcome retained in
    let (final, more) = reconcile outcomes rest in (final, letters ++ more)

module _ (b : MirrorOutbox) where
  unfoldable pub write_back :
      List (OutboxEntry × Outcome)
      → List OutboxEntry
      → List DeadLetterEntry
      → List DeadLetterEntry
      → Outbox
      → Except QueueError ReplayResult × Outbox
  unfolding encoded_bytes append_records replace_file count_success
  write_back outcomes retained letters existing o =
      if ltb b.max_queue_bytes (encoded_bytes b.letters existing + encoded_bytes b.letters letters)
      then (thrown dead_letters_full, o)
      else (
        returned (record {
          attempted = length outcomes;
          succeeded = count_success outcomes;
          retained = length retained;
          dead_lettered = length letters;
        }),
        record {
          queue = replace_file b.entries retained;
          dead = append_records b.letters letters o.dead;
        },
      )

  -- What is done under the second lock, with the files as they are then.
  unfoldable pub finish_replay :
      List (OutboxEntry × Outcome) → Outbox → Except QueueError ReplayResult × Outbox
  unfolding read_queue read_dead write_back reconcile
  finish_replay outcomes o = elim (read_queue b o) [
    | thrown e ↦ (thrown e, o)
    | returned entries ↦
        let (retained, letters) = reconcile outcomes entries in
        elim (read_dead b o) [
          | thrown e ↦ (thrown e, o)
          | returned existing ↦ write_back outcomes retained letters existing o
        ]
  ]

  -- `others` is what other processes do to the files between the two locks.
  unfoldable pub replay :
      Site → ℕ → (Outbox → Outbox) → Calls → Outbox → Except QueueError ReplayResult × Outbox
  unfolding read_queue take repeat_batch finish_replay
  replay x max_attempts others calls o =
      if max_attempts == 0 then (thrown bad_limit, o) else elim (read_queue b o) [
        | thrown e ↦ (thrown e, o)
        | returned entries ↦
            finish_replay (repeat_batch x (take max_attempts entries) calls) (others o)
      ]
