-- ===== src/Outbox.antt =====
-- adapters/command.py: the requests to checkpoint adapters and their answers; outbox.py: the queue
-- of requests that are to be repeated.
pub mod Queue
pub mod Replay
use agent_session_harness.Prelude.{
  ℕ, ◌+◌, String, Bool, true, false, not, ◌&&◌, ◌||◌, List, [], ◌∷◌, ◌++◌, Option, none, some, Eq,
  same, string_eq, leb, ltb, ◌==◌, is_within, any, length, map, if◌then◌else◌, String_discrete,
  Except, returned, thrown,
}
use native.Mathlib.Decide.{ℕ_discrete}
use agent_session_harness.Capsule.{HandoffCapsule, HandoffCapsule-discrete}

pub data AdapterOperation : Type 0 where
  write read acknowledge : AdapterOperation

pub AdapterOperation-discrete : Discrete AdapterOperation
AdapterOperation-discrete = hlevel

pub record AdapterRequest : Type 0 where
  pub operation : AdapterOperation
  pub idempotency_key : String
  pub capsule : HandoffCapsule

pub AdapterRequest-discrete : Discrete AdapterRequest
AdapterRequest-discrete =
    hlevel (AdapterOperation-discrete, String_discrete, HandoffCapsule-discrete)

pub record AdapterResponse : Type 0 where
  pub ok : Bool
  pub fingerprint : Option String
  pub retryable : Bool
  pub error : Option String

-- The calls of adapters so far, the latest first; an answer may depend on all of them.
abbrev pub Calls : Type 0
Calls = List (String × AdapterRequest)

-- The adapters, which are external commands: the names that are known, and what a call answers,
-- none where it raises.
pub record Adapters : Type 0 where
  pub is_known : String → Bool
  pub execute : Calls → String → AdapterRequest → Option AdapterResponse

-- `response.ok and response.fingerprint == expected`
unfoldable pub matches : AdapterResponse → String → Bool
matches response expected = elim response.fingerprint [
  | none ↦ false
  | some fingerprint ↦ response.ok && same fingerprint expected
]

pub record OutboxEntry : Type 0 where
  pub adapter : String
  pub request : AdapterRequest
  pub enqueued_at : ℕ

pub OutboxEntry-discrete : Discrete OutboxEntry
OutboxEntry-discrete = hlevel (String_discrete, AdapterRequest-discrete, ℕ_discrete)

instance unfoldable pub entry_eq : Eq OutboxEntry
unfolding OutboxEntry-discrete
entry_eq = record { dec = OutboxEntry-discrete }

pub record DeadLetterEntry : Type 0 where
  pub adapter : String
  pub request : AdapterRequest
  pub enqueued_at : ℕ
  pub failed_at : ℕ
  pub error : String

-- A line of a queue file with its number of bytes: blank, not a record, or a record.
pub data Line (A : Type 0) : Type 0 where
  blank invalid : ℕ → Line A
  record_line : ℕ → A → Line A

-- A file that may not exist.
abbrev pub File : Type 0 → Type 0
File A = Option (List (Line A))

-- The canonical JSON of a record with its newline: how many bytes it has, and whether it holds a
-- character that `splitlines` takes for the end of a line and JSON does not escape (U+0085, U+2028
-- or U+2029).
pub record Encoding (A : Type 0) : Type 0 where
  pub bytes : A → ℕ
  pub is_split : A → Bool

pub record Outbox : Type 0 where
  pub queue : File OutboxEntry
  pub dead : File DeadLetterEntry

-- `invalid_record` carries the line number, from 1.
pub data QueueError : Type 0 where
  bad_limit file_too_large outbox_full dead_letters_full invalid_adapter : QueueError
  invalid_record : ℕ → QueueError

pub record ReplayResult : Type 0 where
  pub attempted : ℕ
  pub succeeded : ℕ
  pub retained : ℕ
  pub dead_lettered : ℕ

module _ {A : Type 0} where
  unfoldable pub line_bytes : Line A → ℕ
  line_bytes (blank n) = n
  line_bytes (invalid n) = n
  line_bytes (record_line n a) = n

  unfoldable pub file_bytes : List (Line A) → ℕ
  unfolding line_bytes
  file_bytes [] = 0
  file_bytes (l ∷ ls) = line_bytes l + file_bytes ls

  -- The loop over the lines, from a line number.
  unfoldable pub read_lines : ℕ → List (Line A) → Except QueueError (List A)
  read_lines n [] = returned []
  read_lines n (blank b ∷ ls) = read_lines (n + 1) ls
  read_lines n (invalid b ∷ ls) = thrown (invalid_record n)
  read_lines n (record_line b a ∷ ls) = elim (read_lines (n + 1) ls) [
    | returned as' ↦ returned (a ∷ as')
    | thrown e ↦ thrown e
  ]

  unfoldable pub read_file : ℕ → File A → Except QueueError (List A)
  unfolding file_bytes read_lines
  read_file max_bytes none = returned []
  read_file max_bytes (some ls) =
      if leb (file_bytes ls) max_bytes then read_lines 1 ls else thrown file_too_large

  -- The line that a written record is when it is read.
  unfoldable pub line_of : Encoding A → A → Line A
  line_of c a = if c.is_split a then invalid (c.bytes a) else record_line (c.bytes a) a

  unfoldable pub append_record : Encoding A → A → File A → File A
  unfolding line_of
  append_record c a none = some (line_of c a ∷ [])
  append_record c a (some ls) = some (ls ++ line_of c a ∷ [])

  unfoldable pub append_records : Encoding A → List A → File A → File A
  unfolding append_record
  append_records c [] f = f
  append_records c (a ∷ as') f = append_records c as' (append_record c a f)

  unfoldable pub replace_file : Encoding A → List A → File A
  unfolding line_of
  replace_file c as' = some (map (line_of c) as')

  unfoldable pub encoded_bytes : Encoding A → List A → ℕ
  encoded_bytes c [] = 0
  encoded_bytes c (a ∷ as') = c.bytes a + encoded_bytes c as'

-- `MirrorOutbox`, by its limit and the encodings of its records.
pub record MirrorOutbox : Type 0 where
  pub max_queue_bytes : ℕ
  pub entries : Encoding OutboxEntry
  pub letters : Encoding DeadLetterEntry

-- The pair of adapter and idempotency key.
unfoldable pub has_pair : String → String → OutboxEntry → Bool
has_pair adapter key entry = same entry.adapter adapter && same entry.request.idempotency_key key

unfoldable pub new_entry : String → AdapterRequest → ℕ → OutboxEntry
new_entry adapter request now = record { adapter = adapter; request = request; enqueued_at = now }

module _ (b : MirrorOutbox) where
  unfoldable pub read_queue : Outbox → Except QueueError (List OutboxEntry)
  unfolding read_file
  read_queue o = read_file b.max_queue_bytes o.queue

  -- `pending`; `dead_letters` is below.
  unfoldable pub read_dead : Outbox → Except QueueError (List DeadLetterEntry)
  unfolding read_file
  read_dead o = read_file b.max_queue_bytes o.dead

  unfoldable pub exceeds : List OutboxEntry → OutboxEntry → Bool
  unfolding encoded_bytes
  exceeds entries entry =
      ltb b.max_queue_bytes (encoded_bytes b.entries entries + b.entries.bytes entry)

  -- What `enqueue` does with the entries that it has read.
  unfoldable pub enqueue_entry :
      List OutboxEntry → OutboxEntry → Outbox → Except QueueError Bool × Outbox
  unfolding has_pair exceeds append_record
  enqueue_entry entries entry o =
      if any (has_pair entry.adapter entry.request.idempotency_key) entries
      then (returned false, o)
      else if not (is_within 160 entry.adapter)
      then (thrown invalid_adapter, o)
      else if exceeds entries entry
      then (thrown outbox_full, o)
      else (returned true, record o { queue = append_record b.entries entry o.queue })

  unfoldable pub enqueue : String → AdapterRequest → ℕ → Outbox → Except QueueError Bool × Outbox
  unfolding read_queue enqueue_entry new_entry
  enqueue adapter request now o = elim (read_queue o) [
    | thrown e ↦ (thrown e, o)
    | returned entries ↦ enqueue_entry entries (new_entry adapter request now) o
  ]

  -- `depth`
  unfoldable pub depth : Outbox → Except QueueError ℕ
  unfolding read_queue
  depth o = elim (read_queue o) [
    | thrown e ↦ thrown e
    | returned entries ↦ returned (length entries)
  ]
