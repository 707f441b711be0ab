-- ===== src/Ledger/Read.antt =====
-- ledger.py: the cache of `EventLedger` and its incremental read. A line that json and pydantic have
-- judged is one of four kinds; the file is what `read_private_text_incremental` returns for the
-- offset and the identity that the cache holds.
pub mod Retention
pub mod Chunks
pub mod Times
use agent_session_harness.Prelude.{
  ℕ, ◌+◌, Bool, true, false, ◌||◌, Option, none, some, List, [], ◌∷◌, ◌++◌, length, ltb, ◌==◌,
  if◌then◌else◌,
}
use agent_session_harness.Models.{
  WarningText, partial_final_line, event_limit, unreadable, invalid_json, invalid_event,
}
use agent_session_harness.Events.{LifecycleEvent}
use agent_session_harness.Ledger.{IntegrityWarning}

abbrev pub max_ledger_events : ℕ
max_ledger_events = 50_000

abbrev pub max_retained_warnings : ℕ
max_retained_warnings = 256

pub data Line : Type 0 where
  blank bad_json bad_event : Line
  event : LifecycleEvent → Line

-- `ends_short` is `tail and not tail.endswith("\n")`.
pub record Chunk : Type 0 where
  pub lines : List Line
  pub ends_short : Bool
  pub offset : ℕ
  pub identity : ℕ
  pub reset : Bool

pub data Source : Type 0 where
  missing undecodable : Source
  chunk : Chunk → Source

pub record Cache : Type 0 where
  pub file_identity : Option ℕ
  pub read_offset : ℕ
  pub line_count : ℕ
  pub events : List LifecycleEvent
  pub warnings : List IntegrityWarning

abbrev pub empty_cache : Cache
empty_cache = record {
  file_identity = none;
  read_offset = 0;
  line_count = 0;
  events = [];
  warnings = [];
}

-- `cached.message == message` for the messages that the read records.
unfoldable pub same_text : WarningText → WarningText → Bool
same_text partial_final_line partial_final_line = true
same_text event_limit event_limit = true
same_text unreadable unreadable = true
same_text (invalid_json m) (invalid_json n) = m == n
same_text (invalid_event m) (invalid_event n) = m == n
same_text _ _ = false

-- The loop over the cached warnings: the first with this message is renewed in its place.
unfoldable pub refresh :
    WarningText → ℕ → Bool → List IntegrityWarning → Option (List IntegrityWarning)
unfolding same_text
refresh text now sticky [] = none
refresh text now sticky (w ∷ ws) =
    let rest = refresh text now sticky ws in
    if same_text w.message text
    then some (record { message = text; observed_at = now; sticky = w.sticky || sticky } ∷ ws)
    else elim rest [ none ↦ none | some vs ↦ some (w ∷ vs) ]

-- Deletes the first warning that is not sticky, if there is one.
unfoldable pub drop_transient : List IntegrityWarning → Option (List IntegrityWarning)
drop_transient [] = none
drop_transient (w ∷ ws) =
    let rest = drop_transient ws in
    if w.sticky then elim rest [ none ↦ none | some vs ↦ some (w ∷ vs) ] else some ws

unfoldable pub drop_first : List IntegrityWarning → List IntegrityWarning
drop_first [] = []
drop_first (w ∷ ws) = ws

-- `del self._cached_warnings[0 if transient is None else transient]`
unfoldable pub evict : List IntegrityWarning → List IntegrityWarning
unfolding drop_transient drop_first
evict ws = elim (drop_transient ws) [ none ↦ drop_first ws | some vs ↦ vs ]

unfoldable pub record_warning :
    WarningText → ℕ → Bool → List IntegrityWarning → List IntegrityWarning
record_warning text now sticky ws = elim (refresh text now sticky ws) [
  | some vs ↦ vs
  | none ↦
      let added = ws ++ record { message = text; observed_at = now; sticky = sticky } ∷ [] in
      if ltb max_retained_warnings (length added) then evict added else added
]

unfoldable pub warn : WarningText → ℕ → Bool → Cache → Cache
warn text now sticky c = record c { warnings = record_warning text now sticky c.warnings }

-- One line: the first part of the loop's body.
unfoldable pub read_line : ℕ → ℕ → Line → Cache → Cache
unfolding warn
read_line now n blank c = c
read_line now n bad_json c = warn (invalid_json n) now false c
read_line now n bad_event c = warn (invalid_event n) now false c
read_line now n (event e) c = record c { events = c.events ++ e ∷ [] }

-- A blank line and one with invalid JSON `continue` above the test of the limit.
unfoldable pub reaches_limit : Line → Cache → Bool
reaches_limit blank c = false
reaches_limit bad_json c = false
reaches_limit _ c = ltb max_ledger_events (length c.events)

unfoldable pub read_lines : ℕ → ℕ → List Line → Cache → Cache
unfolding warn reaches_limit
read_lines now n [] c = c
read_lines now n (l ∷ ls) c =
    let rest = read_lines now (n + 1) ls (read_line now n l c) in
    if reaches_limit l (read_line now n l c)
    then warn event_limit now true (read_line now n l c)
    else rest

unfoldable pub read_chunk : ℕ → Chunk → Cache → Cache
unfolding warn
read_chunk now k cache =
    let start = if k.reset then empty_cache else cache in
    let noted = if k.ends_short then warn partial_final_line now false start else start in
    let read = read_lines now (noted.line_count + 1) k.lines noted in
    record read {
      line_count = read.line_count + length k.lines;
      read_offset = k.offset;
      file_identity = some k.identity;
    }

-- `_read_events`: the cache that it leaves, and what it returns.
unfoldable pub read_events :
    (ℕ → Option ℕ → Source) → ℕ → Cache → Cache × List LifecycleEvent × List IntegrityWarning
unfolding read_chunk
read_events read now c = elim (read c.read_offset c.file_identity) [
  | missing ↦ (empty_cache, [], [])
  | undecodable ↦ (c, [], record { message = unreadable; observed_at = now; sticky = true } ∷ [])
  | chunk k ↦ (read_chunk now k c, (read_chunk now k c).events, (read_chunk now k c).warnings)
]
