-- ===== src/Ledger/Read/Times.antt =====
-- ledger.py: an incremental read in two pieces at different times.
use agent_session_harness.Prelude.{
  ℕ, ◌+◌, ◌≤◌, ◌≡◌, ◌∙◌, refl, sym, ap, Bool, true, false, Option, none, some, List, [], ◌∷◌, ◌++◌,
  length, map, arith, if◌then◌else◌, Option-cases, Bool-cases, inl, inr, ltb,
}
use agent_session_harness.Models.{WarningText, event_limit, partial_final_line}
use agent_session_harness.Ledger.{IntegrityWarning}
use agent_session_harness.Ledger.Read.{
  Line, blank, bad_json, bad_event, event, Chunk, Cache, refresh, drop_transient, drop_first, evict,
  record_warning, warn, read_line, read_lines, read_chunk, reaches_limit, same_text, empty_cache,
  max_ledger_events, max_retained_warnings,
}
use agent_session_harness.Ledger.Read.Chunks.{joined, read_chunk-joined}

abbrev pub undated : IntegrityWarning → IntegrityWarning
undated w = record w { observed_at = 0 }

-- The cache without the times at which its warnings were observed.
abbrev pub timeless : Cache → Cache
timeless c = record c { warnings = map undated c.warnings }

abbrev map_option : Option (List IntegrityWarning) → Option (List IntegrityWarning)
map_option none = none
map_option (some ws) = some (map undated ws)

map-append_one :
    (ws : List IntegrityWarning) (w : IntegrityWarning)
    → map undated (ws ++ w ∷ []) ≡ map undated ws ++ undated w ∷ []
map-append_one [] w = refl
map-append_one (v ∷ ws) w = ap (λ vs. undated v ∷ vs) (map-append_one ws w)

map-length : (ws : List IntegrityWarning) → length (map undated ws) ≡ length ws
map-length [] = refl
map-length (w ∷ ws) = omega (arith, map-length ws)

refresh-timeless :
    (text : WarningText) (now : ℕ) (sticky : Bool) (ws : List IntegrityWarning)
    → refresh text 0 sticky (map undated ws) ≡ map_option (refresh text now sticky ws)
unfolding refresh
refresh-timeless text now sticky [] = refl
refresh-timeless text now sticky (w ∷ ws) = elim (Bool-cases (same_text w.message text)) [
  | inl s ↦ ground (arith, s)
  | inr s ↦ elim (Option-cases (refresh text now sticky ws)) [
    | inl q ↦ ground (arith, s, q, refresh-timeless text now sticky ws)
    | inr (vs, q) ↦ ground (arith, s, q, refresh-timeless text now sticky ws)
  ]
]

drop_transient-timeless :
    (ws : List IntegrityWarning) → drop_transient (map undated ws) ≡ map_option (drop_transient ws)
unfolding drop_transient
drop_transient-timeless [] = refl
drop_transient-timeless (w ∷ ws) = elim (Option-cases (drop_transient ws)) [
  | inl q ↦ ground (arith, q, drop_transient-timeless ws)
  | inr (vs, q) ↦ ground (arith, q, drop_transient-timeless ws)
]

drop_first-timeless :
    (ws : List IntegrityWarning) → drop_first (map undated ws) ≡ map undated (drop_first ws)
unfolding drop_first
drop_first-timeless [] = refl
drop_first-timeless (w ∷ ws) = refl

evict-timeless : (ws : List IntegrityWarning) → evict (map undated ws) ≡ map undated (evict ws)
unfolding evict
evict-timeless ws = elim (Option-cases (drop_transient ws)) [
  | inl q ↦ ground (arith, q, drop_transient-timeless ws, drop_first-timeless ws)
  | inr (vs, q) ↦ ground (arith, q, drop_transient-timeless ws)
]

added-timeless :
    (ws : List IntegrityWarning)
    → (if ltb max_retained_warnings (length (map undated ws))
        then evict (map undated ws)
        else map undated ws)
      ≡ map undated (if ltb max_retained_warnings (length ws) then evict ws else ws)
added-timeless ws = ground (arith, map-length ws, evict-timeless ws)

record_warning-timeless :
    (text : WarningText) (now : ℕ) (sticky : Bool) (ws : List IntegrityWarning)
    → record_warning text 0 sticky (map undated ws)
      ≡ map undated (record_warning text now sticky ws)
unfolding record_warning
record_warning-timeless text now sticky ws =
    let w : IntegrityWarning = record { message = text; observed_at = now; sticky = sticky } in
    elim (Option-cases (refresh text now sticky ws)) [
      | inl q ↦ ground (
        arith,
        q,
        refresh-timeless text now sticky ws,
        map-append_one ws w,
        added-timeless (ws ++ w ∷ []),
      )
      | inr (vs, q) ↦ ground (arith, q, refresh-timeless text now sticky ws)
    ]

warn-timeless :
    (text : WarningText) (now : ℕ) (sticky : Bool) (c : Cache)
    → warn text 0 sticky (timeless c) ≡ timeless (warn text now sticky c)
unfolding warn
warn-timeless text now sticky c =
    ap (λ ws. record c { warnings = ws }) (record_warning-timeless text now sticky c.warnings)

read_line-timeless :
    (now n : ℕ) (l : Line) (c : Cache)
    → read_line 0 n l (timeless c) ≡ timeless (read_line now n l c)
unfolding read_line
read_line-timeless now n blank c = refl
read_line-timeless now n bad_json c = warn-timeless _ now false c
read_line-timeless now n bad_event c = warn-timeless _ now false c
read_line-timeless now n (event e) c = refl

limit-timeless : (l : Line) (c : Cache) → reaches_limit l (timeless c) ≡ reaches_limit l c
unfolding reaches_limit
limit-timeless blank c = refl
limit-timeless bad_json c = refl
limit-timeless bad_event c = refl
limit-timeless (event e) c = refl

read_lines-timeless :
    (now n : ℕ) (ls : List Line) (c : Cache)
    → read_lines 0 n ls (timeless c) ≡ timeless (read_lines now n ls c)
unfolding read_lines
read_lines-timeless now n [] c = refl
read_lines-timeless now n (l ∷ ls) c =
    let d = read_line now n l c in
    elim (Bool-cases (reaches_limit l d)) [
      | inl r ↦ ground (
        arith,
        r,
        limit-timeless l d,
        read_line-timeless now n l c,
        warn-timeless event_limit now true d,
      )
      | inr r ↦ ground (
        arith,
        r,
        limit-timeless l d,
        read_line-timeless now n l c,
        read_lines-timeless now (n + 1) ls d,
      )
    ]

start-timeless :
    (b : Bool) (c : Cache)
    → (if b then empty_cache else timeless c) ≡ timeless (if b then empty_cache else c)
start-timeless true c = refl
start-timeless false c = refl

noted-timeless :
    (b : Bool) (now : ℕ) (c : Cache)
    → (if b then warn partial_final_line 0 false (timeless c) else timeless c)
      ≡ timeless (if b then warn partial_final_line now false c else c)
noted-timeless true now c = warn-timeless partial_final_line now false c
noted-timeless false now c = refl

-- The end of a read, from the cache with the note on the final line.
abbrev finish : ℕ → Chunk → Cache → Cache
finish now k c =
    let read = read_lines now (c.line_count + 1) k.lines c in
    record read {
      line_count = read.line_count + length k.lines;
      read_offset = k.offset;
      file_identity = some k.identity;
    }

finish-timeless :
    (now : ℕ) (k : Chunk) (c : Cache) → finish 0 k (timeless c) ≡ timeless (finish now k c)
finish-timeless now k c =
    ap
      (λ (d : Cache). record d {
        line_count = d.line_count + length k.lines;
        read_offset = k.offset;
        file_identity = some k.identity;
      })
      (read_lines-timeless now (c.line_count + 1) k.lines c)

read_chunk-timeless :
    (now : ℕ) (k : Chunk) (c : Cache) → read_chunk 0 k (timeless c) ≡ timeless (read_chunk now k c)
unfolding read_chunk
read_chunk-timeless now k c =
    let s = if k.reset then empty_cache else c in
    ap (λ d. finish 0 k (if k.ends_short then warn partial_final_line 0 false d else d))
      (start-timeless k.reset c)
    ∙ ap (finish 0 k) (noted-timeless k.ends_short now s)
    ∙ finish-timeless now k _

-- A ledger that is read in two pieces at two times, each piece ending in a whole line and the second
-- continuing the first, leaves the same cache as one read of both at any time, as long as no more
-- than the limit of events would be held: the same position, file, events in the same order, and
-- warnings with the same texts, stickiness and order; the times at which the warnings were observed
-- are not compared.
pub timeless-read_chunk :
    (now later at : ℕ) (j k : Chunk) (c : Cache)
    → j.ends_short ≡ false
    → k.ends_short ≡ false
    → k.reset ≡ false
    → length c.events + length j.lines ≤ max_ledger_events
    → timeless (read_chunk later k (read_chunk now j c)) ≡ timeless (read_chunk at (joined j k) c)
timeless-read_chunk now later at j k c whole whole' goes_on room =
    sym (read_chunk-timeless later k (read_chunk now j c))
    ∙ ap (read_chunk 0 k) (sym (read_chunk-timeless now j c))
    ∙ read_chunk-joined 0 j k (timeless c) whole whole' goes_on room
    ∙ read_chunk-timeless at (joined j k) c
