-- ===== src/Ledger/Read/Chunks.antt =====
-- ledger.py: the incremental read of a ledger that grows between two reads.
use agent_session_harness.Prelude.{
  ℕ, ◌+◌, ◌≤◌, ◌≡◌, ◌∙◌, refl, sym, ap, false, List, [], ◌∷◌, ◌++◌, length, length-append, arith,
  some, Option, if◌then◌else◌, Bool-cases, inl, inr,
}
use native.Mathlib.Nat.{add-zero}
use agent_session_harness.Ledger.Read.{
  Line, event, Chunk, Cache, read_line, read_lines, read_chunk, reaches_limit, max_ledger_events,
  empty_cache,
}

events-read_line :
    (now n : ℕ) (l : Line) (c : Cache) → length (read_line now n l c).events ≤ length c.events + 1
unfolding read_line
events-read_line now n (event e) c = omega (arith, length-append c.events (e ∷ []))
events-read_line now n l c = omega arith

within_limit :
    (now n : ℕ) (l : Line) (c : Cache)
    → length c.events + 1 ≤ max_ledger_events
    → reaches_limit l (read_line now n l c) ≡ false
unfolding reaches_limit
within_limit now n l c h = ground (arith, events-read_line now n l c)

-- Below the limit, reading two runs of lines is reading them at once.
read_lines-append :
    (now n : ℕ) (xs ys : List Line) (c : Cache)
    → length c.events + length xs ≤ max_ledger_events
    → read_lines now n (xs ++ ys) c ≡ read_lines now (n + length xs) ys (read_lines now n xs c)
unfolding read_lines
read_lines-append now n [] ys c h = rw add-zero refl
read_lines-append now n (l ∷ xs) ys c h = rw (within_limit now n l c (omega arith)) (
    read_lines-append now (n + 1) xs ys (read_line now n l c)
      (omega (arith, events-read_line now n l c))
    ∙ ap (λ (m : ℕ). read_lines now m ys (read_lines now (n + 1) xs (read_line now n l c)))
        (omega arith))

-- The counters that a read keeps beside the events and the warnings.
abbrev at : ℕ → ℕ → Option ℕ → Cache → Cache
at count offset identity c = record c {
  line_count = count;
  read_offset = offset;
  file_identity = identity;
}

read_line-at :
    (now n count offset : ℕ) (identity : Option ℕ) (l : Line) (c : Cache)
    → read_line now n l (at count offset identity c)
      ≡ at count offset identity (read_line now n l c)
unfolding read_line
read_line-at now n count offset identity (event e) c = refl
read_line-at now n count offset identity l c = refl

reaches_limit-at :
    (count offset : ℕ) (identity : Option ℕ) (l : Line) (c : Cache)
    → reaches_limit l (at count offset identity c) ≡ reaches_limit l c
unfolding reaches_limit
reaches_limit-at count offset identity (event e) c = refl
reaches_limit-at count offset identity l c = refl

read_lines-at :
    (now n count offset : ℕ) (identity : Option ℕ) (ls : List Line) (c : Cache)
    → read_lines now n ls (at count offset identity c)
      ≡ at count offset identity (read_lines now n ls c)
unfolding read_lines
read_lines-at now n count offset identity [] c = refl
read_lines-at now n count offset identity (l ∷ ls) c =
    let d = read_line now n l c in
    rw (read_line-at now n count offset identity l c, reaches_limit-at count offset identity l d)
      (elim (Bool-cases (reaches_limit l d)) [
        | inl stop ↦ rw stop refl
        | inr more ↦ rw more (read_lines-at now (n + 1) count offset identity ls d)
      ])

line_count-read_lines :
    (now n : ℕ) (ls : List Line) (c : Cache) → (read_lines now n ls c).line_count ≡ c.line_count
line_count-read_lines now n ls c =
    ap (λ (d : Cache). d.line_count)
      (read_lines-at now n c.line_count c.read_offset c.file_identity ls c)

-- What one read of both pieces would be.
abbrev pub joined : Chunk → Chunk → Chunk
joined j k = record {
  lines = j.lines ++ k.lines;
  ends_short = false;
  offset = k.offset;
  identity = k.identity;
  reset = j.reset;
}

-- A read from the cache `s` of whole lines only.
abbrev after : ℕ → Chunk → Cache → Cache
after now k s =
    at (s.line_count + length k.lines) k.offset (some k.identity)
      (read_lines now (s.line_count + 1) k.lines s)

start : Chunk → Cache → Cache
start k c = if k.reset then empty_cache else c

read_chunk-whole :
    (now : ℕ) (k : Chunk) (c : Cache)
    → k.ends_short ≡ false
    → read_chunk now k c ≡ after now k (start k c)
unfolding read_chunk start
read_chunk-whole now k c whole =
    rw
      (
        whole,
        line_count-read_lines now ((if k.reset then empty_cache else c).line_count + 1) k.lines
            (if k.reset then empty_cache else c),
      )
      refl

after-after :
    (now : ℕ) (j k : Chunk) (s : Cache)
    → length s.events + length j.lines ≤ max_ledger_events
    → after now k (after now j s) ≡ after now (joined j k) s
after-after now j k s room =
    let read = read_lines now (s.line_count + 1) j.lines s in
    let n : ℕ = s.line_count + length j.lines in
    ap (at (n + length k.lines) k.offset (some k.identity))
      (read_lines-at now (n + 1) n j.offset (some j.identity) k.lines read)
    ∙ rw (
      length-append j.lines k.lines,
      read_lines-append now (s.line_count + 1) j.lines k.lines s room,
      shift,
      regroup,
    )
  where
    shift : s.line_count + 1 + length j.lines ≡ s.line_count + length j.lines + 1
    shift = omega arith

    regroup :
        s.line_count + (length j.lines + length k.lines)
        ≡ s.line_count + length j.lines + length k.lines
    regroup = omega arith

start-room :
    (n : ℕ) (k : Chunk) (c : Cache)
    → length c.events + n ≤ max_ledger_events
    → length (start k c).events + n ≤ max_ledger_events
unfolding start
start-room n k c h = ground arith

-- A ledger that is read in two pieces, each ending in a whole line and the second continuing the
-- first, leaves the same cache as one read of both, as long as no more than the limit of events
-- would be held.
pub read_chunk-joined :
    (now : ℕ) (j k : Chunk) (c : Cache)
    → j.ends_short ≡ false
    → k.ends_short ≡ false
    → k.reset ≡ false
    → length c.events + length j.lines ≤ max_ledger_events
    → read_chunk now k (read_chunk now j c) ≡ read_chunk now (joined j k) c
unfolding start
read_chunk-joined now j k c whole whole' goes_on room =
    read_chunk-whole now k (read_chunk now j c) whole'
    ∙ rw (goes_on, start)
        (ap (after now k) (read_chunk-whole now j c whole)
          ∙ after-after now j k (start j c) (start-room (length j.lines) j c room)
          ∙ sym (read_chunk-whole now (joined j k) c refl))
