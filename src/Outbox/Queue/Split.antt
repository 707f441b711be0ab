-- ===== src/Outbox/Queue/Split.antt =====
-- outbox.py: a record that `splitlines` cuts in two.
use agent_session_harness.Prelude.{
  ℕ, suc, ◌+◌, ◌≡◌, inl, inr, String, true, Bool-cases, List, [], ◌∷◌, ◌++◌, map, arith, leb,
  returned, thrown, ap, subst, ◌∙◌, sym,
}
use agent_session_harness.Outbox.{
  AdapterRequest, OutboxEntry, Encoding, invalid_record, file_too_large, line_of, read_lines,
  read_file, file_bytes, replace_file, Outbox, MirrorOutbox, QueueError, new_entry, read_queue,
  enqueue, enqueue_entry, Calls,
}
use agent_session_harness.Outbox.Queue.Keys.{AreWhole, IsQueue, queued, appended-file}
use agent_session_harness.Outbox.Replay.{Site, replay}

module _ {A : Type 0} (c : Encoding A) where
  -- The reading of a list of records that ends with an invalid line.
  read_lines-split :
      (n : ℕ) (as' : List A) (a : A)
      → AreWhole c as'
      → c.is_split a ≡ true
      → (k : ℕ) × (read_lines n (map (line_of c) (as' ++ a ∷ [])) ≡ thrown (invalid_record k))
  unfolding read_lines line_of
  read_lines-split n [] a h s = (n, ground (arith, s))
  read_lines-split n (x ∷ as') a (h, hs) s =
      let (k, p) = read_lines-split (n + 1) as' a hs s in (k, ground (arith, h, p))

  read_file-split :
      (limit : ℕ) (as' : List A) (a : A)
      → AreWhole c as'
      → c.is_split a ≡ true
      → (e : QueueError) × (read_file limit (replace_file c (as' ++ a ∷ [])) ≡ thrown e)
  unfolding read_file replace_file
  read_file-split limit as' a h s =
      let (k, p) = read_lines-split 1 as' a h s in
      elim (Bool-cases (leb (file_bytes (map (line_of c) (as' ++ a ∷ []))) limit)) [
        | inl f ↦ (invalid_record k, ground (arith, f, p))
        | inr f ↦ (file_too_large, ground (arith, f))
      ]

module _ (b : MirrorOutbox) where
  enqueue-true :
      (adapter : String) (request : AdapterRequest) (now : ℕ) (o : Outbox)
      → (enqueue b adapter request now o).0 ≡ returned true
      → (enqueue b adapter request now o).1 ≡ queued b adapter request now o
  unfolding enqueue enqueue_entry
  enqueue-true adapter request now o h = ground arith

  -- What the outbox does while its queue cannot be read.
  record IsJammed (o : Outbox) : Type 0 where
    error : QueueError
    unread : read_queue b o ≡ thrown error

  abbrev pub Refuses : Outbox → Type 0
  Refuses o =
      ((adapter : String) (request : AdapterRequest) (now : ℕ)
        → (e : QueueError) × (enqueue b adapter request now o ≡ (thrown e, o)))
      × ((x : Site) (n : ℕ) (calls : Calls)
          → (e : QueueError) × (replay b x (suc n) (λ p. p) calls o ≡ (thrown e, o)))

  jammed-Refuses : (o : Outbox) → IsJammed o → Refuses o
  unfolding enqueue replay
  jammed-Refuses o h = (
    λ adapter request now. (h.error, ground (arith, h.unread)),
    λ x n calls. (h.error, ground (arith, h.unread)),
  )

  -- An accepted request whose record holds a character that ends a line for `splitlines` (U+2028 in
  -- the objective of a capsule, say) makes the queue unreadable: from then on every enqueue and every
  -- replay raises and changes nothing.
  pub enqueue-Refuses :
      (es : List OutboxEntry) (o : Outbox) (adapter : String) (request : AdapterRequest) (now : ℕ)
      → IsQueue b es o
      → b.entries.is_split (new_entry adapter request now) ≡ true
      → (enqueue b adapter request now o).0 ≡ returned true
      → Refuses (enqueue b adapter request now o).1
  unfolding read_queue
  enqueue-Refuses es o adapter request now h s a =
      let new = new_entry adapter request now in
      let (e, p) = read_file-split b.entries b.max_queue_bytes es new h.whole s in
      subst Refuses (sym (enqueue-true adapter request now o a)) (
        jammed-Refuses (queued b adapter request now o) (record {
          error = e;
          unread = ap (read_file b.max_queue_bytes) (appended-file b es new o h) ∙ p;
        }))
