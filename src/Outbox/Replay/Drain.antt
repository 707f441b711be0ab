-- ===== src/Outbox/Replay/Drain.antt =====
-- outbox.py: repeated replays empty the queue once the adapters answer.
use agent_session_harness.Prelude.{
  ℕ, zero, suc, ◌*◌, ◌-◌, ◌≤◌, ◌≡◌, refl, ap, sym, subst, ◌∙◌, true, List, [], ◌∷◌, some, length,
  arith, Every, same_iff, returned, inl,
}
use agent_session_harness.Outbox.{
  OutboxEntry, entry_eq, DeadLetterEntry, Outbox, MirrorOutbox, AdapterResponse, Calls, matches,
  replace_file, append_records, encoded_bytes, read_queue, read_dead,
}
use agent_session_harness.Outbox.Queue.Keys.{IsQueue, read_queue-IsQueue}
use agent_session_harness.Outbox.Replay.{
  Outcome, success, Site, take, delete_first, outcome_of, repeat_entry, repeat_batch, settle,
  reconcile, write_back, finish_replay, replay,
}
use agent_session_harness.Outbox.Replay.Intact.{IsPart, reconcile-IsPart}

-- The stripe of the entry is free, its adapter is there and answers with the fingerprint.
pub record IsAnswering (x : Site) (e : OutboxEntry) : Type 0 where
  pub claimed : (calls : Calls) → x.is_claimed calls e ≡ true
  pub known : x.adapters.is_known e.adapter ≡ true
  pub response : Calls → AdapterResponse
  pub answer :
      (calls : Calls) → x.adapters.execute calls e.adapter e.request ≡ some (response calls)
  pub matched : (calls : Calls) → matches (response calls) e.request.capsule.fingerprint ≡ true

abbrev pub drop : ℕ → List OutboxEntry → List OutboxEntry
drop zero es = es
drop (suc n) [] = []
drop (suc n) (e ∷ es) = drop n es

length-drop : (n : ℕ) (es : List OutboxEntry) → length (drop n es) ≡ length es - n
length-drop zero es = omega arith
length-drop (suc n) [] = omega arith
length-drop (suc n) (e ∷ es) = omega (arith, length-drop n es)

nil_of_length : (es : List OutboxEntry) → length es ≤ 0 → es ≡ []
nil_of_length [] h = refl
nil_of_length (e ∷ es) h = absurd (omega arith)

abbrev successes : List OutboxEntry → List (OutboxEntry × Outcome)
successes [] = []
successes (e ∷ es) = (e, success) ∷ successes es

Every-take :
    (P : OutboxEntry → Type 0) (n : ℕ) (es : List OutboxEntry) → Every P es → Every P (take n es)
unfolding take
Every-take P zero es h = tt
Every-take P (suc n) [] h = tt
Every-take P (suc n) (e ∷ es) (h, hs) = (h, Every-take P n es hs)

Every-drop :
    (P : OutboxEntry → Type 0) (n : ℕ) (es : List OutboxEntry) → Every P es → Every P (drop n es)
Every-drop P zero es h = h
Every-drop P (suc n) [] h = tt
Every-drop P (suc n) (e ∷ es) (h, hs) = Every-drop P n es hs

module _ (x : Site) where
  repeat_entry-success :
      (calls : Calls) (e : OutboxEntry)
      → IsAnswering x e
      → repeat_entry x calls e ≡ (success, (e.adapter, e.request) ∷ calls)
  unfolding repeat_entry outcome_of
  repeat_entry-success calls e h =
      ground (arith, h.claimed calls, h.known, h.answer calls, h.matched calls)

  repeat_batch-successes :
      (es : List OutboxEntry) (calls : Calls)
      → Every (IsAnswering x) es
      → repeat_batch x es calls ≡ successes es
  unfolding repeat_batch
  repeat_batch-successes [] calls h = refl
  repeat_batch-successes (e ∷ es) calls (h, hs) = ground (
    arith,
    repeat_entry-success calls e h,
    repeat_batch-successes es ((e.adapter, e.request) ∷ calls) hs,
  )

delete_first-head : (e : OutboxEntry) (es : List OutboxEntry) → delete_first e (e ∷ es) ≡ some es
unfolding delete_first
delete_first-head e es = ground (arith, same_iff e e)

reconcile-successes :
    (n : ℕ) (es : List OutboxEntry) → reconcile (successes (take n es)) es ≡ (drop n es, [])
unfolding reconcile settle take
reconcile-successes zero es = refl
reconcile-successes (suc n) [] = refl
reconcile-successes (suc n) (e ∷ es) =
    ground (arith, delete_first-head e es, reconcile-successes n es)

module _ (b : MirrorOutbox) (x : Site) where
  -- Both files can be read, and hold these records.
  pub record IsReadable (es : List OutboxEntry) (ds : List DeadLetterEntry) (o : Outbox)
      : Type 0 where
    pub queue : IsQueue b es o
    pub dead : read_dead b o ≡ returned ds
    pub fits : encoded_bytes b.letters ds ≤ b.max_queue_bytes

  abbrev drained : ℕ → List OutboxEntry → Outbox → Outbox
  drained n es o = record { queue = replace_file b.entries (drop n es); dead = o.dead }

  replay-drained :
      (n : ℕ) (calls : Calls) (es : List OutboxEntry) (ds : List DeadLetterEntry) (o : Outbox)
      → IsReadable es ds o
      → Every (IsAnswering x) es
      → (replay b x (suc n) (λ p. p) calls o).1 ≡ drained (suc n) es o
  unfolding replay finish_replay write_back append_records encoded_bytes
  replay-drained n calls es ds o h a = ground (
    arith,
    read_queue-IsQueue b es o h.queue,
    h.dead,
    h.fits,
    repeat_batch-successes x (take (suc n) es) calls (Every-take (IsAnswering x) (suc n) es a),
    reconcile-successes (suc n) es,
  )

  drained-IsReadable :
      (n : ℕ) (es : List OutboxEntry) (ds : List DeadLetterEntry) (o : Outbox)
      → IsReadable es ds o
      → IsReadable (drop n es) ds (drained n es o)
  unfolding read_dead
  drained-IsReadable n es ds o h =
      let part =
        subst (λ r. IsPart b.entries r.0 es) (reconcile-successes n es)
          (reconcile-IsPart b.entries (successes (take n es)) es) in
      record {
        queue = record {
          file = inl refl;
          whole = part.whole h.queue.whole;
          fits = omega (arith, part.bytes, h.queue.fits);
          distinct = part.distinct h.queue.distinct;
        };
        dead = h.dead;
        fits = h.fits;
      }

  -- Replays one after the other, each after any calls of the adapters.
  abbrev pub rounds : ℕ → ℕ → (ℕ → Calls) → Outbox → Outbox
  rounds zero n calls o = o
  rounds (suc k) n calls o = rounds k n calls (replay b x (suc n) (λ p. p) (calls k) o).1

  -- For a readable queue, each of whose entries finds its stripe free and its adapter answering with
  -- the capsule's fingerprint, and where no other process changes the files: the queue is empty after
  -- as many replays as batches of the given size hold its entries, and no dead letter is written.
  pub rounds-drained :
      (k n : ℕ) (calls : ℕ → Calls) (es : List OutboxEntry) (ds : List DeadLetterEntry) (o : Outbox)
      → IsReadable es ds o
      → Every (IsAnswering x) es
      → length es ≤ k * suc n
      → (read_queue b (rounds k n calls o) ≡ returned [])
        × (read_dead b (rounds k n calls o) ≡ returned ds)
  rounds-drained zero n calls es ds o h a l =
      (read_queue-IsQueue b es o h.queue ∙ ap returned (nil_of_length es (omega arith)), h.dead)
  rounds-drained (suc k) n calls es ds o h a l =
      rounds-drained k n calls (drop (suc n) es) ds _
        (subst (IsReadable (drop (suc n) es) ds) (sym (replay-drained n (calls k) es ds o h a))
          (drained-IsReadable (suc n) es ds o h))
        (Every-drop (IsAnswering x) (suc n) es a) (ground (arith, length-drop (suc n) es))
