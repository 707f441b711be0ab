-- ===== src/Outbox/Replay/Accounted.antt =====
-- outbox.py: no request is lost, whatever replays and enqueues come between one another.
use agent_session_harness.Prelude.{
  ℕ, ◌≡◌, ◌⊎◌, inl, inr, String, false, List, returned, Except-cases, subst, sym, ◌∙◌, arith,
}
use agent_session_harness.Outbox.{
  Calls, AdapterRequest, OutboxEntry, DeadLetterEntry, Outbox, MirrorOutbox, read_queue, read_dead,
  enqueue, new_entry, append_records, replace_file,
}
use agent_session_harness.Outbox.Queue.{
  InFile, read_file-In, InFile-append_record, InFile-append_records, append_records-InFile,
  replace_file-InFile, enqueue_cases,
}
use agent_session_harness.Outbox.Replay.{
  Outcome, Site, letter_of, take, repeat_batch, reconcile, write_back, finish_replay,
}
use agent_session_harness.Outbox.Replay.Outcomes.{
  IsLetterOf, AnsweredIn, AllJustified, repeat_batch-AllJustified, reconcile-In,
}

-- Any enqueues and replays, with whatever the other processes do between the two locks of a replay.
pub data Steps (b : MirrorOutbox) (x : Site) : Outbox → Outbox → Type 0 where
  stays : {o : Outbox} → Steps b x o o
  enqueues :
      {o p : Outbox} (adapter : String) (request : AdapterRequest) (now : ℕ)
      → Steps b x o p
      → Steps b x o (enqueue b adapter request now p).1
  replays :
      {o p q : Outbox} (entries : List OutboxEntry) (max_attempts : ℕ) (calls : Calls)
      → read_queue b p ≡ returned entries
      → Steps b x o p
      → Steps b x p q
      → Steps b x o (finish_replay b (repeat_batch x (take max_attempts entries) calls) q).1

module _ (b : MirrorOutbox) (x : Site) where
  -- A replay of the history called the entry's adapter, which answered with the fingerprint.
  abbrev pub IsDelivered : (e : OutboxEntry) {o p : Outbox} → Steps b x o p → Type 0
  IsDelivered e stays = ⊥
  IsDelivered e (enqueues adapter request now steps) = IsDelivered e steps
  IsDelivered e (replays entries n calls r before between) =
      IsDelivered e before ⊎ (IsDelivered e between ⊎ AnsweredIn x e (take n entries) calls)

  -- The dead-letter file has a letter about the entry.
  abbrev pub IsReported : OutboxEntry → Outbox → Type 0
  IsReported e o = (d : DeadLetterEntry) × IsLetterOf x d e × InFile d o.dead

  -- The entry is in the queue, or a dead letter is about it, or the history delivered it.
  abbrev pub IsAccounted : (e : OutboxEntry) {o p : Outbox} → Steps b x o p → Type 0
  IsAccounted e {p = p} steps = InFile e p.queue ⊎ (IsReported e p ⊎ IsDelivered e steps)

module _ (b : MirrorOutbox) where
  -- A full dead-letter file leaves both files as they were.
  write_back_cases :
      (os : List (OutboxEntry × Outcome)) (xs : List OutboxEntry) (ls ds : List DeadLetterEntry)
      (o : Outbox)
      → ((write_back b os xs ls ds o).1 ≡ o)
        ⊎ ((write_back b os xs ls ds o).1 ≡ record {
          queue = replace_file b.entries xs;
          dead = append_records b.letters ls o.dead;
        })
  unfolding write_back
  write_back_cases os xs ls ds o = ground arith

  -- A finished replay leaves the files as they were, or writes what the reconciliation makes.
  pub finish_replay_cases :
      (os : List (OutboxEntry × Outcome)) (o : Outbox)
      → ((finish_replay b os o).1 ≡ o)
        ⊎ ((entries : List OutboxEntry) × (read_queue b o ≡ returned entries)
            × ((finish_replay b os o).1 ≡ record {
              queue = replace_file b.entries (reconcile os entries).0;
              dead = append_records b.letters (reconcile os entries).1 o.dead;
            }))
  unfolding finish_replay
  finish_replay_cases os o = elim (Except-cases (read_queue b o)) [
    | inr (e, p) ↦ inl (ground (arith, p))
    | inl (entries, p) ↦ elim (Except-cases (read_dead b o)) [
      | inr (e, q) ↦ inl (ground (arith, p, q))
      | inl (ds, q) ↦
          let written : (finish_replay b os o).1
              ≡ (write_back b os (reconcile os entries).0 (reconcile os entries).1 ds o).1 =
            ground (arith, p, q) in
          elim (write_back_cases os (reconcile os entries).0 (reconcile os entries).1 ds o) [
            | inl r ↦ inl (written ∙ r)
            | inr r ↦ inr (entries, p, written ∙ r)
          ]
    ]
  ]

module _ (b : MirrorOutbox) (x : Site) where
  -- What has been reported stays so.
  enqueue-IsReported :
      (adapter : String) (request : AdapterRequest) (now : ℕ) (e : OutboxEntry) (o : Outbox)
      → IsReported b x e o
      → IsReported b x e (enqueue b adapter request now o).1
  enqueue-IsReported adapter request now e o h = elim (enqueue_cases b adapter request now o) [
    | inl p ↦ subst (IsReported b x e) (sym p) h
    | inr p ↦ subst (IsReported b x e) (sym p) h
  ]

  finish_replay-IsReported :
      (os : List (OutboxEntry × Outcome)) (e : OutboxEntry) (o : Outbox)
      → IsReported b x e o
      → IsReported b x e (finish_replay b os o).1
  finish_replay-IsReported os e o (d, t, k) = elim (finish_replay_cases b os o) [
    | inl p ↦ subst (IsReported b x e) (sym p) (d, t, k)
    | inr (es, p, q) ↦
        subst (IsReported b x e) (sym q)
          (d, t, InFile-append_records b.letters d (reconcile os es).1 o.dead k)
  ]

  Steps-IsReported :
      (e : OutboxEntry) {o p : Outbox} → Steps b x o p → IsReported b x e o → IsReported b x e p
  Steps-IsReported e stays h = h
  Steps-IsReported e (enqueues {p = p} adapter request now steps) h =
      enqueue-IsReported adapter request now e p (Steps-IsReported e steps h)
  Steps-IsReported e (replays {q = q} entries n calls r before between) h =
      finish_replay-IsReported _ e q (Steps-IsReported e between (Steps-IsReported e before h))

  enqueue-InFile :
      (adapter : String) (request : AdapterRequest) (now : ℕ) (e : OutboxEntry) (o : Outbox)
      → InFile e o.queue
      → InFile e (enqueue b adapter request now o).1.queue
  enqueue-InFile adapter request now e o h = elim (enqueue_cases b adapter request now o) [
    | inl p ↦ subst (λ q. InFile e q.queue) (sym p) h
    | inr p ↦
        subst (λ q. InFile e q.queue) (sym p)
          (InFile-append_record b.entries e (new_entry adapter request now) o.queue h)
  ]

  module _ (e : OutboxEntry) (whole : b.entries.is_split e ≡ false)
      (whole_letter : (failed_at : ℕ) (error : String)
        → b.letters.is_split (letter_of e failed_at (x.sanitize_error error)) ≡ false) where
    letter-is_whole : (d : DeadLetterEntry) → IsLetterOf x d e → b.letters.is_split d ≡ false
    letter-is_whole d t =
        subst (λ l. b.letters.is_split l ≡ false) (sym t.letter) (whole_letter t.failed_at t.error)

    -- The reconciliation keeps a queued entry, or reports it, or its outcome was a success.
    finish_replay-InFile :
        (P : OutboxEntry → Type 0) (os : List (OutboxEntry × Outcome)) (o : Outbox)
        → AllJustified x P os
        → InFile e o.queue
        → InFile e (finish_replay b os o).1.queue
          ⊎ (IsReported b x e (finish_replay b os o).1 ⊎ P e)
    unfolding read_queue
    finish_replay-InFile P os o j k = elim (finish_replay_cases b os o) [
      | inl p ↦ inl (subst (λ q. InFile e q.queue) (sym p) k)
      | inr (es, p, q) ↦
          subst (λ r. InFile e r.queue ⊎ (IsReported b x e r ⊎ P e)) (sym q)
            (elim (reconcile-In x P os e es j (read_file-In b.max_queue_bytes e o.queue es p k)) [
              | inl l ↦ inl (replace_file-InFile b.entries e (reconcile os es).0 whole l)
              | inr (inl (d, t, l)) ↦ inr (
                  inl (
                    d,
                    t,
                    append_records-InFile b.letters d (reconcile os es).1 o.dead
                        (letter-is_whole d t) l,
                  ))
              | inr (inr l) ↦ inr (inr l)
            ])
    ]

    -- For an entry in the queue whose record and whose dead letters hold no character that ends a
    -- line: over any enqueues and replays, with any steps of other processes between the two locks of
    -- a replay, the entry stays in the queue until a dead letter carries its adapter, request and
    -- time, or one of these replays has called its adapter, which answered the request with the
    -- capsule's fingerprint.
    pub Steps-IsAccounted :
        {o p : Outbox} (steps : Steps b x o p) → InFile e o.queue → IsAccounted b x e steps
    Steps-IsAccounted stays h = inl h
    Steps-IsAccounted (enqueues {p = p} adapter request now steps) h =
        elim (Steps-IsAccounted steps h) [
          | inl k ↦ inl (enqueue-InFile adapter request now e p k)
          | inr (inl k) ↦ inr (inl (enqueue-IsReported adapter request now e p k))
          | inr (inr k) ↦ inr (inr k)
        ]
    Steps-IsAccounted (replays {q = q} entries n calls r before between) h =
        let os = repeat_batch x (take n entries) calls in
        elim (Steps-IsAccounted before h) [
          | inr (inl k) ↦ inr (inl (finish_replay-IsReported os e q (Steps-IsReported e between k)))
          | inr (inr k) ↦ inr (inr (inl k))
          | inl k ↦ elim (Steps-IsAccounted between k) [
            | inr (inl l) ↦ inr (inl (finish_replay-IsReported os e q l))
            | inr (inr l) ↦ inr (inr (inr (inl l)))
            | inl l ↦
                elim (finish_replay-InFile (λ f. AnsweredIn x f (take n entries) calls) os q
                  (repeat_batch-AllJustified x (take n entries) calls) l) [
                    | inl z ↦ inl z
                    | inr (inl z) ↦ inr (inl z)
                    | inr (inr z) ↦ inr (inr (inr (inr z)))
                  ]
          ]
        ]
