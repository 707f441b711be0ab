-- ===== src/Outbox/Replay/Intact.antt =====
-- outbox.py: the queue stays readable, within its limit and without two entries of one pair.
use agent_session_harness.Prelude.{
  ℕ, ◌≤◌, ◌≡◌, inl, inr, refl, ap, String, false, List, [], ◌∷◌, ◌++◌, some, same, arith, subst,
  sym, Option-cases, Bool-cases,
}
use agent_session_harness.Outbox.{
  OutboxEntry, entry_eq, Encoding, Outbox, MirrorOutbox, encoded_bytes, new_entry, enqueue,
  AdapterRequest,
}
use agent_session_harness.Outbox.Queue.Keys.{
  AreWhole, Fresh, Distinct, IsQueue, enqueue-IsQueue, read_queue-IsQueue,
}
use agent_session_harness.Outbox.Replay.{
  Outcome, retain, success, dead_letter, Site, take, delete_first, settle, reconcile, repeat_batch,
  finish_replay,
}
use agent_session_harness.Outbox.Replay.Accounted.{
  Steps, stays, enqueues, replays, finish_replay_cases,
}

-- What is left of a list: its bytes are no more, and what held of every element or pair still does.
pub record IsPart (c : Encoding OutboxEntry) (ys xs : List OutboxEntry) : Type 0 where
  pub bytes : encoded_bytes c ys ≤ encoded_bytes c xs
  pub whole : AreWhole c xs → AreWhole c ys
  pub fresh : (e : OutboxEntry) → Fresh e xs → Fresh e ys
  pub distinct : Distinct xs → Distinct ys

IsPart-trans :
    (c : Encoding OutboxEntry) (xs ys zs : List OutboxEntry)
    → IsPart c xs ys
    → IsPart c ys zs
    → IsPart c xs zs
IsPart-trans c xs ys zs p q = record {
  bytes = omega (arith, p.bytes, q.bytes);
  whole = λ h. p.whole (q.whole h);
  fresh = λ e f. p.fresh e (q.fresh e f);
  distinct = λ d. p.distinct (q.distinct d);
}

IsPart-self : (c : Encoding OutboxEntry) (xs : List OutboxEntry) → IsPart c xs xs
IsPart-self c xs = record {
  bytes = omega arith;
  whole = λ h. h;
  fresh = λ e f. f;
  distinct = λ d. d;
}

IsPart-tail :
    (c : Encoding OutboxEntry) (x : OutboxEntry) (xs : List OutboxEntry) → IsPart c xs (x ∷ xs)
unfolding encoded_bytes
IsPart-tail c x xs = record {
  bytes = omega arith;
  whole = λ h. h.1;
  fresh = λ e f. f.1;
  distinct = λ d. d.1;
}

IsPart-cons :
    (c : Encoding OutboxEntry) (x : OutboxEntry) (ys xs : List OutboxEntry)
    → IsPart c ys xs
    → IsPart c (x ∷ ys) (x ∷ xs)
unfolding encoded_bytes
IsPart-cons c x ys xs p = record {
  bytes = omega (arith, p.bytes);
  whole = λ h. (h.0, p.whole h.1);
  fresh = λ e f. (f.0, p.fresh e f.1);
  distinct = λ d. (p.fresh x d.0, p.distinct d.1);
}

module _ (c : Encoding OutboxEntry) where
  delete_first-IsPart :
      (o : OutboxEntry) (xs ys : List OutboxEntry) → delete_first o xs ≡ some ys → IsPart c ys xs
  unfolding delete_first
  delete_first-IsPart o [] ys h = absurd (cc)
  delete_first-IsPart o (x ∷ xs) ys h = elim (Bool-cases (same x o)) [
    | inl s ↦
        let rest : xs ≡ ys = ground (arith, s) in
        subst (λ zs. IsPart c zs (x ∷ xs)) rest (IsPart-tail c x xs)
    | inr s ↦ elim (Option-cases (delete_first o xs)) [
      | inl q ↦ absurd (ground (arith, q))
      | inr (zs, q) ↦
          let rest : x ∷ zs ≡ ys = ground (arith, s, q) in
          subst (λ us. IsPart c us (x ∷ xs)) rest
            (IsPart-cons c x zs xs (delete_first-IsPart o xs zs q))
    ]
  ]

  settle-IsPart :
      (o : OutboxEntry) (r : Outcome) (xs : List OutboxEntry) → IsPart c (settle o r xs).0 xs
  unfolding settle
  settle-IsPart o retain xs = IsPart-self c xs
  settle-IsPart o success xs = elim (Option-cases (delete_first o xs)) [
    | inl q ↦ rw (q, settle) (IsPart-self c xs)
    | inr (ys, q) ↦ rw (q, settle) (delete_first-IsPart o xs ys q)
  ]
  settle-IsPart o (dead_letter d) xs = elim (Option-cases (delete_first o xs)) [
    | inl q ↦ rw (q, settle) (IsPart-self c xs)
    | inr (ys, q) ↦ rw (q, settle) (delete_first-IsPart o xs ys q)
  ]

  pub reconcile-IsPart :
      (os : List (OutboxEntry × Outcome)) (xs : List OutboxEntry) → IsPart c (reconcile os xs).0 xs
  unfolding reconcile
  reconcile-IsPart [] xs = IsPart-self c xs
  reconcile-IsPart ((o, r) ∷ os) xs =
      IsPart-trans c _ (settle o r xs).0 xs (reconcile-IsPart os (settle o r xs).0)
        (settle-IsPart o r xs)

module _ (b : MirrorOutbox) (x : Site) where
  -- No record that the history enqueues holds a character that ends a line.
  abbrev pub EnqueuesWhole : {o p : Outbox} → Steps b x o p → Type 0
  EnqueuesWhole stays = Unit
  EnqueuesWhole (enqueues adapter request now steps) =
      (b.entries.is_split (new_entry adapter request now) ≡ false) × EnqueuesWhole steps
  EnqueuesWhole (replays entries n calls r before between) =
      EnqueuesWhole before × EnqueuesWhole between

  -- Some entries are the queue's.
  abbrev pub IsIntact : Outbox → Type 0
  IsIntact o = (es : List OutboxEntry) × IsQueue b es o

  enqueue-IsIntact :
      (adapter : String) (request : AdapterRequest) (now : ℕ) (o : Outbox)
      → b.entries.is_split (new_entry adapter request now) ≡ false
      → IsIntact o
      → IsIntact (enqueue b adapter request now o).1
  enqueue-IsIntact adapter request now o w (es, h) =
      elim (enqueue-IsQueue b es o adapter request now h w) [
        | inl (f, p) ↦ subst IsIntact (ap (λ r. r.1) (sym p)) (es, h)
        | inr (inl (e, p)) ↦ subst IsIntact (ap (λ r. r.1) (sym p)) (es, h)
        | inr (inr (p, q)) ↦
            subst IsIntact (ap (λ r. r.1) (sym p)) (es ++ new_entry adapter request now ∷ [], q)
      ]

  finish_replay-IsIntact :
      (os : List (OutboxEntry × Outcome)) (o : Outbox)
      → IsIntact o
      → IsIntact (finish_replay b os o).1
  finish_replay-IsIntact os o (es, h) = elim (finish_replay_cases b os o) [
    | inl p ↦ subst IsIntact (sym p) (es, h)
    | inr (fs, p, q) ↦
        let same_list : es ≡ fs = cc (read_queue-IsQueue b es o h) in
        let part =
          subst (λ us. IsPart b.entries (reconcile os fs).0 us) (sym same_list)
            (reconcile-IsPart b.entries os fs) in
        subst IsIntact (sym q) (
          (reconcile os fs).0,
          record {
            file = inl refl;
            whole = part.whole h.whole;
            fits = omega (arith, part.bytes, h.fits);
            distinct = part.distinct h.distinct;
          },
        )
  ]

  -- Over any enqueues and replays, with any steps of other processes between the two locks of a
  -- replay, in which no record that is enqueued holds a character that ends a line: an intact queue
  -- stays one that can be read, is within its limit, and has no two entries with the same adapter and
  -- idempotency key.
  pub Steps-IsIntact :
      {o p : Outbox} (steps : Steps b x o p) → EnqueuesWhole steps → IsIntact o → IsIntact p
  Steps-IsIntact stays w h = h
  Steps-IsIntact (enqueues {p = p} adapter request now steps) (w, ws) h =
      enqueue-IsIntact adapter request now p w (Steps-IsIntact steps ws h)
  Steps-IsIntact (replays {q = q} entries n calls r before between) (w, ws) h =
      finish_replay-IsIntact (repeat_batch x (take n entries) calls) q
        (Steps-IsIntact between ws (Steps-IsIntact before w h))
