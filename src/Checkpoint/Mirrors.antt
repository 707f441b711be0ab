-- ===== src/Checkpoint/Mirrors.antt =====
-- checkpoint.py: a mirror that did not store the capsule is queued, or its attempt says why not.
use agent_session_harness.Prelude.{
  ℕ, ◌≡◌, ◌≢◌, ◌⊎◌, inl, inr, refl, ap, sym, subst, String, Bool, true, false, List, [], ◌∷◌, ◌++◌,
  none, some, any, same_iff, string_eq, any-append, Bool-cases, Every, arith, map, Except, returned,
  thrown,
}
use agent_session_harness.Capsule.{HandoffCapsule}
use agent_session_harness.Outbox.{
  write, read, AdapterRequest, OutboxEntry, Calls, matches, Outbox, MirrorOutbox, has_pair,
  new_entry, enqueue, QueueError,
}
use agent_session_harness.Outbox.Queue.{In}
use agent_session_harness.Outbox.Queue.Keys.{
  IsQueue, enqueue-IsQueue, read_queue-IsQueue, any-append_new,
}
use agent_session_harness.Checkpoint.{
  AdapterAttempt, CheckpointResult, CheckpointManager, Host, Stores, attempt_of, request_of,
  execute_mirror, enqueue_mirror, mirror_attempt, execute_required, mirror_attempts, conclude,
  read_back, checkpoint,
}
use agent_session_harness.Checkpoint.Verified.{attempt_cases}

-- The queue has an entry of the pair.
abbrev pub IsPending : MirrorOutbox → String → String → Outbox → Type 0
IsPending b name key o =
    (es : List OutboxEntry) × IsQueue b es o × (any (has_pair name key) es ≡ true)

-- The queue has an entry for the mirror that is this request, or one of its key that was among the
-- entries `es` before.
abbrev pub IsQueued : MirrorOutbox → AdapterRequest → List OutboxEntry → String → Outbox → Type 0
IsQueued b request es name o =
    (fs : List OutboxEntry) × IsQueue b fs o
    × ((e : OutboxEntry) × In e fs
        × (e.adapter ≡ name)
        × (e.request.idempotency_key ≡ request.idempotency_key)
        × ((e.request ≡ request) ⊎ In e es))

-- A mirror has stored the capsule, or it is queued, or the attempt reports the error.
abbrev pub IsMirrored :
    MirrorOutbox → AdapterRequest → List OutboxEntry → Outbox → AdapterAttempt → Type 0
IsMirrored b request es o attempt =
    (matches attempt.response request.capsule.fingerprint ≡ true)
    ⊎ (IsQueued b request es attempt.adapter o ⊎ (attempt.enqueue_error ≢ none))

-- No record of the request for one of these mirrors holds a character that ends a line.
abbrev pub IsWhole : MirrorOutbox → AdapterRequest → List String → Type 0
IsWhole b request names =
    Every (λ name. (now : ℕ) → b.entries.is_split (new_entry name request now) ≡ false) names

any-In :
    (name key : String) (fs : List OutboxEntry)
    → any (has_pair name key) fs ≡ true
    → (e : OutboxEntry) × In e fs × (e.adapter ≡ name) × (e.request.idempotency_key ≡ key)
unfolding has_pair
any-In name key [] h = absurd (cc)
any-In name key (f ∷ fs) h = elim (Bool-cases (has_pair name key f)) [
  | inl p ↦ (
    f,
    inl refl,
    (ground (arith, p, same_iff f.adapter name)),
    (ground (arith, p, same_iff f.request.idempotency_key key)),
  )
  | inr p ↦ let (e, i, n, k) = any-In name key fs (ground (arith, p)) in (e, inr i, n, k)
]

In-append_one :
    (e f : OutboxEntry) (es : List OutboxEntry) → In e (es ++ f ∷ []) → In e es ⊎ (f ≡ e)
In-append_one e f [] (inl p) = inr p
In-append_one e f [] (inr h) = absurd h
In-append_one e f (x ∷ es) (inl p) = inl (inl p)
In-append_one e f (x ∷ es) (inr h) = elim (In-append_one e f es h) [
  | inl i ↦ inl (inr i)
  | inr p ↦ inr p
]

-- Where every entry of the queue was there before or is the request, a pair is queued.
pending-IsQueued :
    (b : MirrorOutbox) (request : AdapterRequest) (name : String) (es fs : List OutboxEntry)
    (o : Outbox)
    → IsQueue b fs o
    → ((e : OutboxEntry) → In e fs → In e es ⊎ (e.request ≡ request))
    → IsPending b name request.idempotency_key o
    → IsQueued b request es name o
pending-IsQueued b request name es fs o q origin (gs, r, h) =
    let (e, i, p, k) = any-In name request.idempotency_key gs h in
    let same_list : gs ≡ fs = cc (read_queue-IsQueue b gs o r, read_queue-IsQueue b fs o q) in
    (
      gs,
      r,
      (e, i, p, k, elim (origin e (subst (In e) same_list i)) [ inl l ↦ inr l | inr l ↦ inl l ]),
    )

-- The same of an attempt, by the pair.
abbrev IsAnswered : MirrorOutbox → AdapterRequest → Outbox → AdapterAttempt → Type 0
IsAnswered b request o attempt =
    (matches attempt.response request.capsule.fingerprint ≡ true)
    ⊎ (IsPending b attempt.adapter request.idempotency_key o ⊎ (attempt.enqueue_error ≢ none))

module _ (b : MirrorOutbox) where
  same_queue : (es fs : List OutboxEntry) (o : Outbox) → IsQueue b es o → IsQueue b fs o → fs ≡ es
  same_queue es fs o h g = cc (read_queue-IsQueue b es o h, read_queue-IsQueue b fs o g)

  any_longer :
      (n k : String) (es fs : List OutboxEntry) (e : OutboxEntry) (o : Outbox)
      → IsQueue b es o
      → IsQueue b fs o
      → any (has_pair n k) fs ≡ true
      → any (has_pair n k) (es ++ e ∷ []) ≡ true
  any_longer n k es fs e o h g i = ground (
    arith,
    any-append (has_pair n k) es (e ∷ []),
    ap (any (has_pair n k)) (same_queue es fs o h g),
    i,
  )

  -- What an enqueue does to a queue, and to a pair that is in it.
  record Enqueued (name : String) (request : AdapterRequest) (es : List OutboxEntry)
      (result : Except QueueError Bool × Outbox) (o : Outbox) : Type 0 where
    entries : List OutboxEntry
    queue : IsQueue b entries result.1
    origin : (e : OutboxEntry) → In e entries → In e es ⊎ (e.request ≡ request)
    keeps : (n k : String) → IsPending b n k o → IsPending b n k result.1
    pending :
        ((e : QueueError) × (result.0 ≡ thrown e))
        ⊎ (((added : Bool) × (result.0 ≡ returned added))
            × IsPending b name request.idempotency_key result.1)

  enqueue-Enqueued :
      (name : String) (request : AdapterRequest) (now : ℕ) (es : List OutboxEntry) (o : Outbox)
      → IsQueue b es o
      → b.entries.is_split (new_entry name request now) ≡ false
      → Enqueued name request es (enqueue b name request now o) o
  unfolding new_entry
  enqueue-Enqueued name request now es o h w = elim (enqueue-IsQueue b es o name request now h w) [
    | inl (f, p) ↦
        subst (λ r. Enqueued name request es r o) (sym p)
          (record {
            entries = es;
            queue = h;
            origin = λ e i. inl i;
            keeps = λ n k i. i;
            pending = inr ((false, refl), (es, h, f));
          })
    | inr (inl (e, p)) ↦
        subst (λ r. Enqueued name request es r o) (sym p)
          (record {
            entries = es;
            queue = h;
            origin = λ e i. inl i;
            keeps = λ n k i. i;
            pending = inl (e, refl);
          })
    | inr (inr (p, q)) ↦
        subst (λ r. Enqueued name request es r o) (sym p)
          (record {
            entries = es ++ new_entry name request now ∷ [];
            queue = q;
            origin = λ e i. from_append e (In-append_one e (new_entry name request now) es i);
            keeps = λ n k (fs, g, i). (
              es ++ new_entry name request now ∷ [],
              q,
              any_longer n k es fs (new_entry name request now) o h g i,
            );
            pending = inr (
              (true, refl),
              (es ++ new_entry name request now ∷ [], q, any-append_new b es name request now),
            );
          })
  ]
    where
      from_append :
          (e : OutboxEntry)
          → In e es ⊎ (new_entry name request now ≡ e)
          → In e es ⊎ (e.request ≡ request)
      from_append e (inl i) = inl i
      from_append e (inr p) = inr (ap (λ f. f.request) (sym p))

module _ (h : Host) where
  -- What a mirror's attempt leaves.
  record Attempted (name : String) (request : AdapterRequest) (es : List OutboxEntry)
      (result : AdapterAttempt × Stores) (s : Stores) : Type 0 where
    entries : List OutboxEntry
    queue : IsQueue h.outbox entries result.1.outbox
    origin : (e : OutboxEntry) → In e entries → In e es ⊎ (e.request ≡ request)
    keeps :
        (n k : String) → IsPending h.outbox n k s.outbox → IsPending h.outbox n k result.1.outbox
    mirrored : IsAnswered h.outbox request result.1.outbox result.0
    named : result.0.adapter ≡ name

  mirror_attempt-Attempted :
      (request : AdapterRequest) (name : String) (s : Stores) (es : List OutboxEntry)
      → IsQueue h.outbox es s.outbox
      → ((now : ℕ) → h.outbox.entries.is_split (new_entry name request now) ≡ false)
      → Attempted name request es (mirror_attempt h request name s) s
  unfolding mirror_attempt enqueue_mirror attempt_of
  mirror_attempt-Attempted request name s es q w =
      let response = execute_mirror h s.calls name request in
      let later : Calls = (name, request) ∷ s.calls in
      let now = h.site.clock later in
      let done = enqueue-Enqueued h.outbox name request now es s.outbox q (w now) in
      elim (Bool-cases (matches response request.capsule.fingerprint)) [
        | inl f ↦
            rw (f, mirror_attempt)
              (record {
                entries = es;
                queue = q;
                origin = λ e i. inl i;
                keeps = λ n k i. i;
                mirrored = inl f;
                named = refl;
              })
        | inr f ↦ elim done.pending [
          | inl (e, p) ↦
              rw (f, p, mirror_attempt, enqueue_mirror)
                (record {
                  entries = done.entries;
                  queue = done.queue;
                  origin = done.origin;
                  keeps = done.keeps;
                  mirrored = inr (inr (λ z. cc));
                  named = refl;
                })
          | inr ((added, p), i) ↦
              rw (f, p, mirror_attempt, enqueue_mirror)
                (record {
                  entries = done.entries;
                  queue = done.queue;
                  origin = done.origin;
                  keeps = done.keeps;
                  mirrored = inr (inl i);
                  named = refl;
                })
        ]
      ]

  -- The same of all mirrors.
  record AllAttempted (names : List String) (request : AdapterRequest) (es : List OutboxEntry)
      (result : List AdapterAttempt × Stores) (s : Stores) : Type 0 where
    entries : List OutboxEntry
    queue : IsQueue h.outbox entries result.1.outbox
    origin : (e : OutboxEntry) → In e entries → In e es ⊎ (e.request ≡ request)
    keeps :
        (n k : String) → IsPending h.outbox n k s.outbox → IsPending h.outbox n k result.1.outbox
    mirrored : Every (IsAnswered h.outbox request result.1.outbox) result.0
    named : map (λ a. a.adapter) result.0 ≡ names

  later-IsAnswered :
      (request : AdapterRequest) (o p : Outbox) (a : AdapterAttempt)
      → ((n k : String) → IsPending h.outbox n k o → IsPending h.outbox n k p)
      → IsAnswered h.outbox request o a
      → IsAnswered h.outbox request p a
  later-IsAnswered request o p a keeps (inl f) = inl f
  later-IsAnswered request o p a keeps (inr (inl i)) = inr (inl (keeps _ _ i))
  later-IsAnswered request o p a keeps (inr (inr e)) = inr (inr e)

  mirror_attempts-AllAttempted :
      (request : AdapterRequest) (names : List String) (s : Stores) (es : List OutboxEntry)
      → IsQueue h.outbox es s.outbox
      → IsWhole h.outbox request names
      → AllAttempted names request es (mirror_attempts h request names s) s
  unfolding mirror_attempts
  mirror_attempts-AllAttempted request [] s es q w = record {
    entries = es;
    queue = q;
    origin = λ e i. inl i;
    keeps = λ n k i. i;
    mirrored = tt;
    named = refl;
  }
  mirror_attempts-AllAttempted request (name ∷ names) s es q (w, ws) =
      let t = (mirror_attempt h request name s).1 in
      let one = mirror_attempt-Attempted request name s es q w in
      let rest = mirror_attempts-AllAttempted request names t one.entries one.queue ws in
      record {
        entries = rest.entries;
        queue = rest.queue;
        origin = λ e i. elim (rest.origin e i) [ inl k ↦ one.origin e k | inr p ↦ inr p ];
        keeps = λ n k i. rest.keeps n k (one.keeps n k i);
        mirrored = (
          later-IsAnswered request t.outbox _ (mirror_attempt h request name s).0 rest.keeps
              one.mirrored,
          rest.mirrored,
        );
        named = ground (arith, one.named, rest.named);
      }

  all-IsMirrored :
      (request : AdapterRequest) (es fs : List OutboxEntry) (o : Outbox)
      → IsQueue h.outbox fs o
      → ((e : OutboxEntry) → In e fs → In e es ⊎ (e.request ≡ request))
      → (attempts : List AdapterAttempt) → Every (IsAnswered h.outbox request o) attempts
      → Every (IsMirrored h.outbox request es o) attempts
  all-IsMirrored request es fs o q origin [] a = tt
  all-IsMirrored request es fs o q origin (t ∷ ts) (a, as') = (
    elim a [
      | inl f ↦ inl f
      | inr (inl i) ↦ inr (inl (pending-IsQueued h.outbox request t.adapter es fs o q origin i))
      | inr (inr e) ↦ inr (inr e)
    ],
    all-IsMirrored request es fs o q origin ts as',
  )

  -- What a checkpoint leaves of the mirrors.
  abbrev pub LeavesMirrored :
      CheckpointManager
      → AdapterRequest
      → List OutboxEntry
      → Outbox
      → List AdapterAttempt
      → Stores
      → Type 0
  LeavesMirrored m request es before attempts t =
      (map (λ a. a.adapter) attempts ≡ m.mirrors)
      × Every (IsMirrored h.outbox request es t.outbox) attempts
      × ((fs : List OutboxEntry) × IsQueue h.outbox fs t.outbox)
      × ((n k : String) → IsPending h.outbox n k before → IsPending h.outbox n k t.outbox)

  -- For an intact queue, and a request whose records for the mirrors hold no character that ends a
  -- line: after a checkpoint that returns, there is an attempt at each mirror in turn, and each has
  -- answered with the capsule's fingerprint, or the queue has an entry for the mirror that is this
  -- request or an earlier one of its idempotency key that was queued before, or its attempt carries
  -- the error that kept it out; the queue is intact, and every pair that was in it still is.
  pub checkpoint-IsMirrored :
      (m : CheckpointManager) (capsule : HandoffCapsule) (key : String) (s t : Stores)
      (result : CheckpointResult) (es : List OutboxEntry)
      → IsQueue h.outbox es s.outbox
      → IsWhole h.outbox (request_of capsule write key) m.mirrors
      → checkpoint h m capsule key s ≡ (some result, t)
      → LeavesMirrored m (request_of capsule write key) es s.outbox result.mirror_attempts t
  unfolding checkpoint read_back conclude
  checkpoint-IsMirrored m capsule key s t result es q w e =
      let request = request_of capsule write key in
      elim (attempt_cases (execute_required h request m.required s.calls)) [
        | inl (c, p) ↦ absurd (ground (arith, p))
        | inr (ws, c, p) ↦
            elim (attempt_cases (execute_required h (request_of capsule read key) m.required c)) [
              | inl (d, r) ↦ absurd (ground (arith, p, r))
              | inr (rs, d, r) ↦
                  let last : Stores = record { calls = d; outbox = s.outbox } in
                  let all = mirror_attempts-AllAttempted request m.mirrors last es q w in
                  let (attempts, u) = mirror_attempts h request m.mirrors last in
                  let same_stores : u ≡ t = ground (arith, p, r) in
                  let same_attempts : attempts ≡ result.mirror_attempts = ground (arith, p, r) in
                  subst (λ as'. LeavesMirrored m request es s.outbox as' t) same_attempts
                    (subst (LeavesMirrored m request es s.outbox attempts) same_stores (
                      all.named,
                      all-IsMirrored request es all.entries u.outbox all.queue all.origin attempts
                          all.mirrored,
                      (all.entries, all.queue),
                      all.keeps,
                    ))
            ]
      ]
