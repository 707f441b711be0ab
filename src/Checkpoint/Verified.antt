-- ===== src/Checkpoint/Verified.antt =====
-- checkpoint.py: what a verified checkpoint says of the required stores.
use agent_session_harness.Prelude.{
  ◌≡◌, ◌↔◌, ◌⊎◌, inl, inr, refl, subst, String, true, ◌&&◌, List, [], ◌∷◌, ◌++◌, Option, none, some,
  Option-cases, arith,
}
use agent_session_harness.Capsule.{HandoffCapsule}
use agent_session_harness.Outbox.{write, read, AdapterRequest, AdapterResponse, Calls, matches}
use agent_session_harness.Checkpoint.{
  AdapterAttempt, CheckpointResult, CheckpointManager, Host, Stores, request_of, attempt_of,
  add_attempt, all_match, execute_required, conclude, read_back, checkpoint,
}

add_attempt-some :
    (a : AdapterAttempt) (p : Option (List AdapterAttempt) × Calls) (as' : List AdapterAttempt)
    (later : Calls)
    → add_attempt a p ≡ (some as', later)
    → (bs : List AdapterAttempt) × (p ≡ (some bs, later)) × (a ∷ bs ≡ as')
unfolding add_attempt
add_attempt-some a (none, calls) as' later e = absurd (cc)
add_attempt-some a (some bs, calls) as' later e = (bs, ground arith, ground arith)

all_match-append :
    (expected : String) (xs ys : List AdapterAttempt)
    → all_match expected (xs ++ ys) ≡ (all_match expected xs && all_match expected ys)
unfolding all_match
all_match-append expected [] ys = refl
all_match-append expected (x ∷ xs) ys = ground (arith, all_match-append expected xs ys)

pub attempt_cases :
    {A B : Type 0} (p : Option A × B)
    → ((b : B) × (p ≡ (none, b))) ⊎ ((a : A) × (b : B) × (p ≡ (some a, b)))
attempt_cases (none, b) = inl (b, refl)
attempt_cases (some a, b) = inr (a, b, refl)

module _ (h : Host) (request : AdapterRequest) (expected : String) where
  -- The store answers the request, after these calls, with the expected fingerprint.
  abbrev pub Answers : String → Calls → Type 0
  Answers name calls =
      (r : AdapterResponse) × (h.site.adapters.execute calls name request ≡ some r)
      × (matches r expected ≡ true)

  -- Every store does, one after the other.
  abbrev pub AllAnswer : List String → Calls → Type 0
  AllAnswer [] calls = Unit
  AllAnswer (name ∷ names) calls = Answers name calls × AllAnswer names ((name, request) ∷ calls)

  abbrev pub after : List String → Calls → Calls
  after [] calls = calls
  after (name ∷ names) calls = after names ((name, request) ∷ calls)

  -- A round that no adapter interrupts ends after all calls, and its attempts all match exactly where
  -- every store answers so in its turn.
  execute_required-AllAnswer :
      (names : List String) (calls later : Calls) (attempts : List AdapterAttempt)
      → execute_required h request names calls ≡ (some attempts, later)
      → (later ≡ after names calls) × ((all_match expected attempts ≡ true) ↔ AllAnswer names calls)
  unfolding execute_required all_match attempt_of
  execute_required-AllAnswer [] calls later attempts e =
      (ground arith, (λ _. tt, λ _. ground arith))
  execute_required-AllAnswer (name ∷ names) calls later attempts e =
      elim (Option-cases (h.site.adapters.execute calls name request)) [
        | inl p ↦ absurd (ground (arith, p))
        | inr (r, p) ↦
            let rest = execute_required h request names ((name, request) ∷ calls) in
            let (bs, q, t) =
              add_attempt-some (attempt_of name request.operation r none) rest attempts later
                (rw (p, execute_required) at e) in
            let (l, (f, g)) =
              execute_required-AllAnswer names ((name, request) ∷ calls) later bs q in
            (
              l,
              (
                λ m. ((r, p, ground (arith, t)), f (ground (arith, t))),
                λ a. ground (arith, t, g a.1, answer_of name calls r p a.0),
              ),
            )
      ]
    where
      answer_of :
          (name : String) (calls : Calls) (r : AdapterResponse)
          → h.site.adapters.execute calls name request ≡ some r
          → Answers name calls
          → matches r expected ≡ true
      answer_of name calls r p (r', p', m) = ground (arith, p, p')

module _ (h : Host) (m : CheckpointManager) (capsule : HandoffCapsule) (key : String) where
  abbrev writes : AdapterRequest
  writes = request_of capsule write key

  abbrev reads : AdapterRequest
  reads = request_of capsule read key

  -- A checkpoint that returns has the verdict of its writes and its reads.
  checkpoint-attempts :
      (s t : Stores) (result : CheckpointResult)
      → checkpoint h m capsule key s ≡ (some result, t)
      → (ws : List AdapterAttempt) × (rs : List AdapterAttempt) × (c : Calls) × (d : Calls)
        × (execute_required h writes m.required s.calls ≡ (some ws, c))
        × (execute_required h reads m.required c ≡ (some rs, d))
        × (result.verified ≡ all_match capsule.fingerprint (ws ++ rs))
        × (result.fingerprint ≡ capsule.fingerprint)
  unfolding checkpoint read_back conclude
  checkpoint-attempts s t result e =
      elim (attempt_cases (execute_required h writes m.required s.calls)) [
        | inl (c, p) ↦ absurd (ground (arith, p))
        | inr (ws, c, p) ↦ elim (attempt_cases (execute_required h reads m.required c)) [
          | inl (d, q) ↦ absurd (ground (arith, p, q))
          | inr (rs, d, q) ↦ (ws, rs, c, d, p, q, ground (arith, p, q), ground (arith, p, q))
        ]
      ]

  -- A checkpoint that returns is verified exactly where every required store answers the write, each
  -- after the calls before it, and then every one the read, all with the capsule's fingerprint; what
  -- the mirrors answer and what becomes of the queue has no part in it. Its fingerprint is the
  -- capsule's.
  pub checkpoint-verified :
      (s t : Stores) (result : CheckpointResult)
      → checkpoint h m capsule key s ≡ (some result, t)
      → ((result.verified ≡ true) ↔ (
          AllAnswer h writes capsule.fingerprint m.required s.calls
          × AllAnswer h reads capsule.fingerprint m.required
              (after h writes capsule.fingerprint m.required s.calls)))
        × (result.fingerprint ≡ capsule.fingerprint)
  checkpoint-verified s t result e =
      let (ws, rs, c, d, p, q, v, f) = checkpoint-attempts s t result e in
      let (l, k) =
        execute_required-AllAnswer h writes capsule.fingerprint m.required s.calls c ws p in
      let (_, n) = execute_required-AllAnswer h reads capsule.fingerprint m.required c d rs q in
      let both = all_match-append capsule.fingerprint ws rs in
      let n' =
        subst
          (λ (z : Calls).
            (all_match capsule.fingerprint rs ≡ true)
            ↔ AllAnswer h reads capsule.fingerprint m.required z)
          l n in
      (
        (
          λ r. (k.0 (ground (arith, v, both, r)), n'.0 (ground (arith, v, both, r))),
          λ (a, b). ground (arith, v, both, k.1 a, n'.1 b),
        ),
        f,
      )
