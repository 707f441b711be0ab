-- ===== src/Outbox/Replay/Outcomes.antt =====
-- outbox.py: what the outcomes of a batch say of its entries, and what the reconciliation keeps.
use agent_session_harness.Prelude.{
  ℕ, ◌≡◌, ◌⊎◌, inl, inr, refl, String, true, List, [], ◌∷◌, some, same, same_iff, arith,
  Option-cases, Bool-cases, subst, sym, ◌∙◌,
}
use agent_session_harness.Outbox.{
  AdapterResponse, Calls, matches, OutboxEntry, entry_eq, DeadLetterEntry,
}
use agent_session_harness.Outbox.Queue.{In, In-append_left, In-append_right}
use agent_session_harness.Outbox.Replay.{
  Outcome, retain, success, dead_letter, Site, delete_first, letter_of, outcome_of, repeat_entry,
  repeat_batch, settle, reconcile,
}

-- The letter is about the entry, with an error that was sanitized.
pub record IsLetterOf (x : Site) (d : DeadLetterEntry) (e : OutboxEntry) : Type 0 where
  pub failed_at : ℕ
  pub error : String
  pub letter : d ≡ letter_of e failed_at (x.sanitize_error error)

-- After these calls, the entry's adapter is called and answers its request with the capsule's
-- fingerprint.
pub record IsAnswered (x : Site) (calls : Calls) (e : OutboxEntry) : Type 0 where
  pub claimed : x.is_claimed calls e ≡ true
  pub known : x.adapters.is_known e.adapter ≡ true
  pub response : AdapterResponse
  pub answer : x.adapters.execute calls e.adapter e.request ≡ some response
  pub matched : matches response e.request.capsule.fingerprint ≡ true

-- The batch holds the entry, and its adapter answers it when the batch comes to it.
abbrev pub AnsweredIn : Site → OutboxEntry → List OutboxEntry → Calls → Type 0
AnsweredIn x e [] calls = ⊥
AnsweredIn x e (f ∷ fs) calls =
    ((f ≡ e) × IsAnswered x calls f) ⊎ AnsweredIn x e fs (repeat_entry x calls f).1

-- What the outcome of an entry says of it, where `P` is what a success says.
abbrev pub Justified : Site → (OutboxEntry → Type 0) → OutboxEntry → Outcome → Type 0
Justified x P e retain = Unit
Justified x P e success = P e
Justified x P e (dead_letter d) = IsLetterOf x d e

abbrev pub AllJustified : Site → (OutboxEntry → Type 0) → List (OutboxEntry × Outcome) → Type 0
AllJustified x P [] = Unit
AllJustified x P ((e, o) ∷ os) = Justified x P e o × AllJustified x P os

module _ (x : Site) (P Q : OutboxEntry → Type 0) (weaken : (e : OutboxEntry) → P e → Q e) where
  Justified-weaken : (e : OutboxEntry) (o : Outcome) → Justified x P e o → Justified x Q e o
  Justified-weaken e retain j = tt
  Justified-weaken e success j = weaken e j
  Justified-weaken e (dead_letter d) j = j

  AllJustified-weaken :
      (os : List (OutboxEntry × Outcome)) → AllJustified x P os → AllJustified x Q os
  AllJustified-weaken [] j = tt
  AllJustified-weaken ((e, o) ∷ os) (j, js) = (Justified-weaken e o j, AllJustified-weaken os js)

module _ (x : Site) where
  letter_of-IsLetterOf :
      (e : OutboxEntry) (t : ℕ) (s : String) → IsLetterOf x (letter_of e t (x.sanitize_error s)) e
  letter_of-IsLetterOf e t s = record { failed_at = t; error = s; letter = refl }

  outcome_of-Justified :
      (calls : Calls) (e : OutboxEntry) (r : AdapterResponse)
      → x.is_claimed calls e ≡ true
      → x.adapters.is_known e.adapter ≡ true
      → x.adapters.execute calls e.adapter e.request ≡ some r
      → Justified x (IsAnswered x calls) e (outcome_of x calls e r)
  unfolding outcome_of
  outcome_of-Justified calls e r c k h =
      elim (Bool-cases (matches r e.request.capsule.fingerprint)) [
        | inl m ↦
            rw (m, outcome_of)
              (record { claimed = c; known = k; response = r; answer = h; matched = m })
        | inr m ↦ elim (Bool-cases r.ok) [
          | inl k ↦ rw (m, k, outcome_of) (letter_of-IsLetterOf e _ _)
          | inr k ↦ elim (Bool-cases r.retryable) [
            | inl q ↦ rw (m, k, q, outcome_of) tt
            | inr q ↦ rw (m, k, q, outcome_of) (letter_of-IsLetterOf e _ _)
          ]
        ]
      ]

  repeat_entry-Justified :
      (calls : Calls) (e : OutboxEntry)
      → Justified x (IsAnswered x calls) e (repeat_entry x calls e).0
  unfolding repeat_entry
  repeat_entry-Justified calls e = elim (Bool-cases (x.is_claimed calls e)) [
    | inr c ↦ rw (c, repeat_entry) tt
    | inl c ↦ elim (Bool-cases (x.adapters.is_known e.adapter)) [
      | inr k ↦ rw (c, k, repeat_entry) tt
      | inl k ↦ elim (Option-cases (x.adapters.execute calls e.adapter e.request)) [
        | inl q ↦ rw (c, k, q, repeat_entry) tt
        | inr (r, q) ↦ rw (c, k, q, repeat_entry) (outcome_of-Justified calls e r c k q)
      ]
    ]
  ]

  entry-AnsweredIn :
      (calls : Calls) (f : OutboxEntry) (fs : List OutboxEntry) (o : Outcome)
      → Justified x (IsAnswered x calls) f o
      → Justified x (λ e. AnsweredIn x e (f ∷ fs) calls) f o
  entry-AnsweredIn calls f fs retain j = tt
  entry-AnsweredIn calls f fs success j = inl (refl, j)
  entry-AnsweredIn calls f fs (dead_letter d) j = j

  pub repeat_batch-AllJustified :
      (es : List OutboxEntry) (calls : Calls)
      → AllJustified x (λ e. AnsweredIn x e es calls) (repeat_batch x es calls)
  unfolding repeat_batch
  repeat_batch-AllJustified [] calls = tt
  repeat_batch-AllJustified (f ∷ fs) calls =
      let later = (repeat_entry x calls f).1 in
      (
        entry-AnsweredIn calls f fs _ (repeat_entry-Justified calls f),
        AllJustified-weaken x (λ e. AnsweredIn x e fs later) (λ e. AnsweredIn x e (f ∷ fs) calls)
            (λ e j. inr j) _ (repeat_batch-AllJustified fs later),
      )

-- A letter of the list is about the entry.
abbrev pub Written : Site → OutboxEntry → List DeadLetterEntry → Type 0
Written x e ds = (d : DeadLetterEntry) × IsLetterOf x d e × In d ds

delete_first-In :
    (o e : OutboxEntry) (xs ys : List OutboxEntry)
    → delete_first o xs ≡ some ys
    → In e xs
    → (o ≡ e) ⊎ In e ys
unfolding delete_first
delete_first-In o e [] ys h i = absurd i
delete_first-In o e (x ∷ xs) ys h i = elim (Bool-cases (same x o)) [
  | inl s ↦
      let rest : xs ≡ ys = ground (arith, s) in
      elim i [ inl r ↦ inl (sym ((same_iff x o).0 s) ∙ r) | inr k ↦ inr (subst (In e) rest k) ]
  | inr s ↦ elim (Option-cases (delete_first o xs)) [
    | inl q ↦ ground (arith, q)
    | inr (zs, q) ↦
        let rest : x ∷ zs ≡ ys = ground (arith, s, q) in
        elim i [
          | inl r ↦ inr (subst (In e) rest (inl r))
          | inr k ↦ elim (delete_first-In o e xs zs q k) [
            | inl l ↦ inl l
            | inr l ↦ inr (subst (In e) rest (inr l))
          ]
        ]
  ]
]

module _ (x : Site) (P : OutboxEntry → Type 0) where
  settle-In :
      (o : OutboxEntry) (r : Outcome) (e : OutboxEntry) (xs : List OutboxEntry)
      → Justified x P o r
      → In e xs
      → In e (settle o r xs).0 ⊎ (Written x e (settle o r xs).1 ⊎ P e)
  unfolding settle
  settle-In o retain e xs j i = inl i
  settle-In o success e xs j i = elim (Option-cases (delete_first o xs)) [
    | inl q ↦ rw (q, settle) (inl i)
    | inr (ys, q) ↦
        rw (q, settle)
          (elim (delete_first-In o e xs ys q i) [ inl p ↦ inr (inr (subst P p j)) | inr k ↦ inl k ])
  ]
  settle-In o (dead_letter d) e xs j i = elim (Option-cases (delete_first o xs)) [
    | inl q ↦ rw (q, settle) (inl i)
    | inr (ys, q) ↦
        rw (q, settle)
          (elim (delete_first-In o e xs ys q i) [
            | inl p ↦ inr (inl (d, subst (IsLetterOf x d) p j, inl refl))
            | inr k ↦ inl k
          ])
  ]

  pub reconcile-In :
      (os : List (OutboxEntry × Outcome)) (e : OutboxEntry) (xs : List OutboxEntry)
      → AllJustified x P os
      → In e xs
      → In e (reconcile os xs).0 ⊎ (Written x e (reconcile os xs).1 ⊎ P e)
  unfolding reconcile
  reconcile-In [] e xs j i = inl i
  reconcile-In ((o, r) ∷ os) e xs (j, js) i = elim (settle-In o r e xs j i) [
    | inl k ↦ elim (reconcile-In os e (settle o r xs).0 js k) [
      | inl l ↦ inl l
      | inr (inl (d, t, l)) ↦ inr (inl (d, t, In-append_right d (settle o r xs).1 _ l))
      | inr (inr l) ↦ inr (inr l)
    ]
    | inr (inl (d, t, l)) ↦ inr (inl (d, t, In-append_left d (settle o r xs).1 _ l))
    | inr (inr l) ↦ inr (inr l)
  ]
