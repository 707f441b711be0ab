-- ===== src/Finalization/Progress.antt =====
-- finalization.py: what holds of the record after any calls.
use agent_session_harness.Prelude.{
  ℕ, ◌≡◌, ◌⊎◌, inl, inr, refl, sym, subst, ◌∙◌, String, true, List, [], ◌∷◌, none, some, arith,
  Bool-cases, returned, Except-cases,
}
use agent_session_harness.Finalization.{
  finalized, FinalizationRecord, FinalizationFile, Outcome, is_consistent, is_record,
  is_both_or_none, is_blocked, is_finalized, load, begin, begin_with, candidate, store, apply,
  transition, record_block, blocked_with, acknowledge_block, unblocked, is_dispatched,
  mark_retro_submitted, mark_summary_surfaced, finalize, finished,
}

-- The calls of a store.
pub data Call : Type 0 where
  begins : String → String → Call
  records : String → String → Call
  acknowledges : String → Call
  submits surfaces finalizes : Call

module _ (bytes : FinalizationRecord → ℕ) where
  abbrev pub execute : Call → FinalizationFile → FinalizationFile
  execute (begins session_id summary) f = (begin bytes session_id summary f).1
  execute (records dispatch_id message) f = (record_block bytes dispatch_id message f).1
  execute (acknowledges dispatch_id) f = (acknowledge_block bytes dispatch_id f).1
  execute submits f = (mark_retro_submitted bytes f).1
  execute surfaces f = (mark_summary_surfaced bytes f).1
  execute finalizes f = (finalize bytes f).1

  abbrev pub run : List Call → FinalizationFile → FinalizationFile
  run [] f = f
  run (c ∷ cs) f = run cs (execute c f)

  -- A finalized record has both steps done and no block.
  pub record IsProper (r : FinalizationRecord) : Type 0 where
    pub consistent : is_consistent r ≡ true
    pub complete :
        r.phase ≡ finalized
        → (r.retro_submitted ≡ true) × (r.summary_surfaced ≡ true) × (r.pending_block ≡ none)

  abbrev pub AllProper : FinalizationFile → Type 0
  AllProper none = Unit
  AllProper (some r) = IsProper r

  -- The request is the same, and what was done stays done.
  pub record IsLater (r u : FinalizationRecord) : Type 0 where
    pub session : u.session_id ≡ r.session_id
    pub summary : u.summary ≡ r.summary
    pub retro : r.retro_submitted ≡ true → u.retro_submitted ≡ true
    pub surfaced : r.summary_surfaced ≡ true → u.summary_surfaced ≡ true
    pub final : r.phase ≡ finalized → u.phase ≡ finalized

  -- The record changes properly.
  record IsChange (r u : FinalizationRecord) : Type 0 where
    proper : is_consistent u ≡ true → IsProper u
    later : IsLater r u

  load-some :
      (f : FinalizationFile) (r : FinalizationRecord) → load bytes f ≡ returned r → f ≡ some r
  unfolding load
  load-some f r p = ground arith

  record-consistent : (u : FinalizationRecord) → is_record u ≡ true → is_consistent u ≡ true
  unfolding is_record
  record-consistent u n = ground arith

  -- A transition leaves the file, or writes what the change makes of its record.
  transition_cases :
      (change : FinalizationRecord → Outcome) (f : FinalizationFile)
      → ((transition bytes change f).1 ≡ f)
        ⊎ ((r : FinalizationRecord) × (u : FinalizationRecord) × (f ≡ some r)
            × (change r ≡ returned u)
            × (is_consistent u ≡ true)
            × ((transition bytes change f).1 ≡ some u))
  unfolding transition store apply
  transition_cases change f = elim (Except-cases (load bytes f)) [
    | inr (e, p) ↦ inl (ground (arith, p))
    | inl (r, p) ↦ elim (Except-cases (change r)) [
      | inr (e, q) ↦ inl (ground (arith, p, q))
      | inl (u, q) ↦ elim (Bool-cases (is_record u)) [
        | inr n ↦ inl (ground (arith, p, q, n))
        | inl n ↦ inr (r, u, load-some f r p, q, record-consistent u n, ground (arith, p, q, n))
      ]
    ]
  ]

  records-IsChange :
      (dispatch_id message : String) (r u : FinalizationRecord)
      → IsProper r
      → blocked_with bytes dispatch_id message r ≡ returned u
      → IsChange r u
  unfolding blocked_with is_finalized
  records-IsChange dispatch_id message r u h e = record {
    proper = λ c. record { consistent = c; complete = λ p. absurd (ground (arith, p)) };
    later = record {
      session = ground arith;
      summary = ground arith;
      retro = λ p. ground arith;
      surfaced = λ p. ground arith;
      final = λ p. ground (arith, p);
    };
  }

  unblocked-IsChange :
      (dispatch_id : String) (r u : FinalizationRecord)
      → IsProper r
      → unblocked bytes dispatch_id r ≡ returned u
      → IsChange r u
  unfolding unblocked is_dispatched is_consistent is_both_or_none
  unblocked-IsChange dispatch_id r u h e = record {
    proper = λ c. record { consistent = c; complete = λ p. ground (arith, p, h.complete) };
    later = record {
      session = ground arith;
      summary = ground arith;
      retro = λ p. ground arith;
      surfaced = λ p. ground arith;
      final = λ p. ground (arith, p, h.consistent, h.complete p);
    };
  }

  finished-IsChange :
      (r u : FinalizationRecord) → IsProper r → finished bytes r ≡ returned u → IsChange r u
  unfolding finished
  finished-IsChange r u h e = record {
    proper = λ c. record { consistent = c; complete = λ p. ground (arith, p) };
    later = record {
      session = ground arith;
      summary = ground arith;
      retro = λ p. ground arith;
      surfaced = λ p. ground arith;
      final = λ p. ground (arith, p);
    };
  }

  submits-IsChange :
      (r : FinalizationRecord) → IsProper r → IsChange r (record r { retro_submitted = true })
  submits-IsChange r h = record {
    proper = λ c. record { consistent = c; complete = λ p. ground (arith, p, h.complete p) };
    later = record {
      session = refl;
      summary = refl;
      retro = λ p. refl;
      surfaced = λ p. p;
      final = λ p. p;
    };
  }

  surfaces-IsChange :
      (r : FinalizationRecord) → IsProper r → IsChange r (record r { summary_surfaced = true })
  surfaces-IsChange r h = record {
    proper = λ c. record { consistent = c; complete = λ p. ground (arith, p, h.complete p) };
    later = record {
      session = refl;
      summary = refl;
      retro = λ p. p;
      surfaced = λ p. refl;
      final = λ p. p;
    };
  }

  abbrev pub AllLater : FinalizationFile → FinalizationFile → Type 0
  AllLater none g = Unit
  AllLater (some r) none = ⊥
  AllLater (some r) (some u) = IsLater r u

  IsLater-self : (r : FinalizationRecord) → IsLater r r
  IsLater-self r = record {
    session = refl;
    summary = refl;
    retro = λ p. p;
    surfaced = λ p. p;
    final = λ p. p;
  }

  AllLater-self : (f : FinalizationFile) → AllLater f f
  AllLater-self none = tt
  AllLater-self (some r) = IsLater-self r

  AllLater-trans : (f g k : FinalizationFile) → AllLater f g → AllLater g k → AllLater f k
  AllLater-trans none g k p q = tt
  AllLater-trans (some r) none k p q = absurd p
  AllLater-trans (some r) (some u) none p q = absurd q
  AllLater-trans (some r) (some u) (some v) p q = record {
    session = q.session ∙ p.session;
    summary = q.summary ∙ p.summary;
    retro = λ h. q.retro (p.retro h);
    surfaced = λ h. q.surfaced (p.surfaced h);
    final = λ h. q.final (p.final h);
  }

  abbrev Good : FinalizationFile → FinalizationFile → Type 0
  Good f g = AllProper g × AllLater f g

  transition-Good :
      (change : FinalizationRecord → Outcome) (f : FinalizationFile)
      → ((r u : FinalizationRecord) → IsProper r → change r ≡ returned u → IsChange r u)
      → AllProper f
      → Good f (transition bytes change f).1
  transition-Good change f k h = elim (transition_cases change f) [
    | inl p ↦ subst (Good f) (sym p) (h, AllLater-self f)
    | inr (r, u, p, q, c, e) ↦
        let changed = k r u (subst AllProper p h) q in
        subst (Good f) (sym e)
          (subst (λ g. Good g (some u)) (sym p) (changed.proper c, changed.later))
  ]

  abbrev answer : FinalizationRecord → Outcome
  answer r = returned r

  returned-IsChange :
      (r u v : FinalizationRecord) → IsChange r v → answer v ≡ answer u → IsChange r u
  returned-IsChange r u v h p = subst (IsChange r) (ground (arith, p)) h

  candidate-IsProper : (session_id summary : String) → IsProper (candidate bytes session_id summary)
  unfolding candidate is_consistent is_both_or_none is_blocked
  candidate-IsProper session_id summary = record { consistent = refl; complete = λ p. absurd (cc) }

  begin-Good :
      (session_id summary : String) (f : FinalizationFile)
      → AllProper f
      → Good f (begin bytes session_id summary f).1
  unfolding begin begin_with
  begin-Good session_id summary none h =
      elim (Bool-cases (is_record (candidate bytes session_id summary))) [
        | inl n ↦ rw (n, begin) (candidate-IsProper session_id summary, tt)
        | inr n ↦ rw (n, begin) (tt, tt)
      ]
  begin-Good session_id summary (some r) h =
      let kept : (begin bytes session_id summary (some r)).1 ≡ some r = ground arith in
      subst (Good (some r)) (sym kept) (h, IsLater-self r)

  execute-Good : (c : Call) (f : FinalizationFile) → AllProper f → Good f (execute c f)
  unfolding record_block acknowledge_block mark_retro_submitted mark_summary_surfaced finalize
  execute-Good (begins session_id summary) f h = begin-Good session_id summary f h
  execute-Good (records dispatch_id message) f h =
      transition-Good (blocked_with bytes dispatch_id message) f
        (records-IsChange dispatch_id message) h
  execute-Good (acknowledges dispatch_id) f h =
      transition-Good (unblocked bytes dispatch_id) f (unblocked-IsChange dispatch_id) h
  execute-Good submits f h =
      transition-Good (λ r. returned (record r { retro_submitted = true })) f
        (λ r u g e.
          returned-IsChange r u (record r { retro_submitted = true }) (submits-IsChange r g) e)
        h
  execute-Good surfaces f h =
      transition-Good (λ r. returned (record r { summary_surfaced = true })) f
        (λ r u g e.
          returned-IsChange r u (record r { summary_surfaced = true }) (surfaces-IsChange r g) e)
        h
  execute-Good finalizes f h = transition-Good (finished bytes) f finished-IsChange h

  -- After any calls of a store, a record that is finalized has its retro submitted, its summary
  -- surfaced and no pending block, and a pending block and its dispatch stand or fall together;
  -- the record of a session stays its own with its summary, what was done stays done, and a
  -- finalized record stays finalized.
  pub run-AllProper :
      (cs : List Call) (f : FinalizationFile)
      → AllProper f
      → AllProper (run cs f) × AllLater f (run cs f)
  run-AllProper [] f h = (h, AllLater-self f)
  run-AllProper (c ∷ cs) f h =
      let (g, l) = execute-Good c f h in
      let (p, q) = run-AllProper cs (execute c f) g in
      (p, AllLater-trans f (execute c f) (run cs (execute c f)) l q)
