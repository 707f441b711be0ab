-- ===== src/Finalization/Begin.antt =====
-- finalization.py: a request that is begun again, and a record that is too large to be read.
use agent_session_harness.Prelude.{
  ap, sym, subst, ◌∙◌, ℕ, ◌≡◌, ◌<◌, ◌⊎◌, inl, inr, String, true, false, none, some, arith, same,
  same_iff, string_eq, strip, Bool-cases, Except, returned, thrown,
}
use agent_session_harness.Finalization.{
  FinalizationRecord, FinalizationError, Outcome, invalid, file_too_large, other_request, max_bytes,
  is_record, load, begin, begin_with, resume, candidate, store, apply, transition,
}

module _ (bytes : FinalizationRecord → ℕ) where
  begin-none :
      (session_id summary : String) (r : FinalizationRecord)
      → (begin bytes session_id summary none).0 ≡ returned r
      → ((begin bytes session_id summary none).1 ≡ some r)
        × (is_record r ≡ true)
        × (r.session_id ≡ session_id)
        × (r.summary ≡ strip summary)
  unfolding begin begin_with candidate
  begin-none session_id summary r h =
      elim (Bool-cases (is_record (candidate bytes session_id summary))) [
        | inr n ↦ absurd (ground (arith, n))
        | inl n ↦ (
          ground (arith, n),
          (let built : candidate bytes session_id summary ≡ r = ground (arith, n, h) in
              subst (λ u. is_record u ≡ true) built n),
          ground (arith, n),
          ground (arith, n),
        )
      ]

  begin-some :
      (session_id summary : String) (r : FinalizationRecord)
      → is_record (candidate bytes session_id summary) ≡ true
      → begin bytes session_id summary (some r)
        ≡ (resume bytes session_id (strip summary) (load bytes (some r)), some r)
  unfolding begin begin_with candidate
  begin-some session_id summary r n = ground (arith, n)

  begin-refused :
      (session_id summary : String) (r : FinalizationRecord)
      → is_record (candidate bytes session_id summary) ≡ false
      → begin bytes session_id summary (some r) ≡ (thrown invalid, some r)
  unfolding begin
  begin-refused session_id summary r n = ground (arith, n)

  load-written :
      (r : FinalizationRecord)
      → is_record r ≡ true
      → bytes r < max_bytes
      → load bytes (some r) ≡ returned r
  unfolding load
  load-written r n b = ground (arith, n, b)

  resume_cases :
      (session_id summary : String) (r : FinalizationRecord)
      → ((resume bytes session_id summary (returned r) ≡ returned r)
          × (r.session_id ≡ session_id)
          × (r.summary ≡ summary))
        ⊎ ((resume bytes session_id summary (returned r) ≡ thrown other_request)
            × ¬ ((r.session_id ≡ session_id) × (r.summary ≡ summary)))
  unfolding resume
  resume_cases session_id summary r = elim (Bool-cases (same r.session_id session_id)) [
    | inr p ↦ inr (
      ground (arith, p),
      λ q. absurd (ground (arith, p, (same_iff r.session_id session_id).1 q.0)),
    )
    | inl p ↦ elim (Bool-cases (same r.summary summary)) [
      | inr q ↦ inr (
        ground (arith, p, q),
        λ z. absurd (ground (arith, q, (same_iff r.summary summary).1 z.1)),
      )
      | inl q ↦ inl (
        ground (arith, p, q),
        (same_iff r.session_id session_id).0 p,
        (same_iff r.summary summary).0 q,
      )
    ]
  ]

  -- A request that began with a record within the bound of the file: when it begins again, with any
  -- spaces around the same summary, the record is returned as it is; another session or summary is
  -- refused; the file is unchanged either way.
  pub begin-begin :
      (session_id summary other_id other : String) (r : FinalizationRecord)
      → (begin bytes session_id summary none).0 ≡ returned r
      → bytes r < max_bytes
      → is_record (candidate bytes other_id other) ≡ true
      → ((begin bytes other_id other (begin bytes session_id summary none).1 ≡ (returned r, some r))
          × (other_id ≡ session_id)
          × (strip other ≡ strip summary))
        ⊎ ((begin bytes other_id other (begin bytes session_id summary none).1
              ≡ (thrown other_request, some r))
            × ¬ ((other_id ≡ session_id) × (strip other ≡ strip summary)))
  begin-begin session_id summary other_id other r h b n =
      let (f, v, i, u) = begin-none session_id summary r h in
      let again : begin bytes other_id other (begin bytes session_id summary none).1
          ≡ (resume bytes other_id (strip other) (returned r), some r) =
        ap (begin bytes other_id other) f
        ∙ begin-some other_id other r n
        ∙ ap (λ (o : Outcome). (resume bytes other_id (strip other) o, some r))
            (load-written r v b) in
      elim (resume_cases other_id (strip other) r) [
        | inl (p, x, y) ↦ inl (again ∙ ap (λ (o : Outcome). (o, some r)) p, sym x ∙ i, sym y ∙ u)
        | inr (p, x) ↦
            inr (again ∙ ap (λ (o : Outcome). (o, some r)) p, λ (y, z). x (i ∙ sym y, u ∙ sym z))
      ]

  -- A record whose text is larger than the bound of a read is stored by `begin`, which does not look
  -- at the size: from then on every call raises, and the file never changes.
  pub begin-unreadable :
      (session_id summary : String) (r : FinalizationRecord)
      → (begin bytes session_id summary none).0 ≡ returned r
      → max_bytes < bytes r
      → ((begin bytes session_id summary none).1 ≡ some r)
        × (load bytes (some r) ≡ thrown file_too_large)
        × ((change : FinalizationRecord → Except FinalizationError FinalizationRecord)
            → transition bytes change (some r) ≡ (thrown file_too_large, some r))
        × ((other_id other : String)
            → (e : FinalizationError) × (begin bytes other_id other (some r) ≡ (thrown e, some r)))
  unfolding load transition store apply resume
  begin-unreadable session_id summary r h b =
      let (f, v, i, u) = begin-none session_id summary r h in
      let large : load bytes (some r) ≡ thrown file_too_large = ground arith in
      (
        f,
        large,
        λ change. ground arith,
        λ other_id other. elim (Bool-cases (is_record (candidate bytes other_id other))) [
          | inl n ↦ (
            file_too_large,
            begin-some other_id other r n
                ∙ ap (λ (o : Outcome). (resume bytes other_id (strip other) o, some r)) large,
          )
          | inr n ↦ (invalid, begin-refused other_id other r n)
        ],
      )
