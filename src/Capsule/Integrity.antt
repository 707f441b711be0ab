-- ===== src/Capsule/Integrity.antt =====
-- capsule.py: a capsule that was validated, written and read again.
use agent_session_harness.Prelude.{
  ◌≤◌, ◌≡◌, ◌⊎◌, inl, inr, refl, String, true, false, some, same_iff, string_eq, ap, text_length,
  arith, ap, sym, subst, ◌∙◌,
}
use agent_session_harness.Capsule.{
  HandoffCapsule, Texts, validate, verify_path, verify_fingerprint, expected_fingerprint,
  has_bounded_fields, is_clean,
}

module _ (t : Texts) where
  verify_fingerprint-some :
      (c d : HandoffCapsule)
      → verify_fingerprint t c ≡ some d
      → (d ≡ record c { fingerprint = expected_fingerprint t c })
        × ((c.fingerprint ≡ "") ⊎ (c.fingerprint ≡ expected_fingerprint t c))
  unfolding verify_fingerprint
  verify_fingerprint-some c d h =
      ground (arith, same_iff c.fingerprint "", same_iff c.fingerprint (expected_fingerprint t c))

  -- A fingerprint that is the expected one is kept.
  verify_fingerprint-fixed :
      (c : HandoffCapsule)
      → c.fingerprint ≡ expected_fingerprint t c
      → verify_fingerprint t c ≡ some c
  unfolding verify_fingerprint
  verify_fingerprint-fixed c h = ground (
    arith,
    same_iff c.fingerprint (expected_fingerprint t c),
    ap (λ (f : String). record c { fingerprint = f }) h,
  )

  accepted :
      (c d : HandoffCapsule)
      → t.resolve c.repository_path ≡ some c.repository_path
      → validate t c ≡ some d
      → (has_bounded_fields t c ≡ true) × (verify_fingerprint t c ≡ some d)
  unfolding validate verify_path
  accepted c d r h = ground (arith, r)

  rechecked :
      (c : HandoffCapsule)
      → t.is_credential (expected_fingerprint t c) ≡ false
      → text_length (expected_fingerprint t c) ≤ 64
      → has_bounded_fields t c ≡ true
      → has_bounded_fields t (record c { fingerprint = expected_fingerprint t c }) ≡ true
  unfolding has_bounded_fields is_clean
  rechecked c k b h = ground arith

  abbrev sealed : HandoffCapsule → HandoffCapsule
  sealed c = record c { fingerprint = expected_fingerprint t c }

  sealed-validate :
      (c : HandoffCapsule)
      → t.resolve c.repository_path ≡ some c.repository_path
      → has_bounded_fields t (sealed c) ≡ true
      → validate t (sealed c) ≡ some (sealed c)
  unfolding validate verify_path
  sealed-validate c r b = ground (arith, r, verify_fingerprint-fixed (sealed c) refl)

  -- Where no hash is over 64 characters or has the shape of a credential, and the path of a capsule
  -- is resolved already: an accepted capsule carries the hash of its other fields, is accepted
  -- again unchanged when it is read back, and is the capsule that was given unless that had no
  -- fingerprint.
  pub validate-validate :
      (c d : HandoffCapsule)
      → ((e : HandoffCapsule) → t.is_credential (t.digest e) ≡ false)
      → ((e : HandoffCapsule) → text_length (t.digest e) ≤ 64)
      → t.resolve c.repository_path ≡ some c.repository_path
      → validate t c ≡ some d
      → (validate t d ≡ some d)
        × (d.fingerprint ≡ expected_fingerprint t d)
        × ((c.fingerprint ≡ "") ⊎ (c ≡ d))
  unfolding expected_fingerprint
  validate-validate c d k b r h =
      let (f, e) = accepted c d r h in
      let (p, q) = verify_fingerprint-some c d e in
      let again : validate t (sealed c) ≡ some (sealed c) =
        sealed-validate c r (rechecked c (k _) (b _) f) in
      (
        subst (λ x. validate t x ≡ some x) (sym p) again,
        subst (λ x. x.fingerprint ≡ expected_fingerprint t x) (sym p) refl,
        elim q [
          | inl absent ↦ inl absent
          | inr present ↦
              inr (sym (p ∙ ap (λ (x : String). record c { fingerprint = x }) (sym present)))
        ],
      )
