-- ===== src/Ledger/Read/Retention.antt =====
-- Which warnings the cache retains.
use agent_session_harness.Prelude.{
  ℕ, ◌+◌, ◌≤◌, ◌<◌, ◌≡◌, refl, Bool, none, some, List, [], ◌∷◌, ◌++◌, length, length-append, arith,
  suc, if◌then◌else◌, Option-cases, ◌⊎◌, inl, inr,
}
use agent_session_harness.Models.{WarningText}
use agent_session_harness.Ledger.{IntegrityWarning}
use agent_session_harness.Ledger.Read.{
  refresh, drop_transient, drop_first, evict, record_warning, max_retained_warnings,
}

abbrev pub count_sticky : List IntegrityWarning → ℕ
count_sticky [] = 0
count_sticky (w ∷ ws) = if w.sticky then suc (count_sticky ws) else count_sticky ws

refresh_size :
    (text : WarningText) (now : ℕ) (sticky : Bool) (ws vs : List IntegrityWarning)
    → refresh text now sticky ws ≡ some vs
    → (length vs ≡ length ws) × (count_sticky ws ≤ count_sticky vs)
unfolding refresh
refresh_size text now sticky [] vs h = cc
refresh_size text now sticky (w ∷ ws) vs h = elim (Option-cases (refresh text now sticky ws)) [
  | inl e ↦ ground arith
  | inr (us, e) ↦ ground (arith, refresh_size text now sticky ws us e)
]

drop_transient-some :
    (ws vs : List IntegrityWarning)
    → drop_transient ws ≡ some vs
    → (length ws ≡ suc (length vs)) × (count_sticky vs ≡ count_sticky ws)
unfolding drop_transient
drop_transient-some [] vs h = cc
drop_transient-some (w ∷ ws) vs h = elim (Option-cases (drop_transient ws)) [
  | inl e ↦ ground arith
  | inr (us, e) ↦ ground (arith, drop_transient-some ws us e)
]

drop_transient-none :
    (ws : List IntegrityWarning) → drop_transient ws ≡ none → count_sticky ws ≡ length ws
unfolding drop_transient
drop_transient-none [] h = refl
drop_transient-none (w ∷ ws) h = elim (Option-cases (drop_transient ws)) [
  | inl e ↦ ground (arith, drop_transient-none ws e)
  | inr (us, e) ↦ ground arith
]

sticky-le-length : (ws : List IntegrityWarning) → count_sticky ws ≤ length ws
sticky-le-length [] = omega arith
sticky-le-length (w ∷ ws) = ground (arith, sticky-le-length ws)

-- One warning goes, and a sticky one only if all are.
evict_size :
    (ws : List IntegrityWarning)
    → 0 < length ws
    → (length ws ≡ suc (length (evict ws)))
      × ((count_sticky (evict ws) ≡ count_sticky ws)
          ⊎ ((count_sticky ws ≡ length ws) × (count_sticky ws ≡ suc (count_sticky (evict ws)))))
unfolding evict
evict_size ws h = elim (Option-cases (drop_transient ws)) [
  | inl e ↦ rw (e, evict) (all_sticky ws h (drop_transient-none ws e))
  | inr (vs, e) ↦ rw (e, evict) (ground (arith, drop_transient-some ws vs e))
]
  where
    all_sticky :
        (us : List IntegrityWarning)
        → 0 < length us
        → count_sticky us ≡ length us
        → (length us ≡ suc (length (drop_first us)))
          × ((count_sticky (drop_first us) ≡ count_sticky us)
              ⊎ ((count_sticky us ≡ length us)
                  × (count_sticky us ≡ suc (count_sticky (drop_first us)))))
    all_sticky [] k e = absurd (omega arith)
    all_sticky (u ∷ us) k e = ground (arith, sticky-le-length us)

count_sticky-append :
    (ws vs : List IntegrityWarning) → count_sticky (ws ++ vs) ≡ count_sticky ws + count_sticky vs
count_sticky-append [] vs = omega arith
count_sticky-append (w ∷ ws) vs = ground (arith, count_sticky-append ws vs)

-- Recording a warning keeps the cache within its limit, and the number of sticky warnings never
-- falls: to make room a transient one goes first.
pub record_warning_size :
    (text : WarningText) (now : ℕ) (sticky : Bool) (ws : List IntegrityWarning)
    → length ws ≤ max_retained_warnings
    → (length (record_warning text now sticky ws) ≤ max_retained_warnings)
      × (count_sticky ws ≤ count_sticky (record_warning text now sticky ws))
unfolding record_warning
record_warning_size text now sticky ws h = elim (Option-cases (refresh text now sticky ws)) [
  | inl e ↦
      let new : List IntegrityWarning =
        record { message = text; observed_at = now; sticky = sticky } ∷ [] in
      ground (
        arith,
        e,
        evict_size (ws ++ new),
        length-append ws new,
        count_sticky-append ws new,
        sticky-le-length ws,
      )
  | inr (vs, e) ↦ ground (arith, refresh_size text now sticky ws vs e)
]
