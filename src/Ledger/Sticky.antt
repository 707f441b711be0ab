-- ===== src/Ledger/Sticky.antt =====
-- How long a warning keeps a materialized ledger from being trusted.
use agent_session_harness.Prelude.{
  ℕ, ◌+◌, ◌≤◌, ◌≡◌, ◌↔◌, ◌⊎◌, Bool, true, false, String, List, [], ◌∷◌, any, any-append, arith,
}
use agent_session_harness.Models.{
  Activity, turn, tool, subagent, critical_section, Quiescence, finish_without_start,
}
use agent_session_harness.Events.{LifecycleEvent}
use agent_session_harness.Ledger.{
  IntegrityWarning, materialize, gates, Fold, fold_events, handle_event, initial_fold, apply_event,
  stamp, start_activity, finish_activity, reap_tools, activity_key,
}

module _ (p : IntegrityWarning → Bool) where
  finish-any :
      (a : Activity) (k : String) (t : ℕ) (f : Fold)
      → any p f.warnings ≡ true
      → any p (finish_activity a k t f).warnings ≡ true
  unfolding finish_activity
  finish-any a k t f h = ground (
    arith,
    any-append p f.warnings
        (record { message = finish_without_start a k; observed_at = t; sticky = false } ∷ []),
  )

  handle-any :
      (e : LifecycleEvent) (f : Fold)
      → any p f.warnings ≡ true
      → any p (handle_event f e).warnings ≡ true
  unfolding handle_event apply_event stamp start_activity reap_tools
  handle-any e f h = ground (
    arith,
    finish-any turn (activity_key e.activity_id) e.timestamp (stamp e f),
    finish-any tool (activity_key e.activity_id) e.timestamp (stamp e f),
    finish-any subagent (activity_key e.activity_id) e.timestamp (stamp e f),
    finish-any critical_section (activity_key e.activity_id) e.timestamp (stamp e f),
  )

  fold-any :
      (es : List LifecycleEvent) (f : Fold)
      → any p f.warnings ≡ true
      → any p (fold_events f es).warnings ≡ true
  unfolding fold_events
  fold-any [] f h = h
  fold-any (e ∷ es) f h = fold-any es (handle_event f e) (handle-any e f h)

-- A cached warning that gates keeps the ledger from reading as idle or busy, whatever the events.
pub materialize-unknown :
    (es : List LifecycleEvent) (ws : List IntegrityWarning) (now stale : ℕ)
    → any (gates now stale) ws ≡ true
    → (materialize es ws now stale).quiescence ≡ Quiescence.unknown
unfolding materialize
materialize-unknown es ws now stale h =
    ground (arith, fold-any (gates now stale) es (initial_fold ws) h)

-- A sticky warning gates at every time; any other gates from its observation until exactly the
-- staleness window has passed.
gates_iff :
    (w : IntegrityWarning) (now stale : ℕ)
    → (gates now stale w ≡ true) ↔ ((w.sticky ≡ true) ⊎ (now ≤ w.observed_at + stale))
unfolding gates
gates_iff w now stale = (λ h. ground arith, λ h. ground arith)
