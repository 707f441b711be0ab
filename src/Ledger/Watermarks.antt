-- ===== src/Ledger/Watermarks.antt =====
-- The watermarks of a materialized ledger, by which its readers act once for each signal.
use agent_session_harness.Prelude.{
  ℕ, ◌+◌, ◌≤◌, ◌≡◌, refl, Bool, true, false, List, [], ◌∷◌, ◌++◌, any, arith, Bool-cases, inl, inr,
  str_eq, length, length-append, any-append, ◌==◌, ◌||◌,
}
use agent_session_harness.Models.{EventType, LifecycleSignal, handoff_requested, pre_compact}
use agent_session_harness.Events.{LifecycleEvent}
use agent_session_harness.Ledger.{
  Fold, IntegrityWarning, materialize, fold_events, initial_fold, handle_event, stamp, apply_event,
  finish_activity, start_activity, reap_tools, signal,
}
use agent_session_harness.Ledger.Classification.{fold-append}

-- The number and the generations of the signals kept.
pub record Tally (seen : ℕ) (generations : List ℕ) (signals : List LifecycleSignal) : Type 0 where
  pub counted : seen ≡ length signals
  pub grouped :
      (g : ℕ) → any (◌==◌ g) generations ≡ any (λ (s : LifecycleSignal). g == s.generation) signals

or_comm_false : (a b : Bool) → (a || b) ≡ (b || (a || false))
or_comm_false a b = ground arith

Tally-add :
    (seen : ℕ) (gs : List ℕ) (ss : List LifecycleSignal) (e : LifecycleEvent)
    → Tally seen gs ss
    → Tally (seen + 1) (e.generation ∷ gs) (ss ++ signal e ∷ [])
unfolding signal
Tally-add seen gs ss e h = record {
  counted = omega (arith, h.counted, length-append ss (signal e ∷ []));
  grouped = λ g. ground (
    arith,
    h.grouped g,
    any-append (λ (s : LifecycleSignal). g == s.generation) ss (signal e ∷ []),
  );
}

abbrev IsTallied : Fold → Type 0
IsTallied f =
    Tally f.handoff_requested_seen f.handoff_requested_generations f.handoff_requested_signals
    × Tally f.pre_compact_seen f.pre_compact_generations f.pre_compact_signals

-- The signals and their watermarks are the same.
record SameSignals (f g : Fold) : Type 0 where
  handoffs : g.handoff_requested_seen ≡ f.handoff_requested_seen
  handoff_generations : g.handoff_requested_generations ≡ f.handoff_requested_generations
  handoff_signals : g.handoff_requested_signals ≡ f.handoff_requested_signals
  compactions : g.pre_compact_seen ≡ f.pre_compact_seen
  compaction_generations : g.pre_compact_generations ≡ f.pre_compact_generations
  compaction_signals : g.pre_compact_signals ≡ f.pre_compact_signals

SameSignals-IsTallied : (f g : Fold) → SameSignals f g → IsTallied f → IsTallied g
SameSignals-IsTallied f g s h = (
  simp (s.handoffs, s.handoff_generations, s.handoff_signals) h.0,
  simp (s.compactions, s.compaction_generations, s.compaction_signals) h.1,
)

abbrev is_signal : EventType → Bool
is_signal handoff_requested = true
is_signal pre_compact = true
is_signal _ = false

apply-SameSignals :
    (e : LifecycleEvent) (t : EventType) (f : Fold)
    → is_signal t ≡ false
    → SameSignals f (apply_event e t f)
unfolding apply_event start_activity finish_activity reap_tools
apply-SameSignals e t f h = ground arith

apply-IsTallied :
    (e : LifecycleEvent) (t : EventType) (f : Fold) → IsTallied f → IsTallied (apply_event e t f)
unfolding apply_event
apply-IsTallied e handoff_requested f h = (Tally-add _ _ _ e h.0, h.1)
apply-IsTallied e pre_compact f h = (h.0, Tally-add _ _ _ e h.1)
apply-IsTallied e t f h =
    SameSignals-IsTallied f (apply_event e t f) (apply-SameSignals e t f refl) h

handle-IsTallied : (f : Fold) (e : LifecycleEvent) → IsTallied f → IsTallied (handle_event f e)
unfolding handle_event
handle-IsTallied f e h = elim (Bool-cases (any (str_eq e.event_id) f.seen)) [
  | inl old ↦ rw (old, handle_event) h
  | inr new ↦
      rw (new, handle_event) (apply-IsTallied e e.event_type (stamp e f) (unfold stamp in h))
]

fold-IsTallied : (es : List LifecycleEvent) (f : Fold) → IsTallied f → IsTallied (fold_events f es)
unfolding fold_events
fold-IsTallied [] f h = h
fold-IsTallied (e ∷ es) f h = fold-IsTallied es (handle_event f e) (handle-IsTallied f e h)

-- Both watermarks count the signals kept, and a generation is in the set of generations exactly
-- when a kept signal has it; this for handoff requests and for compactions.
pub materialize-Tally :
    (es : List LifecycleEvent) (ws : List IntegrityWarning) (now stale : ℕ)
    → let a = materialize es ws now stale in
      Tally a.handoff_requested_seen a.handoff_requested_generations a.handoff_requested_signals
      × Tally a.pre_compact_seen a.pre_compact_generations a.pre_compact_signals
unfolding materialize
materialize-Tally es ws now stale = fold-IsTallied es (initial_fold ws) (
  record { counted = omega arith; grouped = λ g. refl },
  record { counted = omega arith; grouped = λ g. refl },
)

handle-grows :
    (f : Fold) (e : LifecycleEvent)
    → (f.pre_compact_seen ≤ (handle_event f e).pre_compact_seen)
      × (f.handoff_requested_seen ≤ (handle_event f e).handoff_requested_seen)
unfolding handle_event apply_event stamp start_activity finish_activity reap_tools
handle-grows f e = ground arith

fold-grows :
    (es : List LifecycleEvent) (f : Fold)
    → (f.pre_compact_seen ≤ (fold_events f es).pre_compact_seen)
      × (f.handoff_requested_seen ≤ (fold_events f es).handoff_requested_seen)
unfolding fold_events
fold-grows [] f = omega arith
fold-grows (e ∷ es) f = omega (arith, handle-grows f e, fold-grows es (handle_event f e))

-- The watermarks never fall as the ledger grows, whenever the two reads happen.
watermarks_grow :
    (es more : List LifecycleEvent) (ws : List IntegrityWarning) (now later stale : ℕ)
    → let before = materialize es ws now stale in
      let after = materialize (es ++ more) ws later stale in
      (before.pre_compact_seen ≤ after.pre_compact_seen)
      × (before.handoff_requested_seen ≤ after.handoff_requested_seen)
unfolding materialize
watermarks_grow es more ws now later stale =
    rw fold-append (fold-grows more (fold_events (initial_fold ws) es))
