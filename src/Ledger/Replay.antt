-- ===== src/Ledger/Replay.antt =====
-- ledger.py: repeated events, and the end of a turn.
use agent_session_harness.Prelude.{
  ℕ, ◌≡◌, refl, ap, ◌∙◌, String, Bool, true, false, ◌||◌, List, [], ◌∷◌, ◌++◌, any, arith,
  Bool-cases, inl, inr, Every, str_eq, eq_iff,
}
use mathlib.Core.List.{append-nil}
use agent_session_harness.Models.{turn_idle, turn}
use agent_session_harness.Events.{LifecycleEvent}
use agent_session_harness.Ledger.{
  Fold, IntegrityWarning, materialize, fold_events, initial_fold, handle_event, snapshot_of, stamp,
  apply_event, finish_activity, reap_tools, activity_key,
}
use agent_session_harness.Ledger.Counters.{Counter, keys}
use agent_session_harness.Ledger.Outstanding.{seen-handle, handle-repeat}
use agent_session_harness.Ledger.Classification.{fold-append}

-- Some event of the list has this id.
abbrev pub has_id : String → List LifecycleEvent → Bool
has_id id = any λ e. str_eq id e.event_id

or_assoc : (a b c : Bool) → (a || (b || c)) ≡ ((b || a) || c)
or_assoc a b c = ground arith

seen-fold :
    (id : String) (es : List LifecycleEvent) (f : Fold)
    → any (str_eq id) (fold_events f es).seen ≡ (any (str_eq id) f.seen || has_id id es)
unfolding fold_events
seen-fold id [] f = ground arith
seen-fold id (e ∷ es) f = elim (Bool-cases (any (str_eq e.event_id) f.seen)) [
  | inl old ↦ ground (arith, seen-fold id es f, handle-repeat f e old, eq_iff id e.event_id)
  | inr new ↦ ground (arith, seen-fold id es (handle_event f e), seen-handle f e new)
]

absorb :
    (dup : List LifecycleEvent) (f : Fold)
    → Every (λ (e : LifecycleEvent). any (str_eq e.event_id) f.seen ≡ true) dup
    → fold_events f dup ≡ f
unfolding fold_events
absorb [] f h = refl
absorb (e ∷ dup) f h =
    ap (λ (g : Fold). fold_events g dup) (handle-repeat f e h.0) ∙ absorb dup f h.1

known :
    (es dup : List LifecycleEvent) (f : Fold)
    → Every (λ (e : LifecycleEvent). has_id e.event_id es ≡ true) dup
    → Every (λ (e : LifecycleEvent). any (str_eq e.event_id) (fold_events f es).seen ≡ true) dup
known es [] f h = tt
known es (e ∷ dup) f h = (ground (arith, seen-fold e.event_id es f, h.0), known es dup f h.1)

-- Delivering events again, in any number and order, changes nothing of the snapshot, provided
-- that each carries the id of an event that was delivered before.
pub materialize-replay :
    (es dup : List LifecycleEvent) (ws : List IntegrityWarning) (now stale : ℕ)
    → Every (λ (e : LifecycleEvent). has_id e.event_id es ≡ true) dup
    → materialize (es ++ dup) ws now stale ≡ materialize es ws now stale
unfolding materialize
materialize-replay es dup ws now stale h =
    ap (λ (f : Fold). snapshot_of f now stale)
      (fold-append (initial_fold ws) es dup
        ∙ absorb dup (fold_events (initial_fold ws) es) (known es dup (initial_fold ws) h))

reap_lem :
    (f : Fold) (tools : Counter)
    → f.tools ≡ tools
    → ((reap_tools f).tools ≡ []) × ((reap_tools f).reaped_tools ≡ f.reaped_tools ++ keys f.tools)
unfolding reap_tools
reap_lem f [] e = ground (arith, append-nil f.reaped_tools)
reap_lem f (x ∷ rest) e = ground arith

finish-tools :
    (k : String) (t : ℕ) (f : Fold)
    → ((finish_activity turn k t f).tools ≡ f.tools)
      × ((finish_activity turn k t f).reaped_tools ≡ f.reaped_tools)
unfolding finish_activity
finish-tools k t f = ground arith

handle-turn_idle :
    (f : Fold) (e : LifecycleEvent)
    → e.event_type ≡ turn_idle
    → any (str_eq e.event_id) f.seen ≡ false
    → ((handle_event f e).tools ≡ [])
      × ((handle_event f e).reaped_tools ≡ f.reaped_tools ++ keys f.tools)
unfolding handle_event apply_event stamp
handle-turn_idle f e idles new =
    let finished = finish_activity turn (activity_key e.activity_id) e.timestamp (stamp e f) in
    ground (
      arith,
      reap_lem finished finished.tools refl,
      finish-tools (activity_key e.activity_id) e.timestamp (stamp e f),
    )

-- When a turn ends, no tool is left active: each tool that was still active is reported as
-- reaped, and the events' other reports of reaped tools are kept. The event must be a new one.
pub materialize-turn_idle :
    (es : List LifecycleEvent) (e : LifecycleEvent) (ws : List IntegrityWarning) (now stale : ℕ)
    → e.event_type ≡ turn_idle
    → has_id e.event_id es ≡ false
    → ((materialize (es ++ e ∷ []) ws now stale).active_tool_ids ≡ [])
      × ((materialize (es ++ e ∷ []) ws now stale).reaped_tool_ids
          ≡ (materialize es ws now stale).reaped_tool_ids
            ++ (materialize es ws now stale).active_tool_ids)
unfolding materialize
materialize-turn_idle es e ws now stale idles new =
    let f = fold_events (initial_fold ws) es in
    let (cleared, reaped) =
      handle-turn_idle f e idles (seen-fold e.event_id es (initial_fold ws) ∙ new) in
    rw fold-append (ap keys cleared, reaped)
