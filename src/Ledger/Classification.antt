-- ===== src/Ledger/Classification.antt =====
-- The two classifications of a materialized ledger: quiescence, and the runtime's liveness.
use agent_session_harness.Prelude.{
  ℕ, ◌+◌, ◌≤◌, ◌≡◌, ◌↔◌, refl, sym, Bool, true, false, Option, none, some, List, [], ◌∷◌, ◌++◌, any,
  arith, Bool-cases, inl, inr, Every, str_eq, ap, if◌then◌else◌, ◌∙◌,
}
use agent_session_harness.Models.{Quiescence, RuntimeLiveness, EventType}
use agent_session_harness.Events.{LifecycleEvent}
use agent_session_harness.Ledger.{
  Fold, IntegrityWarning, gates, materialize, fold_events, initial_fold, has_active, handle_event,
  is_supervisor_authored, snapshot_of, stamp, apply_event, finish_activity, start_activity,
  reap_tools, latest,
}
use agent_session_harness.Ledger.Outstanding.{unseen, seen-handle, handle-repeat}
use agent_session_harness.Ledger.Balance.{IsQuiet, has_active-IsQuiet}

true_of_not-false : (b : Bool) → (b ≡ false → ⊥) → b ≡ true
true_of_not-false true h = refl
true_of_not-false false h = absurd (h refl)

-- A timestamp that lies neither in the future nor more than the staleness window in the past.
abbrev pub IsFresh : Option ℕ → ℕ → ℕ → Type 0
IsFresh none now stale = ⊥
IsFresh (some t) now stale = (t ≤ now) × (now ≤ t + stale)

-- No warning gates and the newest event is fresh.
abbrev pub IsTrusted : Fold → ℕ → ℕ → Type 0
IsTrusted f now stale =
    (any (gates now stale) f.warnings ≡ false) × IsFresh f.last_event_at now stale

quiescence-idle :
    (f : Fold) (now stale : ℕ)
    → ((snapshot_of f now stale).quiescence ≡ Quiescence.idle)
      ↔ (IsTrusted f now stale × (has_active f ≡ false))
unfolding snapshot_of
quiescence-idle f now stale = (λ h. ground arith, λ h. ground arith)

quiescence-busy :
    (f : Fold) (now stale : ℕ)
    → ((snapshot_of f now stale).quiescence ≡ Quiescence.busy)
      ↔ (IsTrusted f now stale × (has_active f ≡ true))
unfolding snapshot_of
quiescence-busy f now stale = (λ h. ground arith, λ h. ground arith)

-- A materialized ledger is idle exactly when no warning gates, the newest event is fresh, and
-- nothing that an event started is outstanding; it is busy exactly when the same trust holds and
-- something is outstanding. In every other case it is therefore unknown.
pub materialize-quiescence :
    (es : List LifecycleEvent) (ws : List IntegrityWarning) (now stale : ℕ)
    → let f = fold_events (initial_fold ws) es in
      (((materialize es ws now stale).quiescence ≡ Quiescence.idle)
        ↔ (IsTrusted f now stale × IsQuiet es))
      × (((materialize es ws now stale).quiescence ≡ Quiescence.busy)
          ↔ (IsTrusted f now stale × ((IsQuiet es) → ⊥)))
unfolding materialize
materialize-quiescence es ws now stale =
    let f = fold_events (initial_fold ws) es in
    let idles = quiescence-idle f now stale in
    let busies = quiescence-busy f now stale in
    let quiet = has_active-IsQuiet ws es in
    (
      (λ h. ((idles.0 h).0, quiet.0 (idles.0 h).1), λ h. idles.1 (h.0, quiet.1 h.1)),
      (
        λ h. ((busies.0 h).0, λ q. cc (quiet.1 q, (busies.0 h).1)),
        λ h. busies.1 (h.0, true_of_not-false _ (λ e. h.1 (quiet.0 e))),
      ),
    )

-- The event adds nothing to what is outstanding, and is no sign of the runtime's hooks.
supervisor-handle :
    (f : Fold) (e : LifecycleEvent)
    → is_supervisor_authored e.event_type ≡ true
    → (has_active (handle_event f e) ≡ has_active f)
      × ((handle_event f e).last_hook_event_at ≡ f.last_hook_event_at)
unfolding handle_event apply_event stamp has_active
supervisor-handle f e h = ground arith

pub fold-append :
    (f : Fold) (xs ys : List LifecycleEvent)
    → fold_events f (xs ++ ys) ≡ fold_events (fold_events f xs) ys
unfolding fold_events
fold-append f [] ys = refl
fold-append f (x ∷ xs) ys = fold-append (handle_event f x) xs ys

silent :
    (es : List LifecycleEvent) (f : Fold)
    → Every (λ (e : LifecycleEvent). is_supervisor_authored e.event_type ≡ true) es
    → f.last_hook_event_at ≡ none
    → (fold_events f es).last_hook_event_at ≡ none
unfolding fold_events
silent [] f h n = n
silent (e ∷ es) f h n = silent es (handle_event f e) h.1 ((supervisor-handle f e h.0).1 ∙ n)

-- Events that the supervisor writes itself never change the verdict on the runtime's liveness.
pub liveness-supervisor :
    (es : List LifecycleEvent) (e : LifecycleEvent) (ws : List IntegrityWarning) (now stale : ℕ)
    → is_supervisor_authored e.event_type ≡ true
    → (materialize (es ++ e ∷ []) ws now stale).runtime_liveness
      ≡ (materialize es ws now stale).runtime_liveness
unfolding materialize
liveness-supervisor es e ws now stale h = ground (
  arith,
  fold-append (initial_fold ws) es (e ∷ []),
  supervisor-handle (fold_events (initial_fold ws) es) e h,
)

-- A ledger in which every event is the supervisor's own reads as one whose hooks never reported,
-- at every time and whatever else the events say.
liveness-never :
    (es : List LifecycleEvent) (ws : List IntegrityWarning) (now stale : ℕ)
    → Every (λ (e : LifecycleEvent). is_supervisor_authored e.event_type ≡ true) es
    → (materialize es ws now stale).runtime_liveness ≡ RuntimeLiveness.never_reported
unfolding materialize
liveness-never es ws now stale h = ground (arith, silent es (initial_fold ws) h refl)

-- The newest timestamp among the events that the runtime's hooks wrote.
last_hook : Option ℕ → List LifecycleEvent → Option ℕ
last_hook at [] = at
last_hook at (e ∷ es) =
    last_hook (if is_supervisor_authored e.event_type then at else latest at e.timestamp) es

hook-apply :
    (e : LifecycleEvent) (t : EventType) (f : Fold)
    → (apply_event e t f).last_hook_event_at ≡ f.last_hook_event_at
unfolding apply_event start_activity finish_activity reap_tools
hook-apply e t f = ground arith

hook-handle :
    (f : Fold) (e : LifecycleEvent)
    → any (str_eq e.event_id) f.seen ≡ false
    → (handle_event f e).last_hook_event_at ≡ (
        if is_supervisor_authored e.event_type
        then f.last_hook_event_at
        else latest f.last_hook_event_at e.timestamp)
unfolding handle_event
hook-handle f e h =
    rw (h, handle_event) (hook-apply e e.event_type (stamp e f) ∙ unfold stamp in refl)

hook-fold :
    (es : List LifecycleEvent) (f : Fold)
    → (fold_events f es).last_hook_event_at ≡ last_hook f.last_hook_event_at (unseen f.seen es)
unfolding fold_events last_hook unseen
hook-fold [] f = refl
hook-fold (e ∷ es) f = elim (Bool-cases (any (str_eq e.event_id) f.seen)) [
  | inl old ↦
      rw (old, unseen)
        (ap (λ (g : Fold). (fold_events g es).last_hook_event_at) (handle-repeat f e old)
          ∙ hook-fold es f)
  | inr new ↦
      rw (new, unseen)
        (hook-fold es (handle_event f e) ∙ rw (hook-handle f e new, seen-handle f e new))
]

same_Bool : (b c : Bool) → (b ≡ false → c ≡ false) → (c ≡ false → b ≡ false) → b ≡ c
same_Bool true true f g = refl
same_Bool true false f g = g refl
same_Bool false true f g = sym (f refl)
same_Bool false false f g = refl

-- The verdict never looks at the integrity warnings: a finding cannot pose as a dead hook.
liveness-warnings :
    (es : List LifecycleEvent) (ws vs : List IntegrityWarning) (now stale : ℕ)
    → (materialize es ws now stale).runtime_liveness
      ≡ (materialize es vs now stale).runtime_liveness
unfolding materialize
liveness-warnings es ws vs now stale = rw (
  hook-fold es (initial_fold ws),
  hook-fold es (initial_fold vs),
  same_Bool (has_active (fold_events (initial_fold ws) es))
      (has_active (fold_events (initial_fold vs) es))
      (λ h. (has_active-IsQuiet vs es).1 ((has_active-IsQuiet ws es).0 h))
      (λ h. (has_active-IsQuiet ws es).1 ((has_active-IsQuiet vs es).0 h)),
)
