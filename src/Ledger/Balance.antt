-- ===== src/Ledger/Balance.antt =====
-- ledger.py: the truth value of the counters of `materialize`.
use agent_session_harness.Prelude.{
  ℕ, ◌+◌, ◌-◌, ◌≡◌, ◌↔◌, String, false, List, [], ◌∷◌, any, arith, str_eq, Bool-cases, inl, inr,
  ◌∙◌, ap, sym,
}
use agent_session_harness.Models.{
  EventType, Activity, turn, tool, subagent, critical_section, turn_idle, turn_started,
  tool_started, subagent_started, critical_entered, tool_finished, tool_failed, subagent_finished,
  critical_exited,
}
use agent_session_harness.Events.{LifecycleEvent}
use agent_session_harness.Ledger.Counters.{
  get, IsPositive, put-IsPositive, remove-IsPositive, empty-of_zero, zero-of_empty,
}
use agent_session_harness.Ledger.{
  Fold, group, activity_key, handle_event, fold_events, stamp, apply_event, has_active,
  initial_fold, IntegrityWarning, start_activity, finish_activity, reap_tools, set_group,
}
use agent_session_harness.Ledger.Outstanding.{outstanding, unseen, fold-get, stamp-group}

-- No counter of a fold holds a key with the count 0.
pub record IsBalanced (f : Fold) : Type 0 where
  pub positive : (a : Activity) → IsPositive (group a f)

start-IsBalanced :
    (b : Activity) (j : String) (f : Fold) → IsBalanced f → IsBalanced (start_activity b j f)
unfolding start_activity group set_group
start-IsBalanced b j f h = record {
  positive =
      λ a. ground (arith, h.positive a, put-IsPositive j (get (group b f) j + 1) (group b f));
}

finish-IsBalanced :
    (b : Activity) (j : String) (t : ℕ) (f : Fold)
    → IsBalanced f
    → IsBalanced (finish_activity b j t f)
unfolding finish_activity group set_group
finish-IsBalanced b j t f h = record {
  positive = λ a. ground (
    arith,
    h.positive a,
    h.positive b,
    put-IsPositive j (get (group b f) j - 1) (group b f),
    remove-IsPositive j (group b f),
  );
}

reap-IsBalanced : (f : Fold) → IsBalanced f → IsBalanced (reap_tools f)
unfolding reap_tools group
reap-IsBalanced f h = record { positive = λ a. ground (arith, h.positive a) }

apply-IsBalanced :
    (e : LifecycleEvent) (t : EventType) (f : Fold) → IsBalanced f → IsBalanced (apply_event e t f)
unfolding apply_event group
apply-IsBalanced e turn_started f h = start-IsBalanced turn (activity_key e.activity_id) f h
apply-IsBalanced e tool_started f h = start-IsBalanced tool (activity_key e.activity_id) f h
apply-IsBalanced e subagent_started f h = start-IsBalanced subagent (activity_key e.activity_id) f h
apply-IsBalanced e critical_entered f h =
    start-IsBalanced critical_section (activity_key e.activity_id) f h
apply-IsBalanced e turn_idle f h =
    reap-IsBalanced (finish_activity turn (activity_key e.activity_id) e.timestamp f)
      (finish-IsBalanced turn (activity_key e.activity_id) e.timestamp f h)
apply-IsBalanced e tool_finished f h =
    finish-IsBalanced tool (activity_key e.activity_id) e.timestamp f h
apply-IsBalanced e tool_failed f h =
    finish-IsBalanced tool (activity_key e.activity_id) e.timestamp f h
apply-IsBalanced e subagent_finished f h =
    finish-IsBalanced subagent (activity_key e.activity_id) e.timestamp f h
apply-IsBalanced e critical_exited f h =
    finish-IsBalanced critical_section (activity_key e.activity_id) e.timestamp f h
apply-IsBalanced e _ f h = record { positive = λ a. ground (arith, h.positive a) }

handle-IsBalanced : (f : Fold) (e : LifecycleEvent) → IsBalanced f → IsBalanced (handle_event f e)
unfolding handle_event
handle-IsBalanced f e h = elim (Bool-cases (any (str_eq e.event_id) f.seen)) [
  | inl old ↦ rw (old, handle_event) h
  | inr new ↦
      rw (new, handle_event)
        (apply-IsBalanced e e.event_type (stamp e f)
          (record { positive = λ a. rw (stamp-group a e f) (h.positive a) }))
]

fold-IsBalanced :
    (es : List LifecycleEvent) (f : Fold) → IsBalanced f → IsBalanced (fold_events f es)
unfolding fold_events
fold-IsBalanced [] f h = h
fold-IsBalanced (e ∷ es) f h = fold-IsBalanced es (handle_event f e) (handle-IsBalanced f e h)

-- `any(active_groups)` is false exactly when nothing is counted at any key.
has_active-of_zero :
    (f : Fold)
    → IsBalanced f
    → ((a : Activity) (k : String) → get (group a f) k ≡ 0)
    → has_active f ≡ false
unfolding has_active group
has_active-of_zero f h z = ground (
  arith,
  empty-of_zero f.turns (h.positive turn) (z turn),
  empty-of_zero f.tools (h.positive tool) (z tool),
  empty-of_zero f.subagents (h.positive subagent) (z subagent),
  empty-of_zero f.critical_sections (h.positive critical_section) (z critical_section),
)

zero-of_inactive :
    (f : Fold) (a : Activity) (k : String) → has_active f ≡ false → get (group a f) k ≡ 0
unfolding has_active group
zero-of_inactive f a k h = ground (
  arith,
  zero-of_empty f.turns k,
  zero-of_empty f.tools k,
  zero-of_empty f.subagents k,
  zero-of_empty f.critical_sections k,
)

-- Nothing is outstanding after these events, for any activity and key.
abbrev pub IsQuiet : List LifecycleEvent → Type 0
IsQuiet es = (a : Activity) (k : String) → outstanding a k 0 (unseen [] es) ≡ 0

initial-IsBalanced : (ws : List IntegrityWarning) → IsBalanced (initial_fold ws)
unfolding group
initial-IsBalanced ws = record { positive = λ a. ground arith }

initial-get :
    (ws : List IntegrityWarning) (a : Activity) (k : String) → get (group a (initial_fold ws)) k ≡ 0
unfolding group get
initial-get ws a k = ground arith

-- The fold of a whole ledger counts exactly what is outstanding.
pub ledger-get :
    (ws : List IntegrityWarning) (es : List LifecycleEvent) (a : Activity) (k : String)
    → get (group a (fold_events (initial_fold ws) es)) k ≡ outstanding a k 0 (unseen [] es)
ledger-get ws es a k =
    fold-get a k es (initial_fold ws)
    ∙ ap (λ (n : ℕ). outstanding a k n (unseen [] es)) (initial-get ws a k)

pub has_active-IsQuiet :
    (ws : List IntegrityWarning) (es : List LifecycleEvent)
    → (has_active (fold_events (initial_fold ws) es) ≡ false) ↔ IsQuiet es
has_active-IsQuiet ws es = (
  λ h a k. sym (ledger-get ws es a k) ∙ zero-of_inactive (fold_events (initial_fold ws) es) a k h,
  λ q.
      has_active-of_zero (fold_events (initial_fold ws) es)
        (fold-IsBalanced es (initial_fold ws) (initial-IsBalanced ws))
        (λ a k. ledger-get ws es a k ∙ q a k),
)
