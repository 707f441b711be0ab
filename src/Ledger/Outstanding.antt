-- ===== src/Ledger/Outstanding.antt =====
-- The counters of the fold against what is outstanding, counted for one key over the events.
use agent_session_harness.Prelude.{
  ℕ, ◌+◌, ◌-◌, ◌≡◌, refl, String, Bool, true, false, Option, none, some, List, [], ◌∷◌, any, arith,
  str_eq, eq_iff, Bool-cases, inl, inr, if◌then◌else◌, ◌&&◌, ◌∙◌, ap,
}
use agent_session_harness.Models.{
  EventType, Activity, turn, tool, subagent, critical_section, turn_idle, turn_started,
  tool_started, subagent_started, critical_entered, tool_finished, tool_failed, subagent_finished,
  critical_exited,
}
use agent_session_harness.Events.{LifecycleEvent}
use agent_session_harness.Ledger.Counters.{Counter, get, get-put, get-remove, zero-of_empty}
use agent_session_harness.Ledger.{
  Fold, group, starts, finishes, activity_key, handle_event, fold_events, stamp, apply_event,
  start_activity, finish_activity, reap_tools,
}

unfoldable pub same_activity : Activity → Activity → Bool
same_activity turn turn = true
same_activity tool tool = true
same_activity subagent subagent = true
same_activity critical_section critical_section = true
same_activity _ _ = false

-- Is an event with the key `j` about the key `k` of the activity `a`, by a table of event types?
unfoldable pub concerns : Option Activity → String → Activity → String → Bool
unfolding same_activity
concerns none j a k = false
concerns (some b) j a k = same_activity b a && str_eq j k

unfoldable pub ends_tools : EventType → Activity → Bool
ends_tools turn_idle tool = true
ends_tools _ _ = false

-- The effect of an event of the type `t` with the key `j` on what is outstanding at the key `k`: a
-- start adds one, a finish takes one away if there is one, and the end of a turn ends every tool.
unfoldable pub step_outstanding : Activity → String → ℕ → EventType → String → ℕ
unfolding concerns starts finishes ends_tools
step_outstanding a k n t j =
    if ends_tools t a
    then 0
    else if concerns (starts t) j a k
    then n + 1
    else if concerns (finishes t) j a k
    then n - 1
    else n

-- The events that the loop does not skip.
unfoldable pub unseen : List String → List LifecycleEvent → List LifecycleEvent
unseen seen [] = []
unseen seen (e ∷ es) =
    if any (str_eq e.event_id) seen then unseen seen es else e ∷ unseen (e.event_id ∷ seen) es

unfoldable pub outstanding : Activity → String → ℕ → List LifecycleEvent → ℕ
outstanding a k n [] = n
outstanding a k n (e ∷ es) =
    outstanding a k (step_outstanding a k n e.event_type (activity_key e.activity_id)) es

start-get :
    (b a : Activity) (j k : String) (f : Fold)
    → get (group a (start_activity b j f)) k
      ≡ (if same_activity b a && str_eq j k then get (group a f) k + 1 else get (group a f) k)
unfolding start_activity same_activity
start-get b a j k f = ground (arith, eq_iff j k, get-put j k (get (group b f) j + 1) (group b f))

finish-get :
    (b a : Activity) (j k : String) (t : ℕ) (f : Fold)
    → get (group a (finish_activity b j t f)) k
      ≡ (if same_activity b a && str_eq j k then get (group a f) k - 1 else get (group a f) k)
unfolding finish_activity same_activity
finish-get b a j k t f =
    ground (
      arith,
      eq_iff j k,
      get-put j k (get (group b f) j - 1) (group b f),
      get-remove j k (group b f),
    )

reap-get :
    (a : Activity) (k : String) (f : Fold)
    → get (group a (reap_tools f)) k ≡ (if same_activity tool a then 0 else get (group a f) k)
unfolding reap_tools group get same_activity
reap-get turn k f = ground arith
reap-get subagent k f = ground arith
reap-get critical_section k f = ground arith
reap-get tool k f = ground (arith, zero-of_empty f.tools k)

pub stamp-group : (a : Activity) (e : LifecycleEvent) (f : Fold) → group a (stamp e f) ≡ group a f
unfolding stamp group
stamp-group a e f = ground arith

apply-get :
    (a : Activity) (k : String) (e : LifecycleEvent) (t : EventType) (f : Fold)
    → get (group a (apply_event e t f)) k
      ≡ step_outstanding a k (get (group a f) k) t (activity_key e.activity_id)
unfolding apply_event step_outstanding group
apply-get a k e turn_started f = start-get turn a (activity_key e.activity_id) k f
apply-get a k e tool_started f = start-get tool a (activity_key e.activity_id) k f
apply-get a k e subagent_started f = start-get subagent a (activity_key e.activity_id) k f
apply-get a k e critical_entered f = start-get critical_section a (activity_key e.activity_id) k f
apply-get a k e turn_idle f = ground (
  arith,
  reap-get a k (finish_activity turn (activity_key e.activity_id) e.timestamp f),
  finish-get turn a (activity_key e.activity_id) k e.timestamp f,
)
apply-get a k e tool_finished f = finish-get tool a (activity_key e.activity_id) k e.timestamp f
apply-get a k e tool_failed f = finish-get tool a (activity_key e.activity_id) k e.timestamp f
apply-get a k e subagent_finished f =
    finish-get subagent a (activity_key e.activity_id) k e.timestamp f
apply-get a k e critical_exited f =
    finish-get critical_section a (activity_key e.activity_id) k e.timestamp f
apply-get a k e _ f = ground arith

seen-finish :
    (b : Activity) (j : String) (t : ℕ) (f : Fold) → (finish_activity b j t f).seen ≡ f.seen
unfolding finish_activity
seen-finish b j t f = ground arith

seen-apply : (e : LifecycleEvent) (t : EventType) (f : Fold) → (apply_event e t f).seen ≡ f.seen
unfolding apply_event
seen-apply e turn_idle f =
    ground (arith, seen-finish turn (activity_key e.activity_id) e.timestamp f)
seen-apply e tool_finished f = seen-finish tool (activity_key e.activity_id) e.timestamp f
seen-apply e tool_failed f = seen-finish tool (activity_key e.activity_id) e.timestamp f
seen-apply e subagent_finished f = seen-finish subagent (activity_key e.activity_id) e.timestamp f
seen-apply e critical_exited f =
    seen-finish critical_section (activity_key e.activity_id) e.timestamp f
seen-apply e _ f = ground arith

-- An event that is not skipped is remembered by its id.
pub seen-handle :
    (f : Fold) (e : LifecycleEvent)
    → any (str_eq e.event_id) f.seen ≡ false
    → (handle_event f e).seen ≡ e.event_id ∷ f.seen
unfolding handle_event stamp
seen-handle f e h = ground (arith, seen-apply e e.event_type (stamp e f))

handle-get :
    (a : Activity) (k : String) (f : Fold) (e : LifecycleEvent)
    → any (str_eq e.event_id) f.seen ≡ false
    → get (group a (handle_event f e)) k
      ≡ step_outstanding a k (get (group a f) k) e.event_type (activity_key e.activity_id)
unfolding handle_event
handle-get a k f e h =
    rw (h, handle_event)
      (apply-get a k e e.event_type (stamp e f)
        ∙ ap
            (λ (c : Counter).
              step_outstanding a k (get c k) e.event_type (activity_key e.activity_id))
            (stamp-group a e f))

-- A repeated event changes nothing.
pub handle-repeat :
    (f : Fold) (e : LifecycleEvent) → any (str_eq e.event_id) f.seen ≡ true → handle_event f e ≡ f
unfolding handle_event
handle-repeat f e h = ground arith

-- The counters of the fold count what is outstanding over the events that are not repeats.
pub fold-get :
    (a : Activity) (k : String) (es : List LifecycleEvent) (f : Fold)
    → get (group a (fold_events f es)) k ≡ outstanding a k (get (group a f) k) (unseen f.seen es)
unfolding fold_events outstanding unseen
fold-get a k [] f = refl
fold-get a k (e ∷ es) f = elim (Bool-cases (any (str_eq e.event_id) f.seen)) [
  | inl old ↦ rw (old, unseen) (rw (handle-repeat f e old) (fold-get a k es f))
  | inr new ↦
      rw (new, unseen)
        (fold-get a k es (handle_event f e) ∙ rw (handle-get a k f e new, seen-handle f e new))
]
