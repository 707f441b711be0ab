-- ===== src/Supervisor/Compaction.antt =====
-- supervisor.py: how a compaction that the runtime announces cancels a drain
-- (`_release_drain_on_self_compaction`), and the consent to rotate (the gate of `_tick_unlocked`).
pub mod Consent
pub mod Sound
use agent_session_harness.Prelude.{
  ℕ, ◌+◌, ◌-◌, zero, suc, String, Bool, true, false, not, ◌&&◌, ◌||◌, Option, none, some, List, [],
  ◌∷◌, ◌++◌, any, length, is_nonempty, ltb, leb, ◌==◌, if◌then◌else◌, str_eq,
}
use agent_session_harness.Models.{
  Confidence, Quiescence, idle, ActivitySnapshot, LifecycleSignal, is_faulted,
}
use agent_session_harness.Supervisor.State.{
  Phase, running, draining, checkpointing, Settings, Snapshot, CompactionFields, clear_stop_request,
  rotation_effect, canceled_by_self_compaction,
}
use agent_session_harness.Supervisor.World.{World, answered}
use agent_session_harness.Supervisor.Exec.{
  M, choose, pure, get, ask, note, update, save, now, ◌>>=◌, ◌>>◌,
}
use agent_session_harness.Supervisor.Usage.{is_confident}

-- `SELF_COMPACTION_GRACE_SECONDS`, in microseconds.
abbrev pub self_compaction_grace : ℕ
self_compaction_grace = 30_000_000

abbrev pub lifecycle_identity_history_limit : ℕ
lifecycle_identity_history_limit = 64

unfoldable pub contains : String → List String → Bool
contains x xs = any (str_eq x) xs

-- `tuple(dict.fromkeys(xs))`: the first occurrences, where `seen` has occurred before.
unfoldable pub first_occurrences : List String → List String → List String
first_occurrences seen [] = []
first_occurrences seen (x ∷ xs) =
    let rest = first_occurrences (x ∷ seen) xs in if contains x seen then rest else x ∷ rest

drop : ℕ → List String → List String
drop zero xs = xs
drop (suc n) [] = []
drop (suc n) (x ∷ xs) = drop n xs

-- `_remember_lifecycle_identities`
unfoldable pub remember_lifecycle_identities : List String → List String → List String
unfolding drop
remember_lifecycle_identities existing new =
    let remembered = first_occurrences [] (existing ++ new) in
    drop (length remembered - lifecycle_identity_history_limit) remembered

unfoldable pub is_named : String → Option String → Bool
is_named x none = false
is_named x (some y) = str_eq x y

-- A signal of the exact managed conversation.
unfoldable pub is_managed : Snapshot → LifecycleSignal → Bool
is_managed s signal =
    signal.generation == s.generation && is_named signal.conversation_id s.conversation_id

later : Option LifecycleSignal → Option LifecycleSignal → Option LifecycleSignal
later (some x) earlier = some x
later none earlier = earlier

-- `_latest_managed_signal`
unfoldable pub latest_managed_signal : Snapshot → List LifecycleSignal → Option LifecycleSignal
unfolding later
latest_managed_signal s [] = none
latest_managed_signal s (x ∷ xs) =
    later (latest_managed_signal s xs) (if is_managed s x then some x else none)

unfoldable pub identity_of : Option LifecycleSignal → Option String
identity_of none = none
identity_of (some signal) = some signal.event_id

identities_of : Option LifecycleSignal → List String
identities_of none = []
identities_of (some signal) = signal.event_id ∷ []

managed_identities : Snapshot → List LifecycleSignal → List String
managed_identities s [] = []
managed_identities s (x ∷ xs) =
    let rest = managed_identities s xs in if is_managed s x then x.event_id ∷ rest else rest

is_unconsumed : CompactionFields → Option LifecycleSignal → Bool
is_unconsumed c none = false
is_unconsumed c (some signal) = not (
    is_named signal.event_id c.pre_compact_consumed_identity
    || contains signal.event_id c.pre_compact_consumed_identities)

-- The early returns of `_release_drain_on_self_compaction`: whether it goes on.
unfoldable pub announces_compaction : Snapshot → ActivitySnapshot → Bool
unfolding is_unconsumed
announces_compaction s activity =
    if is_nonempty activity.pre_compact_signals
    then is_unconsumed s.compaction (latest_managed_signal s activity.pre_compact_signals)
    else any (λ g. s.generation == g) activity.pre_compact_generations
      && ltb s.compaction.pre_compact_consumed activity.pre_compact_seen

-- The updates of every compaction.
unfoldable pub consume : ActivitySnapshot → Snapshot → Snapshot
unfolding identity_of identities_of
consume activity s =
    let signal = latest_managed_signal s activity.pre_compact_signals in
    record s {
      compaction = record s.compaction {
        pre_compact_consumed = activity.pre_compact_seen;
        pre_compact_consumed_identity = identity_of signal;
        pre_compact_consumed_identities =
            remember_lifecycle_identities s.compaction.pre_compact_consumed_identities
              (identities_of signal);
      };
    }

-- The updates of one that is announced while draining.
unfoldable pub release : ActivitySnapshot → ℕ → Snapshot → Snapshot
unfolding identity_of managed_identities
release activity at s =
    let consumed = consume activity s in
    record consumed {
      phase = running;
      warning_emitted = false;
      compaction = record consumed.compaction {
        self_compaction_pending = true;
        self_compaction_pending_until = some (at + self_compaction_grace);
        handoff_consent_invalidated_at = activity.handoff_requested_seen;
        handoff_consent_invalidated_identity =
            identity_of (latest_managed_signal s activity.handoff_requested_signals);
        handoff_consent_invalidated_identities =
            remember_lifecycle_identities s.compaction.handoff_consent_invalidated_identities
              (managed_identities s activity.handoff_requested_signals);
      };
    }

unfoldable pub is_draining : Phase → Bool
is_draining draining = true
is_draining _ = false

-- `_release_drain_on_self_compaction`
unfoldable pub release_drain_on_self_compaction : World → ActivitySnapshot → M (Unit {0})
release_drain_on_self_compaction w activity = do
  s ← get
  choose (announces_compaction s.snapshot activity)
      (choose (is_draining s.snapshot.phase)
        (do
          at ← now w
          update (release activity at)
          save
          ask clear_stop_request (λ t. answered tt)
          note rotation_effect canceled_by_self_compaction s.snapshot.generation)
        (do update (consume activity); save))
      (pure tt)

is_stale_handoff : CompactionFields → Option LifecycleSignal → Bool
is_stale_handoff c none = true
is_stale_handoff c (some handoff) =
    is_named handoff.event_id c.handoff_consent_invalidated_identity
    || contains handoff.event_id c.handoff_consent_invalidated_identities

-- `handoff_missing_or_stale` of `_tick_unlocked`
unfoldable pub handoff_missing_or_stale : Snapshot → ActivitySnapshot → Bool
unfolding is_stale_handoff
handoff_missing_or_stale s activity =
    if is_nonempty activity.handoff_requested_signals
    then is_stale_handoff s.compaction (latest_managed_signal s activity.handoff_requested_signals)
    else not (any (λ g. s.generation == g) activity.handoff_requested_generations)
      || leb activity.handoff_requested_seen s.compaction.handoff_consent_invalidated_at

unfoldable pub is_idle : Quiescence → Bool
is_idle idle = true
is_idle _ = false

-- The gates that a draining session passes before its checkpoint.
unfoldable pub may_rotate : Settings → Snapshot → ActivitySnapshot → Bool
may_rotate settings s activity =
    not (handoff_missing_or_stale s activity || not (is_idle activity.quiescence))
    && not (is_faulted activity.runtime_liveness)
    && not (
        not (is_confident s.usage.context_confidence)
        && ltb s.usage.non_confident_sample_streak settings.non_confident_rotation_tolerance_ticks)
