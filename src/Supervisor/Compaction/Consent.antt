-- ===== src/Supervisor/Compaction/Consent.antt =====
-- supervisor.py: the consumption of a self-compaction, and the consent to rotate around it.
use mathlib.Core.Path.{ap₂}
use agent_session_harness.Prelude.{
  ℕ, ◌≡◌, ◌≤◌, refl, String, true, false, ◌&&◌, Option, none, some, List, [], ◌∷◌, arith,
  if◌then◌else◌, ◌==◌, eq_iff, ap, sym, ◌∙◌,
}
use agent_session_harness.Models.{ActivitySnapshot, LifecycleSignal}
use agent_session_harness.Supervisor.State.{Snapshot, CompactionFields}
use agent_session_harness.Supervisor.Compaction.{
  is_named, is_managed, latest_managed_signal, identity_of, is_unconsumed, announces_compaction,
  consume, release, later,
}

named_self : (x : String) → is_named x (some x) ≡ true
unfolding is_named
named_self x = (eq_iff x x).1 refl

-- Only the generation and the conversation decide which signals are managed.
latest-same :
    (s t : Snapshot) (signals : List LifecycleSignal)
    → t.generation ≡ s.generation
    → t.conversation_id ≡ s.conversation_id
    → latest_managed_signal t signals ≡ latest_managed_signal s signals
unfolding latest_managed_signal is_managed
latest-same s t [] g c = refl
latest-same s t (x ∷ xs) g c =
    ap₂ later (latest-same s t xs g c)
      (ap₂ (λ n o. if x.generation == n && is_named x.conversation_id o then some x else none) g c)

consumed-lem :
    (c : CompactionFields) (signal : Option LifecycleSignal)
    → c.pre_compact_consumed_identity ≡ identity_of signal
    → is_unconsumed c signal ≡ false
unfolding is_unconsumed identity_of
consumed-lem c none e = refl
consumed-lem c (some signal) e =
    let named = ap (is_named signal.event_id) e ∙ named_self signal.event_id in ground arith

-- A compaction that was consumed is not announced again by the same events.
consume-once :
    (activity : ActivitySnapshot) (s t : Snapshot)
    → t.generation ≡ s.generation
    → t.conversation_id ≡ s.conversation_id
    → t.compaction.pre_compact_consumed ≡ activity.pre_compact_seen
    → t.compaction.pre_compact_consumed_identity
      ≡ identity_of (latest_managed_signal s activity.pre_compact_signals)
    → announces_compaction t activity ≡ false
unfolding announces_compaction
consume-once activity s t g c n e =
    let k =
      consumed-lem t.compaction (latest_managed_signal t activity.pre_compact_signals)
        (e ∙ sym (ap identity_of (latest-same s t activity.pre_compact_signals g c))) in
    ground arith

-- Whatever was announced, acting on it once consumes it: with the same events, neither the release
-- of a drain nor the consumption in another phase is announced a second time.
pub announces_compaction-consume :
    (activity : ActivitySnapshot) (at : ℕ) (s : Snapshot)
    → (announces_compaction (consume activity s) activity ≡ false)
      × (announces_compaction (release activity at s) activity ≡ false)
unfolding consume release
announces_compaction-consume activity at s = (
  consume-once activity s (consume activity s) refl refl refl refl,
  consume-once activity s (release activity at s) refl refl refl refl,
)

-- What a release invalidates is still invalid in another snapshot of its generation and conversation.
pub record IsAfter (activity : ActivitySnapshot) (at : ℕ) (s t : Snapshot) : Type 0 where
  pub generation : t.generation ≡ s.generation
  pub conversation : t.conversation_id ≡ s.conversation_id
  pub invalidated :
      t.compaction.handoff_consent_invalidated_at
      ≡ (release activity at s).compaction.handoff_consent_invalidated_at
  pub identity :
      t.compaction.handoff_consent_invalidated_identity
      ≡ (release activity at s).compaction.handoff_consent_invalidated_identity

-- Other events hold no later hand-off request of the conversation, and no more of them.
abbrev pub IsNoNewer : Snapshot → ActivitySnapshot → ActivitySnapshot → Type 0
IsNoNewer s before later_events =
    (identity_of (latest_managed_signal s later_events.handoff_requested_signals)
      ≡ identity_of (latest_managed_signal s before.handoff_requested_signals))
    × (later_events.handoff_requested_seen ≤ before.handoff_requested_seen)
