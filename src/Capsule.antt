-- ===== src/Capsule.antt =====
-- capsule.py: the validation of a hand-off capsule and the check of its fingerprint.
-- A dict is the list of its items, in the order of its keys that the canonical text has.
pub mod Integrity
use agent_session_harness.Prelude.{
  ℕ, ◌≤◌, String, Bool, true, false, not, ◌&&◌, ◌||◌, List, [], ◌∷◌, ◌++◌, Option, none, some, Eq,
  same, string_eq, leb, text_length, is_blank, is_within, any, length, map, if◌then◌else◌,
  String_discrete,
}
use Prim.Native.String.{◌++◌ as concat}
use native.Mathlib.Decide.{ℕ_discrete}

pub data ProcessSummary : Type 0 where
  idle running blocked unknown stopped passed failed : ProcessSummary

pub record HandoffCapsule : Type 0 where
  pub chain_id : String
  pub predecessor_conversation_id : String
  pub target_generation : ℕ
  pub task_ids : List (String × String)
  pub objective : String
  pub exact_next_action : String
  pub completed_criteria : List String
  pub remaining_criteria : List String
  pub repository_path : String
  pub branch : String
  pub head : String
  pub dirty_paths : List String
  pub file_anchors : List String
  pub symbol_anchors : List String
  pub test_results : List (String × String)
  pub decisions : List String
  pub blockers : List String
  pub process_summaries : List (String × ProcessSummary)
  pub created_at : ℕ
  pub fingerprint : String

pub HandoffCapsule-discrete : Discrete HandoffCapsule
HandoffCapsule-discrete = hlevel (String_discrete, ℕ_discrete)

instance unfoldable pub capsule_eq : Eq HandoffCapsule
unfolding HandoffCapsule-discrete
capsule_eq = record { dec = HandoffCapsule-discrete }

-- A mapping's value as `str(item)`.
unfoldable pub state_name : ProcessSummary → String
state_name ProcessSummary.idle = "idle"
state_name ProcessSummary.running = "running"
state_name ProcessSummary.blocked = "blocked"
state_name ProcessSummary.unknown = "unknown"
state_name ProcessSummary.stopped = "stopped"
state_name ProcessSummary.passed = "passed"
state_name ProcessSummary.failed = "failed"

-- The items of `process_summaries` as texts.
unfoldable pub named : List (String × ProcessSummary) → List (String × String)
unfolding state_name
named items = map (λ (key, state). (key, state_name state)) items

-- An item that is blank or longer than the field's limit.
unfoldable pub is_bad_item : ℕ → String → Bool
is_bad_item limit text = is_blank text || not (leb (text_length text) limit)

unfoldable pub are_items : ℕ → ℕ → List String → Bool
unfolding is_bad_item
are_items count limit texts = leb (length texts) count && not (any (is_bad_item limit) texts)

unfoldable pub is_bad_entry : ℕ → ℕ → String × String → Bool
unfolding is_bad_item
is_bad_entry key_limit value_limit (key, value) =
    is_bad_item key_limit key || is_bad_item value_limit value

unfoldable pub are_entries : ℕ → ℕ → ℕ → List (String × String) → Bool
unfolding is_bad_entry
are_entries count key_limit value_limit items =
    leb (length items) count && not (any (is_bad_entry key_limit value_limit) items)

-- The bounds of all fields but the path.
unfoldable pub is_bounded : HandoffCapsule → Bool
unfolding are_items are_entries named
is_bounded c =
    is_within 160 c.chain_id
    && is_within 160 c.predecessor_conversation_id
    && leb 1 c.target_generation
    && are_entries 16 64 160 c.task_ids
    && is_within 4000 c.objective
    && is_within 4000 c.exact_next_action
    && are_items 32 1000 c.completed_criteria
    && are_items 32 1000 c.remaining_criteria
    && is_within 512 c.branch
    && is_within 128 c.head
    && are_items 128 1024 c.dirty_paths
    && are_items 128 1024 c.file_anchors
    && are_items 128 1024 c.symbol_anchors
    && are_entries 64 512 512 c.test_results
    && are_items 32 1000 c.decisions
    && are_items 32 1000 c.blockers
    && are_entries 16 64 32 (named c.process_summaries)

-- The texts of a mapping that are searched for credentials.
unfoldable pub candidates : List (String × String) → List String
candidates [] = []
candidates ((key, value) ∷ items) = key ∷ value ∷ concat (concat key "=") value ∷ candidates items

-- The texts of a capsule that are searched for credentials, all but its fingerprint.
unfoldable pub searched : HandoffCapsule → List String
unfolding candidates named
searched c =
    (c.chain_id ∷ c.predecessor_conversation_id ∷ c.objective ∷ c.exact_next_action ∷ c.branch
      ∷ c.head ∷ c.repository_path ∷ [])
    ++ candidates c.task_ids
    ++ candidates c.test_results
    ++ candidates (named c.process_summaries)
    ++ c.completed_criteria
    ++ c.remaining_criteria
    ++ c.dirty_paths
    ++ c.file_anchors
    ++ c.symbol_anchors
    ++ c.decisions
    ++ c.blockers

-- What is not in this file: `is_credential` is the search of the pattern for assignments of
-- credentials, `resolve` the file system's absolute form of a path (none if the path is relative),
-- and `digest` the hash of the canonical JSON of a capsule.
pub record Texts : Type 0 where
  pub is_credential : String → Bool
  pub resolve : String → Option String
  pub digest : HandoffCapsule → String

module _ (t : Texts) where
  -- The hash of all fields but the fingerprint.
  unfoldable pub expected_fingerprint : HandoffCapsule → String
  expected_fingerprint c = t.digest (record c { fingerprint = "" })

  -- An absent fingerprint is filled in, a present one has to match.
  unfoldable pub verify_fingerprint : HandoffCapsule → Option HandoffCapsule
  unfolding expected_fingerprint
  verify_fingerprint c =
      if not (same c.fingerprint "") && not (same c.fingerprint (expected_fingerprint c))
      then none
      else some (record c { fingerprint = expected_fingerprint c })

  unfoldable pub is_clean : HandoffCapsule → Bool
  unfolding searched
  is_clean c = not (any t.is_credential (searched c)) && not (t.is_credential c.fingerprint)

  unfoldable pub has_bounded_fields : HandoffCapsule → Bool
  unfolding is_bounded is_clean
  has_bounded_fields c =
      is_bounded c
      && is_clean c
      && leb (text_length c.repository_path) 4096
      && leb (text_length c.fingerprint) 64

  unfoldable pub verify_path : HandoffCapsule → Option String → Option HandoffCapsule
  unfolding verify_fingerprint
  verify_path c none = none
  verify_path c (some path) = verify_fingerprint (record c { repository_path = path })

  -- The validation of a capsule that is built or read.
  unfoldable pub validate : HandoffCapsule → Option HandoffCapsule
  unfolding has_bounded_fields verify_path
  validate c = if has_bounded_fields c then verify_path c (t.resolve c.repository_path) else none
