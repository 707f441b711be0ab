-- ===== src/Examples/Registrations.antt =====
-- A worktree that is registered twice.
use agent_session_harness.Prelude.{
  ℕ, ◌≡◌, ◌≢◌, refl, String, List, [], ◌∷◌, none, some, returned, thrown, length, string_eq, arith,
  eq_iff,
}
use agent_session_harness.Resources.State.{ManagedResource}
use agent_session_harness.Registry.{
  ResourceRegistration, conflict, find, read_document, write_document, register, register_among,
  unregister, without, has_key, is_document, has_duplicates,
}
use agent_session_harness.Registry.Table.{Table}
use agent_session_harness.Registry.Refines.{
  Request, registers, unregisters, registration, Reads, run, replay, run_refines,
}
use agent_session_harness.Registry.Current.{IsCurrent, register-IsCurrent}

abbrev worktree : ManagedResource
worktree = record {
  kind = "worktree";
  resource_key = "/repo/wt";
  process_identity = none;
  worktree_identity = some "/repo/wt";
  owner_lease = none;
  cleanup_adapter = "git";
}

abbrev bytes : List ResourceRegistration → ℕ
bytes items = length items

abbrev requests : List Request
requests =
    registers "registration-0001" worktree 3
    ∷ registers "registration-0002" worktree 4
    ∷ unregisters "worktree" "/repo/wt" "registration-0001"
    ∷ []

abbrev nothing : Table
nothing kind key = none

empty-Reads : Reads bytes 100 none nothing
unfolding read_document find
empty-Reads = record { items = []; readable = refl; table = refl }

run_refines_example :
    Reads bytes 100 (run bytes 100 requests none) (replay bytes 100 requests none nothing)
run_refines_example = run_refines bytes 100 requests none nothing empty-Reads

empty_file : read_document bytes 100 none ≡ returned []
unfolding read_document
empty_file = refl

is_registered :
    (register bytes 100 "registration-0002" worktree 4 none).0
    ≡ returned (registration "registration-0002" worktree 4)
unfolding register register_among read_document write_document registration is_document
    has_duplicates without has_key string_eq
is_registered = refl

abbrev stale : String
stale = "registration-0001"

abbrev fresh : String
fresh = "registration-0002"

names_differ : fresh ≢ stale
names_differ p = ground (arith, (eq_iff "registration-0002" "registration-0001").1 p)

register-IsCurrent_example :
    (registration "registration-0002" worktree 4 ≡ registration "registration-0002" worktree 4)
    × IsCurrent bytes 100
        (registration "registration-0002" worktree 4)
        (register bytes 100 "registration-0002" worktree 4 none).1
    × (unregister bytes 100 "worktree" "/repo/wt" "registration-0001"
          (register bytes 100 "registration-0002" worktree 4 none).1
        ≡ (thrown conflict, (register bytes 100 "registration-0002" worktree 4 none).1))
register-IsCurrent_example =
    register-IsCurrent bytes 100 fresh stale worktree 4 none []
      (registration "registration-0002" worktree 4) empty_file is_registered names_differ
