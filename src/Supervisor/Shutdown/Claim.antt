-- ===== src/Supervisor/Shutdown/Claim.antt =====
-- supervisor.py: what a shutdown does about the process keeps the claim.
use agent_session_harness.Prelude.{ℕ, ◌≡◌, refl, Bool, true, false, ◌&&◌, Option, none, some}
use agent_session_harness.Supervisor.State.{Supervisor, ManagedProcess, ClaimHandle}
use agent_session_harness.Supervisor.World.{World}
use agent_session_harness.Supervisor.Exec.{Result, ok, err, Error, persist_blocked}
use agent_session_harness.Supervisor.Post.{
  Runs, Runs-pure, Runs-raise, Runs-fail, Runs-choose, Runs-ask, Runs-note, Runs-save, Runs-then,
  get-bind, attempt-bind, update-then, save-then, note-then, ask-bind,
}
use agent_session_harness.Supervisor.Shutdown.{
  detach, after_stop, require_dead, terminate, after_clear, clear_record, end_live, end_process,
}

-- Nothing is said of an exception.
abbrev pub Any : Error → Supervisor → Type 0
Any e s = Unit

module _ (w : World) where
  -- What is done about the process keeps the claim.
  abbrev pub HasClaim : {A : Type 0} → Option ClaimHandle → A → Supervisor → Type 0
  HasClaim c _ t = t.snapshot.claim ≡ c

  detach-HasClaim :
      (g : ℕ) (c : Option ClaimHandle) (s : Supervisor)
      → s.snapshot.claim ≡ c
      → Runs (HasClaim c) Any (detach w g) s
  unfolding detach
  detach-HasClaim g c s h =
      note-then _ _ _ _ g _ s (update-then _ _ _ _ _ (save-then _ _ _ _ (Runs-note _ _ _ _ g _ h)))

  after_stop-HasClaim :
      (r : Result (Unit {0})) (c : Option ClaimHandle) (s : Supervisor)
      → s.snapshot.claim ≡ c
      → Runs (HasClaim c) Any (after_stop w r) s
  unfolding after_stop
  after_stop-HasClaim (ok u) c s h = Runs-pure _ _ tt s h
  after_stop-HasClaim (err e) c s h =
      Runs-choose _ _ _ _ _ s (λ _. Runs-pure _ _ tt s h) (λ _. Runs-fail _ _ e s tt)

  require_dead-HasClaim :
      (b : Bool) (c : Option ClaimHandle) (s : Supervisor)
      → s.snapshot.claim ≡ c
      → Runs (HasClaim c) Any (require_dead w b) s
  unfolding require_dead persist_blocked
  require_dead-HasClaim b c s h =
      Runs-choose _ _ b _ _ s
        (λ _.
          Runs-then _ _ (λ _. Unit) _ _ s (update-then _ _ _ _ s (Runs-save _ _ _ tt))
            (λ t _. Runs-raise _ _ _ t tt))
        (λ _. Runs-pure _ _ tt s h)

  terminate-HasClaim :
      (p : ManagedProcess) (g : ℕ) (c : Option ClaimHandle) (s : Supervisor)
      → s.snapshot.claim ≡ c
      → Runs (HasClaim c) Any (terminate w p g) s
  unfolding terminate
  terminate-HasClaim p g c s h = note-then _ _ _ _ g _ s (
      attempt-bind _ _ (HasClaim c) _ _ _ (Runs-ask _ _ _ _ _ (λ _ _. h) (λ _ _. h)) (λ r t i.
        Runs-then _ _ (HasClaim c tt) _ _ t (after_stop-HasClaim r c t i) (λ u j.
          ask-bind _ _ _ _ _ u
            (λ alive _.
              Runs-then _ _ (HasClaim c tt) _ _ _ (require_dead-HasClaim alive c _ j)
                (λ v k. Runs-note _ _ _ _ g v k))
            (λ _ _. tt))))

  clear-HasClaim :
      (b : Bool) (p : ManagedProcess) (c : Option ClaimHandle) (s : Supervisor)
      → s.snapshot.claim ≡ c
      → Runs (HasClaim c) Any (clear_record w b p) s
  unfolding clear_record
  clear-HasClaim b p c s h =
      Runs-choose _ _ b _ _ s (λ _. Runs-pure _ _ false s h)
        (λ _.
          attempt-bind _ _ (HasClaim c) _ _ s (Runs-ask _ _ _ _ s (λ _ _. h) (λ _ _. h)) cleared)
    where
      cleared :
          (r : Result (Unit {0})) (t : Supervisor)
          → t.snapshot.claim ≡ c
          → Runs (HasClaim c) Any (after_clear w r) t
      cleared (ok u) t i = Runs-pure _ _ false t i
      cleared (err e) t i =
          Runs-choose _ _ _ _ _ t (λ _. Runs-pure _ _ true t i) (λ _. Runs-fail _ _ e t tt)

  pub end_process-HasClaim :
      (b : Bool) (p : Option ManagedProcess) (s : Supervisor)
      → Runs (HasClaim s.snapshot.claim) Any (end_process w b p) s
  unfolding end_process end_live
  end_process-HasClaim b none s = Runs-pure _ _ false s refl
  end_process-HasClaim b (some p) s = update-then _ _ _ _ s (
      save-then _ _ _ _ (
        get-bind _ _ _ _ (
          ask-bind _ _ _ _ _ _
            (λ alive _.
              let c = s.snapshot.claim in
              Runs-then _ _ (HasClaim c tt) _ _ _
                (Runs-choose _ _ alive _ _ _
                  (λ _.
                    Runs-choose _ _ b _ _ _ (λ _. detach-HasClaim _ c _ refl)
                      (λ _. terminate-HasClaim p _ c _ refl))
                  (λ _. Runs-pure _ _ tt _ refl))
                (λ t i. clear-HasClaim (alive && b) p c t i))
            (λ _ _. tt))))
