-- ===== src/Supervisor/Shutdown/Spares.antt =====
-- supervisor.py: a shutdown leaves the user's session running.
use agent_session_harness.Prelude.{
  ℕ, ◌≡◌, refl, Bool, true, false, Option, none, some, [], ◌∷◌, suc, arith, if◌then◌else◌, subst,
  sym,
}
use agent_session_harness.Supervisor.State.{
  Settings, Supervisor, Snapshot, ManagedProcess, ClaimHandle, Call, stop_process, Trace, Effect,
  Status,
}
use agent_session_harness.Supervisor.World.{World, Answer, Fault, stale_owner, runtime}
use agent_session_harness.Supervisor.Exec.{
  M, Result, ok, err, Error, fault, choose, pure, raise, fail, attempt, get, ask, note, update,
  save, set_current, ◌>>=◌, ◌>>◌,
}
use agent_session_harness.Supervisor.Post.{
  Runs, Runs-pure, Runs-raise, Runs-fail, Runs-choose, Runs-ask, Runs-note, Runs-update,
  Runs-current, Runs-save, Runs-then, Runs-bind, get-bind, attempt-bind, Post,
}
use agent_session_harness.Supervisor.Tick.{finalize_process, finalize_completed_cleanup}
use agent_session_harness.Supervisor.Shutdown.{
  runtime_was_adopted, detach, end_live, after_clear, clear_record, end_process, after_fence,
  release_claim_of, close, end_claim, end_supervision, shutdown_unlocked,
}

abbrev is_stop : Call → Bool
is_stop (stop_process p) = true
is_stop _ = false

-- How often a process was asked to stop.
abbrev pub count_stops : Trace → ℕ
count_stops [] = 0
count_stops (c ∷ t) = if is_stop c then suc (count_stops t) else count_stops t

-- The action asks no process to stop, whether it returns or raises.
pub record Spares {A : Type 0} (m : M A) : Type 0 where
  pub runs :
      (n : ℕ) (s : Supervisor)
      → count_stops s.trace ≡ n
      → Runs (λ _ t. count_stops t.trace ≡ n) (λ _ t. count_stops t.trace ≡ n) m s

Spares-pure : {A : Type 0} (a : A) → Spares (pure a)
Spares-pure a = record { runs = λ n s h. Runs-pure _ _ a s h }

Spares-raise : {A : Type 0} (x : Fault) → Spares {A = A} (raise x)
Spares-raise x = record { runs = λ n s h. Runs-raise _ _ x s h }

Spares-fail : {A : Type 0} (e : Error) → Spares {A = A} (fail e)
Spares-fail e = record { runs = λ n s h. Runs-fail _ _ e s h }

Spares-choose : {A : Type 0} (b : Bool) (m k : M A) → Spares m → Spares k → Spares (choose b m k)
Spares-choose b m k h l = record {
  runs = λ n s e. Runs-choose _ _ b m k s (λ _. h.runs n s e) (λ _. l.runs n s e);
}

Spares-bind :
    {A B : Type 0} (m : M B) (f : B → M A) → Spares m → ((b : B) → Spares (f b)) → Spares (m >>= f)
Spares-bind m f k l = record {
  runs = λ n s h.
      Runs-bind _ _ (λ _ t. count_stops t.trace ≡ n) m f s (k.runs n s h)
        (λ b t i. (l b).runs n t i);
}

Spares-then : {A : Type 0} (m : M (Unit {0})) (k : M A) → Spares m → Spares k → Spares (m >> k)
Spares-then m k h l = record {
  runs = λ n s e.
      Runs-then _ _ (λ t. count_stops t.trace ≡ n) m k s (h.runs n s e) (λ t i. l.runs n t i);
}

Spares-get :
    {A : Type 0} (f : Supervisor → M A) → ((s : Supervisor) → Spares (f s)) → Spares (get >>= f)
Spares-get f k = record { runs = λ n s h. get-bind _ _ f s ((k s).runs n s h) }

Spares-ask :
    {A : Type 0} (c : Call) (answer : Trace → Answer A) → is_stop c ≡ false → Spares (ask c answer)
Spares-ask c answer q = record {
  runs =
      λ n s h. Runs-ask _ _ c answer s (λ _ _. ground (arith, q, h)) (λ _ _. ground (arith, q, h));
}

Spares-note : (e : Effect) (st : Status) (g : ℕ) → Spares (note e st g)
Spares-note e st g = record { runs = λ n s h. Runs-note _ _ e st g s h }

Spares-update : (f : Snapshot → Snapshot) → Spares (update f)
Spares-update f = record { runs = λ n s h. Runs-update _ _ f s h }

Spares-save : Spares save
Spares-save = record { runs = λ n s h. Runs-save _ _ s h }

Spares-current : (p : Option ManagedProcess) → Spares (set_current p)
Spares-current p = record { runs = λ n s h. Runs-current _ _ p s h }

Spares-attempt :
    {A B : Type 0} (m : M B) (f : Result B → M A)
    → Spares m
    → ((r : Result B) → Spares (f r))
    → Spares (attempt m >>= f)
Spares-attempt m f k l = record {
  runs = λ n s h.
      attempt-bind _ _ (λ r t. count_stops t.trace ≡ n) m f s (k.runs n s h)
        (λ r t i. (l r).runs n t i);
}

module _ (w : World) where
  detach-Spares : (g : ℕ) → Spares (detach w g)
  unfolding detach
  detach-Spares g =
      Spares-then _ _ (Spares-note _ _ _)
        (Spares-then _ _ (Spares-update _) (Spares-then _ _ Spares-save (Spares-note _ _ _)))

  end_live-Spares : (p : ManagedProcess) (g : ℕ) → Spares (end_live w true p g)
  unfolding end_live choose
  end_live-Spares p g = record {
    runs = λ n s h. record { holds = ((detach-Spares g).runs n s h).holds };
  }

  after_clear-Spares : (r : Result (Unit {0})) → Spares (after_clear w r)
  unfolding after_clear
  after_clear-Spares (ok a) = Spares-pure false
  after_clear-Spares (err e) = Spares-choose _ _ _ (Spares-pure true) (Spares-fail e)

  clear_record-Spares : (b : Bool) (p : ManagedProcess) → Spares (clear_record w b p)
  unfolding clear_record
  clear_record-Spares b p =
      Spares-choose b _ _ (Spares-pure false)
        (Spares-attempt _ _ (Spares-ask _ _ refl) after_clear-Spares)

  end_process-Spares : (p : Option ManagedProcess) → Spares (end_process w true p)
  unfolding end_process
  end_process-Spares none = Spares-pure false
  end_process-Spares (some p) = Spares-then _ _ (Spares-update _) (
      Spares-then _ _ Spares-save (
        Spares-get _ (λ s. Spares-bind _ _ (Spares-ask _ _ refl) (λ alive.
          Spares-then _ _ (Spares-choose alive _ _ (end_live-Spares p _) (Spares-pure tt))
            (clear_record-Spares _ p)))))

  after_fence-Spares : (r : Result (Unit {0})) → Spares (after_fence w r)
  unfolding after_fence
  after_fence-Spares (ok a) = Spares-pure true
  after_fence-Spares (err (fault stale_owner)) = Spares-pure true
  after_fence-Spares (err (fault runtime)) = Spares-pure false
  after_fence-Spares (err e) = Spares-fail e

  release-Spares : (c : Option ClaimHandle) (g : ℕ) → Spares (release_claim_of w c g)
  unfolding release_claim_of
  release-Spares none g = Spares-pure true
  release-Spares (some c) g =
      Spares-then _ _ (Spares-note _ _ _)
        (Spares-attempt _ _ (Spares-ask _ _ refl) after_fence-Spares)

  close-Spares : (released had uncleared : Bool) (g : ℕ) → Spares (close w released had uncleared g)
  unfolding close
  close-Spares released had uncleared g =
      Spares-then _ _ (Spares-choose released _ _ (Spares-pure tt) (Spares-raise _)) (
        Spares-then _ _ (Spares-choose had _ _ (Spares-note _ _ _) (Spares-pure tt))
          (Spares-choose uncleared _ _ (Spares-raise _) (Spares-pure tt)))

  end_claim-Spares : (uncleared : Bool) → Spares (end_claim w uncleared)
  unfolding end_claim
  end_claim-Spares uncleared = Spares-get _ (λ t. Spares-bind _ _ (release-Spares _ _) (λ released.
      Spares-then _ _ (Spares-update _)
        (Spares-then _ _ Spares-save (close-Spares released _ uncleared _))))

  after_process-Spares :
      (uncleared : Bool)
      → Spares (choose uncleared (pure tt) (set_current none) >> end_claim w uncleared)
  after_process-Spares uncleared =
      Spares-then _ _ (Spares-choose uncleared _ _ (Spares-pure tt) (Spares-current none))
        (end_claim-Spares uncleared)

  supervision-Spares :
      (n : ℕ) (s : Supervisor)
      → runtime_was_adopted s ≡ true
      → count_stops s.trace ≡ n
      → Runs (λ _ t. count_stops t.trace ≡ n) (λ _ t. count_stops t.trace ≡ n) (end_supervision w) s
  unfolding end_supervision
  supervision-Spares n s a h = get-bind _ _ _ s (
      Runs-bind _ _ (λ _ t. count_stops t.trace ≡ n) _ _ s
        (subst
          (λ b.
            Runs (λ _ t. count_stops t.trace ≡ n) (λ _ t. count_stops t.trace ≡ n)
              (end_process w b s.current_process) s)
          (sym a) ((end_process-Spares s.current_process).runs n s h))
        (λ uncleared t i. (after_process-Spares uncleared).runs n t i))

  finalize-Spares : (settings : Settings) → Spares (finalize_completed_cleanup w settings)
  unfolding finalize_completed_cleanup finalize_process
  finalize-Spares settings =
      Spares-get _ (λ s. Spares-choose _ _ _ (cleared s.current_process) (Spares-pure tt))
    where
      cleared : (p : Option ManagedProcess) → Spares (finalize_process w settings p)
      cleared none = Spares-pure tt
      cleared (some p) =
          Spares-then _ _ (Spares-ask _ _ refl)
            (Spares-then _ _ (Spares-current none) (Spares-then _ _ (Spares-update _) Spares-save))

  -- A shutdown of a supervisor whose runtime was adopted, that is neither a successor on trial nor a
  -- predecessor being rotated out, asks no process to stop: the session of the user goes on, however
  -- the collaborators answer or fail.
  pub shutdown_unlocked-adopted :
      (settings : Settings) (s : Supervisor)
      → runtime_was_adopted s ≡ true
      → count_stops (shutdown_unlocked w settings s).1.trace ≡ count_stops s.trace
  unfolding shutdown_unlocked
  shutdown_unlocked-adopted settings s a =
      either _ _
        (get-bind _ _ _ s (
          Runs-choose _ _ _ _ _ s (λ _. (finalize-Spares settings).runs _ s refl)
            (λ _. supervision-Spares _ s a refl))).holds
    where
      either :
          (r : Result (Unit {0}) × Supervisor) (n : ℕ)
          → Post (λ _ t. count_stops t.trace ≡ n) (λ _ t. count_stops t.trace ≡ n) r
          → count_stops r.1.trace ≡ n
      either (ok u, t) n h = h
      either (err e, t) n h = h
