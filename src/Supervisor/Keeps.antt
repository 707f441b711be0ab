-- ===== src/Supervisor/Keeps.antt =====
-- The actions that keep the order of a rotation from every state: a rule for each statement.
use agent_session_harness.Prelude.{ℕ, ◌≡◌, ◌≢◌, refl, Bool, true, Option}
use agent_session_harness.Supervisor.State.{
  Supervisor, Snapshot, ManagedProcess, Call, Trace, Effect, Status, effect, read_clock,
}
use agent_session_harness.Supervisor.World.{World, Answer, Fault}
use agent_session_harness.Supervisor.Exec.{
  M, choose, Result, err, Error, diverged, pure, raise, fail, attempt, get, ask, note, update, save,
  set_current, now, persist_blocked, ◌>>=◌, ◌>>◌,
}
use agent_session_harness.Supervisor.Post.{
  Runs, Runs-pure, Runs-raise, Runs-fail, Runs-choose, Runs-ask, Runs-note, Runs-update,
  Runs-current, Runs-weaken, Runs-then, Runs-bind, get-bind, now-bind, update-then, attempt-bind,
}
use agent_session_harness.Supervisor.Journal.{IsSound, accounted, allowed}
use agent_session_harness.Supervisor.Sound.{
  Sound-noted, Sound-updated, Sound-current, Sound-plain, Fails, save-Sound,
}

module _ (w : World) where
  -- The action keeps the invariant, whether it returns or raises, and does not run out of fuel.
  pub record Keeps {A : Type 0} (m : M A) : Type 0 where
    pub runs : (s : Supervisor) → IsSound w s → Runs (λ _ t. IsSound w t) (Fails w) m s

  pub Keeps-pure : {A : Type 0} (a : A) → Keeps (pure a)
  Keeps-pure a = record { runs = λ s h. Runs-pure _ _ a s h }

  pub Keeps-raise : {A : Type 0} (x : Fault) → Keeps {A = A} (raise x)
  Keeps-raise x = record { runs = λ s h. Runs-raise _ _ x s (h, λ e. cc) }

  pub Keeps-fail : {A : Type 0} (e : Error) → e ≢ diverged → Keeps {A = A} (fail e)
  Keeps-fail e d = record { runs = λ s h. Runs-fail _ _ e s (h, d) }

  pub Keeps-choose : {A : Type 0} (b : Bool) (m n : M A) → Keeps m → Keeps n → Keeps (choose b m n)
  Keeps-choose b m n k l = record {
    runs = λ s h. Runs-choose _ _ b m n s (λ _. k.runs s h) (λ _. l.runs s h);
  }

  pub Keeps-bind :
      {A B : Type 0} (m : M B) (f : B → M A) → Keeps m → ((b : B) → Keeps (f b)) → Keeps (m >>= f)
  Keeps-bind m f k l = record {
    runs = λ s h. Runs-bind _ _ (λ _ t. IsSound w t) m f s (k.runs s h) (λ b t i. (l b).runs t i);
  }

  pub Keeps-then : {A : Type 0} (m : M (Unit {0})) (n : M A) → Keeps m → Keeps n → Keeps (m >> n)
  Keeps-then m n k l = record {
    runs = λ s h. Runs-then _ _ (λ t. IsSound w t) m n s (k.runs s h) (λ t i. l.runs t i);
  }

  pub Keeps-get :
      {A : Type 0} (f : Supervisor → M A) → ((s : Supervisor) → Keeps (f s)) → Keeps (get >>= f)
  Keeps-get f k = record { runs = λ s h. get-bind _ _ f s ((k s).runs s h) }

  pub Keeps-now : {A : Type 0} (f : ℕ → M A) → ((at : ℕ) → Keeps (f at)) → Keeps (now w >>= f)
  Keeps-now f k = record {
    runs = λ s h.
        now-bind _ _ w f s ((k (w.clock s.trace)).runs _ (Sound-noted w read_clock s h refl));
  }

  -- A call that may be made at any time.
  pub Keeps-ask :
      {A : Type 0} (c : Call) (answer : Trace → Answer A)
      → ((t : Trace) → allowed w c t ≡ true)
      → Keeps (ask c answer)
  Keeps-ask c answer a = record {
    runs = λ s h.
        Runs-ask _ _ c answer s (λ _ _. Sound-noted w c s h (a s.trace))
          (λ _ _. (Sound-noted w c s h (a s.trace), λ e. cc));
  }

  pub Keeps-note :
      (e : Effect) (st : Status) (g : ℕ)
      → ((t : Trace) → allowed w (effect e st g) t ≡ true)
      → Keeps (note e st g)
  Keeps-note e st g a = record {
    runs = λ s h. Runs-note _ _ e st g s (Sound-noted w (effect e st g) s h (a s.trace));
  }

  pub Keeps-attempt :
      {A B : Type 0} (m : M B) (f : Result B → M A)
      → Keeps m
      → ((r : Result B) → r ≢ err diverged → Keeps (f r))
      → Keeps (attempt m >>= f)
  Keeps-attempt m f k l = record {
    runs = λ s h.
        attempt-bind _ _ (λ r t. IsSound w t × (r ≢ err diverged)) m f s
          (Runs-weaken _ _ _ _ m s (λ b t i. (i, λ e. cc)) (λ e t i. (i.0, λ q. i.1 cc))
            (k.runs s h))
          (λ r t i. (l r i.1).runs t i.0);
  }

  pub Keeps-update :
      (f : Snapshot → Snapshot)
      → ((s : Snapshot) (t : Trace) → accounted w s t ≡ true → accounted w (f s) t ≡ true)
      → Keeps (update f)
  Keeps-update f a = record {
    runs = λ s h.
        Runs-update _ _ f s (Sound-updated w s (f s.snapshot) h (a s.snapshot s.trace h.memory));
  }

  pub Keeps-save : Keeps save
  Keeps-save = record { runs = λ s h. save-Sound w s h }

  pub Keeps-current : (p : Option ManagedProcess) → Keeps (set_current p)
  Keeps-current p = record { runs = λ s h. Runs-current _ _ p s (Sound-current w s p h) }

  pub Keeps-blocked : Keeps persist_blocked
  unfolding persist_blocked
  Keeps-blocked = record {
    runs = λ s h. update-then _ _ _ _ s (save-Sound w _ (Sound-plain w s _ refl refl h));
  }
