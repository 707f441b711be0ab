-- ===== src/Supervisor/Post.antt =====
-- What an action leaves, on a return and on an exception: a rule for each statement.
use agent_session_harness.Prelude.{ℕ, Bool, true, false, ◌≡◌, refl, Option, ◌∷◌}
use agent_session_harness.Supervisor.State.{
  Supervisor, Snapshot, ManagedProcess, Call, Trace, Effect, Status, effect, persist, read_clock,
}
use agent_session_harness.Supervisor.World.{World, Answer, answered, raised, Fault}
use agent_session_harness.Supervisor.Exec.{
  M, choose, Result, ok, err, Error, fault, continue_with, to_result, pure, raise, fail, attempt,
  get, ask, note, update, save, set_current, set_abort_pending, now, ◌>>=◌, ◌>>◌,
}

abbrev pub Post :
    {A : Type 0}
    → (A → Supervisor → Type 0)
    → (Error → Supervisor → Type 0)
    → Result A × Supervisor
    → Type 0
Post Q E (ok a, s) = Q a s
Post Q E (err e, s) = E e s

-- From the state `s` the action returns into `Q` or raises into `E`.
pub record Runs {A : Type 0} (Q : A → Supervisor → Type 0) (E : Error → Supervisor → Type 0)
    (m : M A) (s : Supervisor) : Type 0 where
  pub holds : Post Q E (m s)

abbrev pub noted : Call → Supervisor → Supervisor
noted c s = record s { trace = c ∷ s.trace }

abbrev pub saved : Supervisor → Supervisor
saved s = record s { disk = s.snapshot; trace = persist s.snapshot ∷ s.trace }

module _ {A : Type 0} (Q : A → Supervisor → Type 0) (E : Error → Supervisor → Type 0) where
  pub Runs-pure : (a : A) (s : Supervisor) → Q a s → Runs Q E (pure a) s
  unfolding pure
  Runs-pure a s h = record { holds = h }

  pub Runs-raise : (f : Fault) (s : Supervisor) → E (fault f) s → Runs Q E (raise f) s
  unfolding raise
  Runs-raise f s h = record { holds = h }

  pub Runs-fail : (e : Error) (s : Supervisor) → E e s → Runs Q E (fail e) s
  unfolding fail
  Runs-fail e s h = record { holds = h }

  pub Runs-choose :
      (b : Bool) (m n : M A) (s : Supervisor)
      → (b ≡ true → Runs Q E m s)
      → (b ≡ false → Runs Q E n s)
      → Runs Q E (choose b m n) s
  unfolding choose
  Runs-choose true m n s h k = h refl
  Runs-choose false m n s h k = k refl

  Post-answer :
      (c : Call) (r : Answer A) (s : Supervisor)
      → ((a : A) → r ≡ answered a → Q a (noted c s))
      → ((x : Fault) → r ≡ raised x → E (fault x) (noted c s))
      → Post Q E (to_result r, noted c s)
  unfolding to_result
  Post-answer c (answered a) s h k = h a refl
  Post-answer c (raised x) s h k = k x refl

  pub Runs-ask :
      (c : Call) (answer : Trace → Answer A) (s : Supervisor)
      → ((a : A) → answer s.trace ≡ answered a → Q a (noted c s))
      → ((x : Fault) → answer s.trace ≡ raised x → E (fault x) (noted c s))
      → Runs Q E (ask c answer) s
  unfolding ask
  Runs-ask c answer s h k = record { holds = Post-answer c (answer s.trace) s h k }

module _ (Q : Unit {0} → Supervisor → Type 0) (E : Error → Supervisor → Type 0) where
  pub Runs-save : (s : Supervisor) → Q tt (saved s) → Runs Q E save s
  unfolding save
  Runs-save s h = record { holds = h }

  pub Runs-update :
      (f : Snapshot → Snapshot) (s : Supervisor)
      → Q tt (record s { snapshot = f s.snapshot })
      → Runs Q E (update f) s
  unfolding update
  Runs-update f s h = record { holds = h }

  pub Runs-current :
      (p : Option ManagedProcess) (s : Supervisor)
      → Q tt (record s { current_process = p })
      → Runs Q E (set_current p) s
  unfolding set_current
  Runs-current p s h = record { holds = h }

  pub Runs-note :
      (e : Effect) (st : Status) (g : ℕ) (s : Supervisor)
      → Q tt (noted (effect e st g) s)
      → Runs Q E (note e st g) s
  unfolding note
  Runs-note e st g s h = record { holds = h }

module _ {A : Type 0} (Q : A → Supervisor → Type 0) (E : Error → Supervisor → Type 0) where
  Post-continue :
      {B : Type 0} (R : B → Supervisor → Type 0) (f : B → M A) (r : Result B × Supervisor)
      → Post R E r
      → ((b : B) (t : Supervisor) → R b t → Runs Q E (f b) t)
      → Post Q E (continue_with f r)
  unfolding continue_with
  Post-continue R f (ok b, t) first rest = (rest b t first).holds
  Post-continue R f (err e, t) first rest = first

  pub Runs-bind :
      {B : Type 0} (R : B → Supervisor → Type 0) (m : M B) (f : B → M A) (s : Supervisor)
      → Runs R E m s
      → ((b : B) (t : Supervisor) → R b t → Runs Q E (f b) t)
      → Runs Q E (m >>= f) s
  unfolding ◌>>=◌
  Runs-bind R m f s first rest = record { holds = Post-continue R f (m s) first.holds rest }

  pub Runs-then :
      (R : Supervisor → Type 0) (m : M (Unit {0})) (k : M A) (s : Supervisor)
      → Runs (λ _ t. R t) E m s
      → ((t : Supervisor) → R t → Runs Q E k t)
      → Runs Q E (m >> k) s
  unfolding ◌>>◌
  Runs-then R m k s first rest = Runs-bind (λ _ t. R t) m (λ _. k) s first (λ _ t h. rest t h)

  pub note-then :
      (e : Effect) (st : Status) (g : ℕ) (k : M A) (s : Supervisor)
      → Runs Q E k (noted (effect e st g) s)
      → Runs Q E (note e st g >> k) s
  unfolding note ◌>>◌ ◌>>=◌ continue_with
  note-then e st g k s h = record { holds = h.holds }

  pub update-then :
      (f : Snapshot → Snapshot) (k : M A) (s : Supervisor)
      → Runs Q E k (record s { snapshot = f s.snapshot })
      → Runs Q E (update f >> k) s
  unfolding update ◌>>◌ ◌>>=◌ continue_with
  update-then f k s h = record { holds = h.holds }

  pub save-then : (k : M A) (s : Supervisor) → Runs Q E k (saved s) → Runs Q E (save >> k) s
  unfolding save ◌>>◌ ◌>>=◌ continue_with
  save-then k s h = record { holds = h.holds }

  pub set_current-then :
      (p : Option ManagedProcess) (k : M A) (s : Supervisor)
      → Runs Q E k (record s { current_process = p })
      → Runs Q E (set_current p >> k) s
  unfolding set_current ◌>>◌ ◌>>=◌ continue_with
  set_current-then p k s h = record { holds = h.holds }

  pub set_abort_pending-then :
      (b : Bool) (k : M A) (s : Supervisor)
      → Runs Q E k (record s { successor_abort_pending = b })
      → Runs Q E (set_abort_pending b >> k) s
  unfolding set_abort_pending ◌>>◌ ◌>>=◌ continue_with
  set_abort_pending-then b k s h = record { holds = h.holds }

  pub get-bind : (f : Supervisor → M A) (s : Supervisor) → Runs Q E (f s) s → Runs Q E (get >>= f) s
  unfolding get ◌>>=◌ continue_with
  get-bind f s h = record { holds = h.holds }

  pub now-bind :
      (w : World) (f : ℕ → M A) (s : Supervisor)
      → Runs Q E (f (w.clock s.trace)) (noted read_clock s)
      → Runs Q E (now w >>= f) s
  unfolding now ◌>>=◌ continue_with
  now-bind w f s h = record { holds = h.holds }

  Answer-continue :
      {B : Type 0} (c : Call) (r : Answer B) (f : B → M A) (s : Supervisor)
      → ((b : B) → r ≡ answered b → Runs Q E (f b) (noted c s))
      → ((x : Fault) → r ≡ raised x → E (fault x) (noted c s))
      → Post Q E (continue_with f (to_result r, noted c s))
  unfolding continue_with to_result
  Answer-continue c (answered b) f s h k = (h b refl).holds
  Answer-continue c (raised x) f s h k = k x refl

  pub ask-bind :
      {B : Type 0} (c : Call) (answer : Trace → Answer B) (f : B → M A) (s : Supervisor)
      → ((b : B) → answer s.trace ≡ answered b → Runs Q E (f b) (noted c s))
      → ((x : Fault) → answer s.trace ≡ raised x → E (fault x) (noted c s))
      → Runs Q E (ask c answer >>= f) s
  unfolding ask ◌>>=◌
  ask-bind c answer f s h k = record { holds = Answer-continue c (answer s.trace) f s h k }

  pub ask-then :
      (c : Call) (answer : Trace → Answer (Unit {0})) (n : M A) (s : Supervisor)
      → ((b : Unit {0}) → answer s.trace ≡ answered b → Runs Q E n (noted c s))
      → ((x : Fault) → answer s.trace ≡ raised x → E (fault x) (noted c s))
      → Runs Q E (ask c answer >> n) s
  unfolding ◌>>◌
  ask-then c answer n s h k = ask-bind c answer (λ _. n) s h k

  Post-attempt :
      {B : Type 0} (R : Result B → Supervisor → Type 0) (f : Result B → M A)
      (r : Result B × Supervisor)
      → Post (λ b t. R (ok b) t) (λ e t. R (err e) t) r
      → ((x : Result B) (t : Supervisor) → R x t → Runs Q E (f x) t)
      → Post Q E (f r.0 r.1)
  Post-attempt R f (ok b, t) h k = (k (ok b) t h).holds
  Post-attempt R f (err e, t) h k = (k (err e) t h).holds

  pub attempt-bind :
      {B : Type 0} (R : Result B → Supervisor → Type 0) (m : M B) (f : Result B → M A)
      (s : Supervisor)
      → Runs (λ b t. R (ok b) t) (λ e t. R (err e) t) m s
      → ((r : Result B) (t : Supervisor) → R r t → Runs Q E (f r) t)
      → Runs Q E (attempt m >>= f) s
  unfolding attempt ◌>>=◌ continue_with
  attempt-bind R m f s h k = record { holds = Post-attempt R f (m s) h.holds k }

module _ {A : Type 0} (Q R : A → Supervisor → Type 0) (E F : Error → Supervisor → Type 0) where
  Post-weaken :
      (r : Result A × Supervisor)
      → ((a : A) (t : Supervisor) → Q a t → R a t)
      → ((e : Error) (t : Supervisor) → E e t → F e t)
      → Post Q E r
      → Post R F r
  Post-weaken (ok a, t) q e h = q a t h
  Post-weaken (err x, t) q e h = e x t h

  -- A weaker condition holds too.
  pub Runs-weaken :
      (m : M A) (s : Supervisor)
      → ((a : A) (t : Supervisor) → Q a t → R a t)
      → ((e : Error) (t : Supervisor) → E e t → F e t)
      → Runs Q E m s
      → Runs R F m s
  Runs-weaken m s q e h = record { holds = Post-weaken (m s) q e h.holds }
