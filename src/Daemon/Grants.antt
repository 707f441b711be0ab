-- ===== src/Daemon/Grants.antt =====
-- daemon_supervisor.py: which process groups may be signalled after a history, and the actions that
-- signal no others: a rule for each statement.
use agent_session_harness.Prelude.{
  ℕ, ◌≡◌, refl, Bool, true, false, ◌&&◌, ◌||◌, [], ◌∷◌, Option, none, some, arith, Except, returned,
  thrown, same, nat_eq, Bool-cases, inl, inr,
}
use agent_session_harness.Resources.State.{ProcessState}
use agent_session_harness.Daemon.{
  DaemonLifecycleRecord, DaemonError, Call, spawn, observe, signal_group, Trace, System, Definition,
  DaemonSupervisor,
}
use agent_session_harness.Daemon.Exec.{
  M, pure, continue_with, choose, raise, attempt, get, ask, ◌>>=◌, ◌>>◌,
}

-- The identity was observed, alive or as a zombie.
abbrev pub is_present : ProcessState → Bool
is_present ProcessState.running = true
is_present ProcessState.zombie = true
is_present _ = false

module _ (x : System) (d : Definition) where
  -- The group was launched by this controller.
  abbrev pub launched_before : ℕ → Trace → Bool
  launched_before pid [] = false
  launched_before pid (spawn (some p) ∷ t) = same p pid || launched_before pid t
  launched_before pid (_ ∷ t) = launched_before pid t

  -- Its identity was checked and found to be there.
  abbrev pub verified_before : ℕ → Trace → Bool
  verified_before pid [] = false
  verified_before pid (observe i ∷ t) =
      same i.pid pid && is_present (x.observed t i) || verified_before pid t
  verified_before pid (_ ∷ t) = verified_before pid t

  abbrev pub may_signal : ℕ → Trace → Bool
  may_signal pid t = launched_before pid t || d.allow_process_takeover && verified_before pid t

  abbrev pub permitted : Call → Trace → Bool
  permitted (signal_group which pid) t = may_signal pid t
  permitted _ t = true

  abbrev pub is_permitted : Trace → Bool
  is_permitted [] = true
  is_permitted (c ∷ t) = permitted c t && is_permitted t

  abbrev pub child_launched : Option ℕ → Trace → Bool
  child_launched none t = true
  child_launched (some pid) t = launched_before pid t

  -- Every signal of the history was permitted, and the child was launched in it.
  pub record IsCareful (s : DaemonSupervisor) : Type 0 where
    pub signals : is_permitted s.trace ≡ true
    pub child : child_launched s.child s.trace ≡ true

  launched-later :
      (c : Call) (pid : ℕ) (t : Trace)
      → launched_before pid t ≡ true
      → launched_before pid (c ∷ t) ≡ true
  launched-later c pid t h = ground arith

  verified-later :
      (c : Call) (pid : ℕ) (t : Trace)
      → verified_before pid t ≡ true
      → verified_before pid (c ∷ t) ≡ true
  verified-later c pid t h = ground arith

  -- What was launched or verified remains so.
  pub record Grows (t u : Trace) : Type 0 where
    pub launched : (pid : ℕ) → launched_before pid t ≡ true → launched_before pid u ≡ true
    pub verified : (pid : ℕ) → verified_before pid t ≡ true → verified_before pid u ≡ true

  pub Grows-self : (t : Trace) → Grows t t
  Grows-self t = record { launched = λ p h. h; verified = λ p h. h }

  pub Grows-trans : (t u v : Trace) → Grows t u → Grows u v → Grows t v
  Grows-trans t u v g h = record {
    launched = λ p k. h.launched p (g.launched p k);
    verified = λ p k. h.verified p (g.verified p k);
  }

  Grows-call : (c : Call) (t : Trace) → Grows t (c ∷ t)
  Grows-call c t = record {
    launched = λ p h. launched-later c p t h;
    verified = λ p h. verified-later c p t h;
  }

-- What an action may rely on: nothing, that the identity of a group was verified, that the group may
-- be signalled, or that it was launched.
pub data Grant : Type 0 where
  nothing : Grant
  verified launched allowed : ℕ → Grant

module _ (x : System) (d : Definition) where
  abbrev pub granted : Grant → Trace → Bool
  granted nothing t = true
  granted (verified pid) t = verified_before x d pid t
  granted (launched pid) t = launched_before x d pid t
  granted (allowed pid) t = may_signal x d pid t

  granted-Grows :
      (g : Grant) (t u : Trace) → Grows x d t u → granted g t ≡ true → granted g u ≡ true
  granted-Grows nothing t u h k = refl
  granted-Grows (verified pid) t u h k = h.verified pid k
  granted-Grows (launched pid) t u h k = h.launched pid k
  granted-Grows (allowed pid) t u h k = elim (Bool-cases (launched_before x d pid t)) [
    | inl l ↦ ground (arith, h.launched pid l)
    | inr l ↦ ground (arith, k, l, h.verified pid (ground (arith, k, l)))
  ]

  -- What an action leaves, whether it returns or raises.
  pub record Left (t : Trace) (s : DaemonSupervisor) : Type 0 where
    pub careful : IsCareful x d s
    pub grows : Grows x d t s.trace

  pub record Keeps (g : Grant) {A : Type 0} (m : M A) : Type 0 where
    pub runs :
        (s : DaemonSupervisor) → IsCareful x d s → granted g s.trace ≡ true → Left s.trace (m s).1

  pub Left-self : (s : DaemonSupervisor) → IsCareful x d s → Left s.trace s
  Left-self s h = record { careful = h; grows = Grows-self x d s.trace }

  pub Left-call :
      (c : Call) (s : DaemonSupervisor) (f : Option DaemonLifecycleRecord)
      → IsCareful x d s
      → permitted x d c s.trace ≡ true
      → Left s.trace (record { file = f; child = s.child; trace = c ∷ s.trace })
  Left-call c s f h p = record {
    careful = record { signals = ground (arith, p, h.signals); child = kept s.child h.child };
    grows = Grows-call x d c s.trace;
  }
    where
      kept :
          (o : Option ℕ)
          → child_launched x d o s.trace ≡ true
          → child_launched x d o (c ∷ s.trace) ≡ true
      kept none k = refl
      kept (some pid) k = launched-later x d c pid s.trace k

  pub Keeps-pure : (g : Grant) {A : Type 0} (a : A) → Keeps g (pure a)
  unfolding pure
  Keeps-pure g a = record { runs = λ s h k. Left-self s h }

  pub Keeps-raise : (g : Grant) {A : Type 0} (e : DaemonError) → Keeps g {A = A} (raise e)
  unfolding raise
  Keeps-raise g e = record { runs = λ s h k. Left-self s h }

  pub Keeps-choose :
      (g : Grant) {A : Type 0} (b : Bool) (m n : M A)
      → (b ≡ true → Keeps g m)
      → (b ≡ false → Keeps g n)
      → Keeps g (choose b m n)
  unfolding choose
  Keeps-choose g true m n h k = h refl
  Keeps-choose g false m n h k = k refl

  continue-Left :
      (g : Grant) {A B : Type 0} (t : Trace) (r : Except DaemonError B × DaemonSupervisor)
      (f : B → M A)
      → Left t r.1
      → granted g r.1.trace ≡ true
      → ((b : B) → Keeps g (f b))
      → Left t (continue_with f r).1
  unfolding continue_with
  continue-Left g t (returned b, s) f l k h =
      let u = (h b).runs s l.careful k in
      record { careful = u.careful; grows = Grows-trans x d t s.trace _ l.grows u.grows }
  continue-Left g t (thrown e, s) f l k h = l

  pub Keeps-bind :
      (g : Grant) {A B : Type 0} (m : M B) (f : B → M A)
      → Keeps g m
      → ((b : B) → Keeps g (f b))
      → Keeps g (m >>= f)
  unfolding ◌>>=◌
  Keeps-bind g m f h k = record {
    runs = λ s c q.
        let l = h.runs s c q in
        continue-Left g s.trace (m s) f l (granted-Grows g s.trace (m s).1.trace l.grows q) k;
  }

  pub Keeps-then :
      (g : Grant) {A : Type 0} (m : M (Unit {0})) (n : M A)
      → Keeps g m
      → Keeps g n
      → Keeps g (m >> n)
  unfolding ◌>>◌
  Keeps-then g m n h k = Keeps-bind g m (λ _. n) h (λ _. k)

  pub Keeps-attempt : (g : Grant) {A : Type 0} (m : M A) → Keeps g m → Keeps g (attempt m)
  unfolding attempt
  Keeps-attempt g m h = record { runs = λ s c q. h.runs s c q }

  -- What the state says may be used.
  pub Keeps-get :
      (g : Grant) {A : Type 0} (f : DaemonSupervisor → M A)
      → ((s : DaemonSupervisor)
          → IsCareful x d s
          → granted g s.trace ≡ true
          → Left s.trace (f s s).1)
      → Keeps g (get >>= f)
  unfolding get ◌>>=◌ continue_with
  Keeps-get g f h = record { runs = h }

  pub Keeps-ask :
      (g : Grant) {A : Type 0} (c : Call) (answer : Trace → A)
      → ((t : Trace) → granted g t ≡ true → permitted x d c t ≡ true)
      → Keeps g (ask c answer)
  unfolding ask
  Keeps-ask g c answer p = record { runs = λ s h k. Left-call c s s.file h (p s.trace k) }

  -- An action that relies on less.
  pub Keeps-weaker :
      (g k : Grant) {A : Type 0} (m : M A)
      → ((t : Trace) → granted g t ≡ true → granted k t ≡ true)
      → Keeps k m
      → Keeps g m
  Keeps-weaker g k m w h = record { runs = λ s c q. h.runs s c (w s.trace q) }
