-- ===== src/Supervisor/Shutdown/Released.antt =====
-- supervisor.py: what a shutdown that returns has written.
use agent_session_harness.Prelude.{
  ℕ, ◌≡◌, refl, Bool, true, false, Option, none, some, arith, ◌∙◌, ◌⊎◌, inl, [], ◌∷◌, ap, subst,
}
use agent_session_harness.Supervisor.State.{
  Settings, Supervisor, Snapshot, ManagedProcess, ClaimHandle, Trace, Effect, Status, effect,
  persist, fence_claim, blocked,
}
use agent_session_harness.Supervisor.World.{
  World, Answer, answered, raised, Fault, stale_owner, runtime, value, other,
}
use agent_session_harness.Supervisor.Exec.{Result, ok, err, fault}
use agent_session_harness.Supervisor.Post.{
  Runs, Runs-pure, Runs-raise, Runs-fail, Runs-choose, Runs-ask, Runs-note, Runs-current, Runs-then,
  Runs-bind, get-bind, attempt-bind, update-then, save-then, note-then, noted, Post,
}
use agent_session_harness.Supervisor.Tick.{is_completed}
use agent_session_harness.Supervisor.Shutdown.{
  after_fence, release_claim_of, forget, close, end_claim, end_supervision, shutdown_unlocked,
}
use agent_session_harness.Supervisor.Shutdown.Claim.{Any, HasClaim, end_process-HasClaim}

-- The coordinator has fenced the claim, or has said that another owner holds it by now.
abbrev pub is_settled : Answer (Unit {0}) → Bool
is_settled (answered u) = true
is_settled (raised stale_owner) = true
is_settled (raised f) = false

-- The coordinator was asked to fence this claim, and the answer settled it.
abbrev pub IsFenced : World → ClaimHandle → Trace → Type 0
IsFenced w c [] = ⊥
IsFenced w c (fence_claim d ∷ t) = ((d ≡ c) × (is_settled (w.fence t d) ≡ true)) ⊎ IsFenced w c t
IsFenced w c (_ ∷ t) = IsFenced w c t

abbrev pub WasFenced : World → Option ClaimHandle → Trace → Type 0
WasFenced w none t = Unit
WasFenced w (some c) t = IsFenced w c t

-- The claim is fenced, and in memory and on disk the supervisor is blocked, without a claim and
-- without a process.
pub record IsReleased (w : World) (held : Option ClaimHandle) (s : Supervisor) : Type 0 where
  pub fenced : WasFenced w held s.trace
  pub phase : s.snapshot.phase ≡ blocked
  pub claim : s.snapshot.claim ≡ none
  pub owner : s.snapshot.owner_session_id ≡ none
  pub process : s.snapshot.process ≡ none
  pub current : s.current_process ≡ none
  pub written : s.disk ≡ s.snapshot

fenced-effect :
    (w : World) (held : Option ClaimHandle) (e : Effect) (status : Status) (g : ℕ) (t : Trace)
    → WasFenced w held t
    → WasFenced w held (effect e status g ∷ t)
fenced-effect w none e status g t h = tt
fenced-effect w (some c) e status g t h = h

fenced-persist :
    (w : World) (held : Option ClaimHandle) (r : Snapshot) (t : Trace)
    → WasFenced w held t
    → WasFenced w held (persist r ∷ t)
fenced-persist w none r t h = tt
fenced-persist w (some c) r t h = h

IsReleased-noted :
    (w : World) (held : Option ClaimHandle) (e : Effect) (status : Status) (g : ℕ) (s : Supervisor)
    → IsReleased w held s
    → IsReleased w held (noted (effect e status g) s)
IsReleased-noted w held e status g s h = record {
  fenced = fenced-effect w held e status g s.trace h.fenced;
  phase = h.phase;
  claim = h.claim;
  owner = h.owner;
  process = h.process;
  current = h.current;
  written = h.written;
}

on_return :
    (w : World) (held : Option ClaimHandle) (r : Result (Unit {0}) × Supervisor)
    → Post (λ _ t. IsReleased w held t) Any r
    → r.0 ≡ ok tt
    → IsReleased w held r.1
on_return w held (ok u, t) h e = h
on_return w held (err x, t) h e = absurd (cc)

module _ (w : World) where
  -- What the answer to a fence lets the supervisor conclude.
  abbrev Concludes : Result (Unit {0}) → Type 0 → Type 0
  Concludes (ok u) P = P
  Concludes (err (fault stale_owner)) P = P
  Concludes (err e) P = Unit

  -- The process that the object holds is not touched by the release of the claim, which is reported
  -- only if the claim is fenced.
  abbrev Held : Option ManagedProcess → Option ClaimHandle → Bool → Supervisor → Type 0
  Held p c released t = (t.current_process ≡ p) × (released ≡ true → WasFenced w c t.trace)

  after_fence-Held :
      (r : Result (Unit {0})) (p : Option ManagedProcess) (c : Option ClaimHandle) (s : Supervisor)
      → s.current_process ≡ p
      → Concludes r (WasFenced w c s.trace)
      → Runs (Held p c) Any (after_fence w r) s
  unfolding after_fence
  after_fence-Held (ok a) p c s h k = Runs-pure _ _ true s (h, λ _. k)
  after_fence-Held (err (fault stale_owner)) p c s h k = Runs-pure _ _ true s (h, λ _. k)
  after_fence-Held (err (fault runtime)) p c s h k = Runs-pure _ _ false s (h, λ e. absurd (cc))
  after_fence-Held (err e) p c s h k = Runs-fail _ _ e s tt

  raised-Concludes :
      (c : ClaimHandle) (x : Fault) (t : Trace)
      → w.fence t c ≡ raised x
      → Concludes (err (fault x)) (IsFenced w c (fence_claim c ∷ t))
  raised-Concludes c stale_owner t e = inl (refl, ap is_settled e)
  raised-Concludes c runtime t e = tt
  raised-Concludes c value t e = tt
  raised-Concludes c other t e = tt

  release-Held :
      (c : Option ClaimHandle) (g : ℕ) (p : Option ManagedProcess) (s : Supervisor)
      → s.current_process ≡ p
      → Runs (Held p c) Any (release_claim_of w c g) s
  unfolding release_claim_of
  release-Held none g p s h = Runs-pure _ _ true s (h, λ _. tt)
  release-Held (some c) g p s h = note-then _ _ _ _ g _ s (
      attempt-bind _ _ (λ r t. (t.current_process ≡ p) × Concludes r (IsFenced w c t.trace)) _ _ _
        (Runs-ask _ _ _ _ _ (λ _ e. (h, inl (refl, ap is_settled e)))
          (λ x e. (h, raised-Concludes c x _ e)))
        (λ r t i. after_fence-Held r p (some c) t i.0 i.1))

  close-IsReleased :
      (held : Option ClaimHandle) (released had uncleared : Bool) (g : ℕ) (s : Supervisor)
      → (released ≡ true → uncleared ≡ false → IsReleased w held s)
      → Runs (λ _ t. IsReleased w held t) Any (close w released had uncleared g) s
  unfolding close
  close-IsReleased held released had uncleared g s h =
      Runs-then _ _ (λ t. uncleared ≡ false → IsReleased w held t) _ _ s
        (Runs-choose _ _ released _ _ s (λ e. Runs-pure _ _ tt s (h e))
          (λ e. Runs-raise _ _ _ s tt))
        (λ t i.
          Runs-then _ _ (λ u. uncleared ≡ false → IsReleased w held u) _ _ t
            (Runs-choose _ _ had _ _ t
              (λ e. Runs-note _ _ _ _ _ t (λ f. IsReleased-noted w held _ _ _ t (i f)))
              (λ e. Runs-pure _ _ tt t i))
            (λ u j.
              Runs-choose _ _ uncleared _ _ u (λ e. Runs-raise _ _ _ u tt)
                (λ e. Runs-pure _ _ tt u (j e))))

  -- The end of a shutdown returns only if the claim is released and the exit record cleared.
  end_claim-IsReleased :
      (uncleared : Bool) (s : Supervisor)
      → (uncleared ≡ false → s.current_process ≡ none)
      → Runs (λ _ t. IsReleased w s.snapshot.claim t) Any (end_claim w uncleared) s
  unfolding end_claim forget
  end_claim-IsReleased uncleared s h = get-bind _ _ _ s (
      Runs-bind _ _ (Held s.current_process s.snapshot.claim) _ _ s
        (release-Held s.snapshot.claim s.snapshot.generation s.current_process s refl)
        (λ released t i. update-then _ _ _ _ t (
          save-then _ _ _ _ (
            close-IsReleased s.snapshot.claim released _ uncleared _ _ (λ p q. record {
              fenced = fenced-persist w s.snapshot.claim _ t.trace (i.1 p);
              phase = refl;
              claim = ground (arith, p);
              owner = ground (arith, p);
              process = ground (arith, q);
              current = i.0 ∙ h q;
              written = refl;
            })))))

  end_supervision-IsReleased :
      (s : Supervisor) → Runs (λ _ t. IsReleased w s.snapshot.claim t) Any (end_supervision w) s
  unfolding end_supervision
  end_supervision-IsReleased s =
      let c = s.snapshot.claim in
      get-bind _ _ _ s (
        Runs-bind _ _ (HasClaim w c) _ _ s (end_process-HasClaim w _ _ s) (λ uncleared t k.
          Runs-then _ _
            (λ u. (uncleared ≡ false → u.current_process ≡ none) × (u.snapshot.claim ≡ c)) _ _ t
            (Runs-choose _ _ uncleared _ _ t (λ e. Runs-pure _ _ tt t ((λ f. absurd (cc)), k))
              (λ e. Runs-current _ _ none t ((λ f. refl), k)))
            (λ u j.
              subst (λ d. Runs (λ _ v. IsReleased w d v) Any (end_claim w uncleared) u) j.1
                (end_claim-IsReleased uncleared u j.0))))

  -- A shutdown that returns, of a supervisor that has not completed, has released the claim: if it
  -- held one, its history has a call that asks the coordinator to fence this claim, which the
  -- coordinator did or answered by saying that another owner holds it by now; and in memory and on
  -- disk the supervisor is blocked and has no claim, no owner and no process.
  pub shutdown_unlocked-IsReleased :
      (settings : Settings) (s : Supervisor)
      → is_completed s.snapshot.phase ≡ false
      → (shutdown_unlocked w settings s).0 ≡ ok tt
      → IsReleased w s.snapshot.claim (shutdown_unlocked w settings s).1
  unfolding shutdown_unlocked
  shutdown_unlocked-IsReleased settings s c e =
      on_return w s.snapshot.claim _
        (get-bind _ _ _ s (
          Runs-choose _ _ _ _ _ s (λ d. absurd (ground (arith, c, d)))
            (λ _. end_supervision-IsReleased s))).holds
        e
