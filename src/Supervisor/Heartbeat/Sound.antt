-- ===== src/Supervisor/Heartbeat/Sound.antt =====
-- supervisor.py: `_heartbeat_if_due`, against the order of a rotation.
use agent_session_harness.Prelude.{ℕ, ◌≡◌, ◌≢◌, refl, ap, Bool, true, false, Option, none, some}
use agent_session_harness.Supervisor.State.{
  Supervisor, Settings, ManagedProcess, ClaimHandle, Call, read_clock, probe_alive, clear_exit,
  heartbeat_claim,
}
use agent_session_harness.Supervisor.World.{World, stale_owner, runtime, value, other}
use agent_session_harness.Supervisor.Exec.{Result, ok, err, Error, fault, diverged, persist_blocked}
use agent_session_harness.Supervisor.Post.{
  Runs, noted, Runs-pure, Runs-raise, Runs-fail, Runs-choose, Runs-ask, Runs-save, Runs-then,
  get-bind, now-bind, update-then, set_current-then, attempt-bind,
}
use agent_session_harness.Supervisor.Journal.{IsSound, checkpoint_verified, allowed}
use agent_session_harness.Supervisor.Sound.{
  save-Sound, Sound-plain, Sound-same, Sound-current, Sound-noted, Sound-saved, Fails,
  verified-grow,
}
use agent_session_harness.Supervisor.Heartbeat.{
  pass_io, reaped, reap_if_gone, reap_current, fail_closed, finish_heartbeat, beat,
  heartbeat_if_due,
}

-- What a heartbeat that returns leaves alone.
pub record Beaten (w : World) (s t : Supervisor) : Type 0 where
  pub sound : IsSound w t
  pub phase : t.snapshot.phase ≡ s.snapshot.phase
  pub generation : t.snapshot.generation ≡ s.snapshot.generation
  pub attempt : t.snapshot.successor_attempt ≡ s.snapshot.successor_attempt
  pub conversation : t.snapshot.conversation_id ≡ s.snapshot.conversation_id
  pub current : t.current_process ≡ s.current_process
  pub verified :
      (g : ℕ) → checkpoint_verified w g s.trace ≡ true → checkpoint_verified w g t.trace ≡ true

module _ (w : World) where
  pass_io-Runs :
      (e : Error) (s : Supervisor) → Fails w e s → Runs (λ _ t. IsSound w t) (Fails w) (pass_io e) s
  unfolding pass_io
  pass_io-Runs e s h =
      Runs-choose _ _ _ _ _ s (λ _. Runs-pure _ _ tt s h.0) (λ _. Runs-fail _ _ e s h)

  reaped-Runs :
      (r : Result (Unit {0})) (s : Supervisor)
      → IsSound w s
      → r ≢ err diverged
      → Runs (λ _ t. IsSound w t) (Fails w) (reaped w r) s
  unfolding reaped
  reaped-Runs (ok u) s h d = set_current-then _ _ none _ s (
      update-then _ _ _ _ _
        (save-Sound w _ (Sound-same w _ _ refl refl (Sound-current w s none h))))
  reaped-Runs (err e) s h d = pass_io-Runs e s (h, λ p. d (ap err p))

  reap_if_gone-Runs :
      (p : ManagedProcess) (r : Result Bool) (s : Supervisor)
      → IsSound w s
      → r ≢ err diverged
      → Runs (λ _ t. IsSound w t) (Fails w) (reap_if_gone w p r) s
  unfolding reap_if_gone
  reap_if_gone-Runs p (ok true) s h d = Runs-pure _ _ tt s h
  reap_if_gone-Runs p (ok false) s h d =
      attempt-bind _ _ (λ r t. IsSound w t × (r ≢ err diverged)) _ _ s
        (Runs-ask _ _ (clear_exit p) _ s (λ _ _. (Sound-noted w (clear_exit p) s h refl, λ e. cc))
          (λ _ _. (Sound-noted w (clear_exit p) s h refl, λ e. cc)))
        (λ r t k. reaped-Runs r t k.0 k.1)
  reap_if_gone-Runs p (err e) s h d = pass_io-Runs e s (h, λ q. d (ap err q))

  reap_current-Runs :
      (p : Option ManagedProcess) (s : Supervisor)
      → IsSound w s
      → Runs (λ _ t. IsSound w t) (Fails w) (reap_current w p) s
  unfolding reap_current
  reap_current-Runs none s h = Runs-pure _ _ tt s h
  reap_current-Runs (some p) s h =
      attempt-bind _ _ (λ r t. IsSound w t × (r ≢ err diverged)) _ _ s
        (Runs-ask _ _ (probe_alive p) _ s (λ _ _. (Sound-noted w (probe_alive p) s h refl, λ e. cc))
          (λ _ _. (Sound-noted w (probe_alive p) s h refl, λ e. cc)))
        (λ r t k. reap_if_gone-Runs p r t k.0 k.1)

  pub fail_closed-Runs :
      (s : Supervisor) → IsSound w s → Runs (λ _ t. IsSound w t) (Fails w) (fail_closed w) s
  unfolding fail_closed persist_blocked
  fail_closed-Runs s h =
      Runs-then _ _ (λ t. IsSound w t) _ _ s
        (update-then _ _ _ _ s (save-Sound w _ (Sound-plain w s _ refl refl h)))
        (λ t k. get-bind _ _ _ t (reap_current-Runs t.current_process t k))

  finish-Runs :
      (at : ℕ) (r : Result ClaimHandle) (s t : Supervisor)
      → Beaten w s t
      → r ≢ err diverged
      → Runs (λ _ u. Beaten w s u) (Fails w) (finish_heartbeat w at r) t
  unfolding finish_heartbeat
  finish-Runs at (ok refreshed) s t b d = update-then _ _ _ _ t (
      Runs-save _ _ _ (record {
        sound = Sound-saved w _ (Sound-same w t _ refl refl b.sound);
        phase = b.phase;
        generation = b.generation;
        attempt = b.attempt;
        conversation = b.conversation;
        current = b.current;
        verified = λ g h. b.verified g h;
      }))
  finish-Runs at (err (fault stale_owner)) s t b d =
      Runs-then _ _ (λ u. IsSound w u) _ _ t (fail_closed-Runs t b.sound)
        (λ u k. Runs-raise _ _ stale_owner u (k, λ e. cc))
  finish-Runs at (err (fault runtime)) s t b d = Runs-fail _ _ _ t (b.sound, λ e. cc)
  finish-Runs at (err (fault value)) s t b d = Runs-fail _ _ _ t (b.sound, λ e. cc)
  finish-Runs at (err (fault other)) s t b d = Runs-fail _ _ _ t (b.sound, λ e. cc)
  finish-Runs at (err diverged) s t b d = absurd (d refl)

  Beaten-refl : (s : Supervisor) → IsSound w s → Beaten w s s
  Beaten-refl s h = record {
    sound = h;
    phase = refl;
    generation = refl;
    attempt = refl;
    conversation = refl;
    current = refl;
    verified = λ g k. k;
  }

  Beaten-noted :
      (c : Call) (s t : Supervisor)
      → allowed w c t.trace ≡ true
      → Beaten w s t
      → Beaten w s (noted c t)
  Beaten-noted c s t a b = record {
    sound = Sound-noted w c t b.sound a;
    phase = b.phase;
    generation = b.generation;
    attempt = b.attempt;
    conversation = b.conversation;
    current = b.current;
    verified = λ g k. verified-grow w g c t.trace (b.verified g k);
  }

  beat-Runs :
      (settings : Settings) (force : Bool) (c : Option ClaimHandle) (s : Supervisor)
      → IsSound w s
      → Runs (λ _ u. Beaten w s u) (Fails w) (beat w settings force c) s
  unfolding beat
  beat-Runs settings force none s h = Runs-raise _ _ runtime s (h, λ e. cc)
  beat-Runs settings force (some c) s h =
      let b = Beaten-noted read_clock s s refl (Beaten-refl s h) in
      now-bind _ _ w _ s (
        get-bind _ _ _ _ (
          Runs-choose _ _ _ _ _ _ (λ _. Runs-pure _ _ tt _ b)
            (λ _.
              attempt-bind _ _ (λ r t. Beaten w s t × (r ≢ err diverged)) _ _ _
                (Runs-ask _ _ (heartbeat_claim c) _ _
                  (λ _ _. (Beaten-noted (heartbeat_claim c) s (noted read_clock s) refl b, λ e. cc))
                  (λ _ _.
                    (Beaten-noted (heartbeat_claim c) s (noted read_clock s) refl b, λ e. cc)))
                (λ r t k. finish-Runs (w.clock s.trace) r s t k.0 k.1))))

  -- A heartbeat keeps the invariant on every path, and changes nothing else that a rotation
  -- depends on when it returns.
  pub heartbeat-Runs :
      (settings : Settings) (force : Bool) (s : Supervisor)
      → IsSound w s
      → Runs (λ _ u. Beaten w s u) (Fails w) (heartbeat_if_due w settings force) s
  unfolding heartbeat_if_due
  heartbeat-Runs settings force s h = get-bind _ _ _ s (
      Runs-choose _ _ _ _ _ s (λ _. beat-Runs settings force s.snapshot.claim s h)
        (λ _. Runs-pure _ _ tt s (Beaten-refl s h)))
