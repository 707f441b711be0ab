-- ===== src/Supervisor/Start/History.antt =====
-- supervisor.py: the history of a supervisor under any sequence of requests.
use agent_session_harness.Prelude.{
  ℕ, ◌+◌, ◌≡◌, ◌≢◌, refl, Bool, true, some, List, [], ◌∷◌, ◌++◌, any, arith, ◌&&◌, ap, sym, ◌∙◌,
}
use agent_session_harness.Supervisor.State.{
  Trace, Call, effect, stop_effect, fence_effect, finished, Settings, Supervisor, claim_task,
  start_process, running,
}
use agent_session_harness.Supervisor.World.{World}
use agent_session_harness.Supervisor.Exec.{err, diverged}
use agent_session_harness.Supervisor.Journal.{
  IsSound, seen_dead, is_ordered, allowed, checkpoint_verified, stop_done, fence_done, stop_seen,
  fence_granted, claim_granted,
}
use agent_session_harness.Supervisor.Sound.{accounted-plain}
use agent_session_harness.Supervisor.Keeps.{
  Keeps-pure, Keeps-choose, Keeps-bind, Keeps-then, Keeps-get, Keeps-now, Keeps-ask, Keeps-note,
  Keeps-update, Keeps-save, Keeps-current, Keeps,
}
use agent_session_harness.Supervisor.Tick.Order.{cleanup-Keeps, ensure-Keeps, tick-Keeps, outcome}
use agent_session_harness.Supervisor.Acknowledge.Sound.{acknowledge-Keeps}
use agent_session_harness.Supervisor.Start.{
  first_claim, first_launch, start_unlocked, Request, start, tick, acknowledge, fresh_supervisor,
  serve, serve_all,
}

module _ (w : World) (settings : Settings) where
  first_claim-Keeps : Keeps w (first_claim w settings)
  unfolding first_claim
  first_claim-Keeps = Keeps-then w _ _ (Keeps-save w) (
      Keeps-then w _ _ (Keeps-note w _ _ _ (λ t. refl)) (
        Keeps-now w _ (λ at. Keeps-bind w _ _ (Keeps-ask w (claim_task 0) _ (λ t. refl)) (λ claim.
          Keeps-then w _ _ (Keeps-update w _ (λ s t h. refl))
            (Keeps-then w _ _ (Keeps-save w) (Keeps-note w _ _ _ (λ t. refl)))))))

  first_launch-Keeps : Keeps w (first_launch w settings)
  unfolding first_launch
  first_launch-Keeps = Keeps-then w _ _ (Keeps-note w _ _ _ (λ t. refl)) (
      Keeps-bind w _ _ (Keeps-ask w (start_process 0) _ (λ t. refl)) (λ p.
        Keeps-then w _ _ (Keeps-current w (some p)) (
          Keeps-then w _ _
            (Keeps-update w _ (λ s t h.
              accounted-plain w s (record s { phase = running; process = some p }) t refl refl h))
            (Keeps-then w _ _ (Keeps-save w) (Keeps-note w _ _ _ (λ t. refl))))))

  start-Keeps : Keeps w (start_unlocked w settings)
  unfolding start_unlocked
  start-Keeps = Keeps-get w _ (λ s. Keeps-choose w _ _ _ (cleanup-Keeps w settings) (
      Keeps-then w _ _ (Keeps-choose w _ _ _ first_claim-Keeps (Keeps-pure w tt))
        (Keeps-get w _ (λ t. Keeps-choose w _ _ _ first_launch-Keeps (ensure-Keeps w settings)))))

  serve-Keeps : (r : Request) → Keeps w (serve w settings r)
  unfolding serve
  serve-Keeps start = start-Keeps
  serve-Keeps (tick activity sample) = tick-Keeps w settings activity sample
  serve-Keeps (acknowledge g f c pid) = acknowledge-Keeps w settings g f c pid

  serve-IsSound :
      (r : Request) (s : Supervisor)
      → IsSound w s
      → IsSound w (serve w settings r s).1 × ((serve w settings r s).0 ≢ err diverged)
  serve-IsSound r s h = outcome w settings _ ((serve-Keeps r).runs s h).holds

  -- Every request to a supervisor whose history is in order, a start, a tick or an acknowledgement,
  -- leaves its history in order.
  pub serve_all-IsSound :
      (requests : List Request) (s : Supervisor)
      → IsSound w s
      → IsSound w (serve_all w settings requests s)
  unfolding serve_all
  serve_all-IsSound [] s h = h
  serve_all-IsSound (r ∷ rs) s h =
      serve_all-IsSound rs (serve w settings r s).1 (serve-IsSound r s h).0

  pub fresh-IsSound : IsSound w fresh_supervisor
  fresh-IsSound = record { ordered = refl; memory = refl; disk = refl }

  ordered-at :
      (later : Trace) (c : Call) (earlier : Trace)
      → is_ordered w (later ++ c ∷ earlier) ≡ true
      → allowed w c earlier ≡ true
  ordered-at [] c earlier h = ground arith
  ordered-at (d ∷ later) c earlier h = ordered-at later c earlier (rest (allowed w d _) h)
    where
      rest : {b : Bool} (a : Bool) → (a && b) ≡ true → b ≡ true
      rest a h = ground arith

  ordered-after :
      (later : Trace) (c : Call) (earlier : Trace)
      → is_ordered w (later ++ c ∷ earlier) ≡ true
      → is_ordered w earlier ≡ true
  ordered-after [] c earlier h = ground arith
  ordered-after (d ∷ later) c earlier h = ordered-after later c earlier (rest (allowed w d _) h)
    where
      rest : {b : Bool} (a : Bool) → (a && b) ≡ true → b ≡ true
      rest a h = ground arith

  -- In an ordered history what is reported was seen.
  stop_seen-ordered :
      (g : ℕ) (t : Trace)
      → is_ordered w t ≡ true
      → any (stop_done g) t ≡ true
      → stop_seen w g t ≡ true
  stop_seen-ordered g [] h k = k
  stop_seen-ordered g (effect stop_effect finished n ∷ t) h k =
      ground (arith, stop_seen-ordered g t (ground arith))
  stop_seen-ordered g (c ∷ t) h k = stop_seen-ordered g t (ground arith) k

  fence_granted-ordered :
      (g : ℕ) (t : Trace)
      → is_ordered w t ≡ true
      → any (fence_done g) t ≡ true
      → fence_granted w g t ≡ true
  fence_granted-ordered g [] h k = k
  fence_granted-ordered g (effect fence_effect finished n ∷ t) h k =
      ground (arith, fence_granted-ordered g t (ground arith))
  fence_granted-ordered g (c ∷ t) h k = fence_granted-ordered g t (ground arith) k

  -- Whatever a supervisor with an ordered history, such as a fresh one, is asked and however its
  -- collaborators answer or fail: before it starts the process of a successor generation, the
  -- checkpoint manager has returned a verified checkpoint for that generation, a probe has found a
  -- process dead just before the stop of its predecessor was reported, the coordinator has granted a
  -- fence just before that of its predecessor was reported, and the coordinator has granted the lease
  -- of the successor's generation, all of them earlier in the history.
  pub serve_all-launch :
      (requests : List Request) (s : Supervisor) (generation : ℕ) (later earlier : Trace)
      → IsSound w s
      → (serve_all w settings requests s).trace ≡ later ++ start_process (generation + 1) ∷ earlier
      → (checkpoint_verified w (generation + 1) earlier ≡ true)
        × (stop_seen w (generation + 1) earlier ≡ true)
        × (fence_granted w (generation + 1) earlier ≡ true)
        × (claim_granted w (generation + 1) earlier ≡ true)
  serve_all-launch requests s g later earlier sound e =
      let h = serve_all-IsSound requests s sound in
      let o = ap (is_ordered w) (sym e) ∙ h.ordered in
      let k = ordered-at later (start_process (g + 1)) earlier o in
      let before = ordered-after later (start_process (g + 1)) earlier o in
      ground (
        arith,
        stop_seen-ordered (g + 1) earlier before,
        fence_granted-ordered (g + 1) earlier before,
      )

  -- When a supervisor with an ordered history reports that it stopped a predecessor, the call just
  -- before was a probe that found the process dead.
  pub serve_all-stop :
      (requests : List Request) (s : Supervisor) (generation : ℕ) (later earlier : Trace)
      → IsSound w s
      → (serve_all w settings requests s).trace
        ≡ later ++ effect stop_effect finished generation ∷ earlier
      → seen_dead w earlier ≡ true
  serve_all-stop requests s g later earlier sound e =
      let h = serve_all-IsSound requests s sound in
      ordered-at later (effect stop_effect finished g) earlier
        (ap (is_ordered w) (sym e) ∙ h.ordered)

  -- When a supervisor with an ordered history asks for the lease of a successor generation, it has
  -- reported the fence of the predecessor before, and the coordinator had granted a fence just before
  -- that report.
  pub serve_all-claim :
      (requests : List Request) (s : Supervisor) (generation : ℕ) (later earlier : Trace)
      → IsSound w s
      → (serve_all w settings requests s).trace ≡ later ++ claim_task (generation + 1) ∷ earlier
      → fence_granted w (generation + 1) earlier ≡ true
  serve_all-claim requests s g later earlier sound e =
      let h = serve_all-IsSound requests s sound in
      let o = ap (is_ordered w) (sym e) ∙ h.ordered in
      let k = ordered-at later (claim_task (g + 1)) earlier o in
      fence_granted-ordered (g + 1) earlier (ordered-after later (claim_task (g + 1)) earlier o)
        (ground arith)
