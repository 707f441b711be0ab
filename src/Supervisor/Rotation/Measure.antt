-- ===== src/Supervisor/Rotation/Measure.antt =====
-- supervisor.py: the rounds left to `_advance_rotation`, and what each phase has behind it.
use mathlib.Core.Path.{subst}
use agent_session_harness.Prelude.{
  ℕ, ◌+◌, ◌-◌, ◌<◌, ◌≡◌, ap, String, Bool, true, false, not, ◌&&◌, arith, ◌∙◌, sym, ◌∷◌,
}
use agent_session_harness.Supervisor.State.{
  Trace, Phase, checkpointing, checkpointed, stopping, stopped, fencing, fenced, claiming,
  launching, Snapshot, Supervisor, Settings, make_checkpoint,
}
use agent_session_harness.Supervisor.World.{World, Receipt, answered}
use agent_session_harness.Supervisor.Journal.{
  IsSound, staged, checkpoint_verified, accounted, handed_over, is_verified,
}

-- How many rounds the loop can still make: one for each phase, and one for each retry left.
abbrev pub rounds_left : ℕ → Phase → ℕ → ℕ
rounds_left limit checkpointing attempt = limit + 9
rounds_left limit checkpointed attempt = limit + 8
rounds_left limit stopping attempt = limit + 7
rounds_left limit stopped attempt = limit + 6
rounds_left limit fencing attempt = limit + 5
rounds_left limit fenced attempt = limit + 4
rounds_left limit claiming attempt = limit + 3
rounds_left limit launching attempt = limit - attempt + 1
rounds_left limit _ attempt = 0

pub from-not : (b : Bool) → not b ≡ false → b ≡ true
from-not b h = ground arith

module _ (w : World) (settings : Settings) where
  pub handed-of :
      (s : Snapshot) (t : Trace) → accounted w s t ≡ true → handed_over w s.generation t ≡ true
  handed-of s t h = ground arith

  pub staged-of :
      (s : Snapshot) (t : Trace)
      → accounted w s t ≡ true
      → staged w s.phase (s.generation + 1) t ≡ true
  staged-of s t h = ground arith

  pub account :
      (p : Phase) (g : ℕ) (t : Trace)
      → handed_over w g t ≡ true
      → staged w p (g + 1) t ≡ true
      → (handed_over w g t && staged w p (g + 1) t) ≡ true
  account p g t h k = ground arith

  abbrev pub remaining : Snapshot → ℕ
  remaining s = rounds_left settings.successor_retry_limit s.phase s.successor_attempt

  -- What a round leaves when the loop had `bound` rounds left.
  abbrev pub Round : ℕ → Bool → Supervisor → Type 0
  Round bound more t = IsSound w t × (more ≡ true → remaining t.snapshot < bound)

  pub staged-in :
      (p : Phase) (s : Snapshot) (t : Trace)
      → s.phase ≡ p
      → accounted w s t ≡ true
      → staged w p (s.generation + 1) t ≡ true
  staged-in p s t e h = ap (λ q. staged w q (s.generation + 1) t) (sym e) ∙ staged-of s t h

  pub remaining-in :
      (p : Phase) (s : Snapshot) (bound : ℕ)
      → s.phase ≡ p
      → rounds_left settings.successor_retry_limit p s.successor_attempt < bound
      → remaining s < bound
  remaining-in p s bound e h =
      subst (λ q. rounds_left settings.successor_retry_limit q s.successor_attempt < bound) (sym e)
        h

  pub verified-now :
      (predecessor : String) (n : ℕ) (t : Trace) (receipt : Receipt)
      → w.checkpoint t predecessor n ≡ answered receipt
      → receipt.verified ≡ true
      → checkpoint_verified w n (make_checkpoint predecessor n ∷ t) ≡ true
  verified-now predecessor n t receipt e v =
      let k : is_verified (w.checkpoint t predecessor n) ≡ true = ap is_verified e ∙ v in
      ground arith
