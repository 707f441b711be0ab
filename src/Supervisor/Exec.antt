-- ===== src/Supervisor/Exec.antt =====
-- The statements of the supervisor's methods: an action may raise, and keeps what it did before.

use agent_session_harness.Prelude.{ℕ, Bool, true, false, Option, ◌∷◌}
use agent_session_harness.Supervisor.State.{
  Supervisor, Snapshot, Phase, blocked, ManagedProcess, Call, effect, persist, read_clock, Effect,
  Status, Trace,
}
use agent_session_harness.Supervisor.World.{World, Answer, answered, raised, Fault}

-- `diverged` is the model's own: the fuel of a loop ran out.
pub data Error : Type 0 where
  fault : Fault → Error
  diverged : Error

pub data Result {ℓ} (A : Type ℓ) : Type ℓ where
  ok : A → Result A
  err : Error → Result A

abbrev pub M : Type 0 → Type 0
M A = Supervisor → Result A × Supervisor

unfoldable pub pure : {A : Type 0} → A → M A
pure a s = (ok a, s)

unfoldable pub continue_with :
    {A B : Type 0} → (A → M B) → Result A × Supervisor → Result B × Supervisor
continue_with f (ok a, s) = f a s
continue_with f (err e, s) = (err e, s)

infixl 5 ◌>>=◌ ◌>>◌
unfoldable pub ◌>>=◌ : {A B : Type 0} → M A → (A → M B) → M B
◌>>=◌ m f s = continue_with f (m s)

unfoldable pub ◌>>◌ : {B : Type 0} → M (Unit {0}) → M B → M B
unfolding ◌>>=◌
◌>>◌ m k = m >>= λ _. k

-- if b: m else: n
unfoldable pub choose : {A : Type 0} → Bool → M A → M A → M A
choose true m n = m
choose false m n = n

unfoldable pub raise : {A : Type 0} → Fault → M A
raise f s = (err (fault f), s)

unfoldable pub fail : {A : Type 0} → Error → M A
fail e s = (err e, s)

-- `try: … except …`: what the body raised is handed to the code after it.
unfoldable pub attempt : {A : Type 0} → M A → M (Result A)
attempt m s = (ok (m s).0, (m s).1)

unfoldable pub get : M Supervisor
get s = (ok s, s)

unfoldable pub to_result : {A : Type 0} → Answer A → Result A
to_result (answered a) = ok a
to_result (raised f) = err (fault f)

-- One call of a collaborator: it is noted in the trace, and answers by what was done before.
unfoldable pub ask : {A : Type 0} → Call → (Trace → Answer A) → M A
unfolding to_result
ask c answer s = (to_result (answer s.trace), record s { trace = c ∷ s.trace })

-- `_effect`
unfoldable pub note : Effect → Status → ℕ → M (Unit {0})
note e status generation s = (ok tt, record s { trace = effect e status generation ∷ s.trace })

-- `self.snapshot = self.snapshot.model_copy(update=…)`
unfoldable pub update : (Snapshot → Snapshot) → M (Unit {0})
update f s = (ok tt, record s { snapshot = f s.snapshot })

-- `_persist`
unfoldable pub save : M (Unit {0})
save s = (ok tt, record s { disk = s.snapshot; trace = persist s.snapshot ∷ s.trace })

-- `self.current_process = …`
unfoldable pub set_current : Option ManagedProcess → M (Unit {0})
set_current p s = (ok tt, record s { current_process = p })

unfoldable pub set_abort_pending : Bool → M (Unit {0})
set_abort_pending b s = (ok tt, record s { successor_abort_pending = b })

-- `_now`
unfoldable pub now : World → M ℕ
now w s = (ok (w.clock s.trace), record s { trace = read_clock ∷ s.trace })

-- `_set_phase`
unfoldable pub set_phase : Phase → M (Unit {0})
set_phase phase = do update (λ snapshot. record snapshot { phase = phase }); save

-- `_persist_blocked`
unfoldable pub persist_blocked : M (Unit {0})
persist_blocked = do update (λ snapshot. record snapshot { phase = blocked }); save
