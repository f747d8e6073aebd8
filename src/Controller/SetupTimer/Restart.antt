-- ===== src/Controller/SetupTimer/Restart.antt =====
-- A setup flow that starts again from the error state.
use mathlib.Core.Option.{some-ne-none}
use integration_home_assista.Prelude.{
  sym, arith, ℕ, String, List, [], ◌∷◌, ◌≡◌, ◌∙◌, false, Bool-cases, Option, none, Option-cases,
  inl, inr, All,
}
use integration_home_assista.Platform.{Platform}
use integration_home_assista.Api.{Codec, SetupDriver}
use integration_home_assista.Controller.Machine.{OperationModeState, setup_flow}
use integration_home_assista.Controller.State.{World, Controller, Timer}
use integration_home_assista.Controller.Setup.{setup_driver_msg}
use integration_home_assista.Controller.Setup.Start.{restarted}
use integration_home_assista.Controller.Step.{Reach}
use integration_home_assista.Controller.SetupTimer.{is_setup_timeout, IsNamed, IsTimed}
use integration_home_assista.Controller.SetupTimer.Flow.{setup_driver_msg-SetupTimed}
use integration_home_assista.Controller.SetupTimer.Reachable.{Reach-SetupTimed}

-- The message of a timer is no timeout of the setup.
abbrev IsOther : Timer → Type 0
IsOther t = is_setup_timeout t.message ≡ false

All-IsOther :
    (named : Option ℕ) (ts : List Timer) → named ≡ none → All (IsNamed named) ts → All IsOther ts
All-IsOther named [] e _ = tt
All-IsOther named (t ∷ ts) e (n, h) = (
  elim (Bool-cases (is_setup_timeout t.message)) [ inr q ↦ q | inl q ↦ cc (n q) ],
  All-IsOther named ts e h,
)

no_handle :
    (m : OperationModeState) (named : Option ℕ) (ts : List Timer)
    → IsTimed m named ts
    → m ≡ OperationModeState.setup_error
    → named ≡ none
no_handle m named ts h e = elim (Option-cases named) [
  | inl q ↦ q
  | inr (n, q) ↦ ground (arith, h.active (λ z. absurd (some-ne-none n (sym q ∙ z))))
]

module _ {p : Platform} {codec : Codec p} (w : World p) where
  -- In every reachable state, a setup request in the error state starts a setup flow without a
  -- timeout: the controller has no handle of a setup timer, and none is pending.
  pub setup_driver_msg_untimed :
      (id : String) (data_ : SetupDriver) (c : Controller p)
      → Reach codec c
      → c.machine ≡ OperationModeState.setup_error
      → let d = (setup_driver_msg w id data_ c).1 in
        (d.machine ≡ setup_flow) × (d.setup_timeout ≡ none) × All IsOther d.timers
  setup_driver_msg_untimed id data_ c r e =
      let h = Reach-SetupTimed r in
      let k = setup_driver_msg-SetupTimed w id data_ c h in
      let (flow, kept) = restarted w id data_ c e in
      let same = kept ∙ no_handle c.machine c.setup_timeout c.timers h.timed e in
      (flow, same, All-IsOther _ _ same k.timed.is_named)
