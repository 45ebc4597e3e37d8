-- ===== src/Trigger/Decisions.antt =====
-- When the triggers fire, and what they propose.
use pp_vpa.Prelude.{◌≡◌, ◌↔◌, ◌⊎◌, true, false, arith}
use pp_vpa.Float.{Float, Ieee, ◌≼◌, IsNum, nought, one, ltf, le_of_not-lt}
use pp_vpa.Psi.{Line}
use pp_vpa.Trigger.{evaluate_scale_up, evaluate_cpu_scale_down, evaluate_memory_scale_down, psi}

module _ {F : Type 0} ⦃float : Float F⦄ where
  open float use {le, add, mul, div, lit}

  -- EvaluateScaleUp fires exactly where PSI is at or above a positive threshold, or usage is at or
  -- above the positive percentage of positive requests; its reason is PSI exactly in the first
  -- case.
  pub evaluate_scale_up_iff :
      (p : Line F) (threshold u requests pct : F)
      → let d = evaluate_scale_up p threshold u requests pct in
        let by_psi = (threshold ≼ p.avg10) × (ltf nought threshold ≡ true) in
        let by_use =
          (ltf nought requests ≡ true)
          × (div (mul requests pct) (lit 100 0) ≼ u)
          × (ltf nought pct ≡ true) in
        ((d.fire ≡ true) ↔ (by_psi ⊎ by_use)) × ((d.reason ≡ psi) ↔ by_psi)
  unfolding evaluate_scale_up
  evaluate_scale_up_iff p threshold u requests pct = ground arith

  -- EvaluateCPUScaleDown fires exactly where the watermark and the percentage are not `<= 0` and
  -- usage is at or below the watermark less that percentage; where it fires, the new target is the
  -- usage.
  pub evaluate_cpu_scale_down_iff :
      (u watermark pct : F)
      → let d = evaluate_cpu_scale_down u watermark pct in
        ((d.fire ≡ true) ↔ (
          (le watermark nought ≡ false)
          × (le pct nought ≡ false)
          × (u ≼ mul watermark (float.sub one (div pct (lit 100 0))))))
        × (d.fire ≡ true → d.new_target ≡ u)
  unfolding evaluate_cpu_scale_down
  evaluate_cpu_scale_down_iff u watermark pct = ground arith

  -- Where the observed peak is not `<= 0` and neither the proposal nor the peak with its margin is
  -- NaN, EvaluateMemoryScaleDown fires with a target that is one of these two and is below
  -- neither.
  pub evaluate_memory_scale_down_floor :
      (laws : Ieee F) (proposed peak pct : F)
      → let floor = mul peak (add one (div pct (lit 100 0))) in
        let d = evaluate_memory_scale_down proposed peak pct in
        le peak nought ≡ false
        → IsNum proposed
        → IsNum floor
        → (d.fire ≡ true)
          × (floor ≼ d.new_target)
          × (proposed ≼ d.new_target)
          × ((d.new_target ≡ proposed) ⊎ (d.new_target ≡ floor))
  unfolding evaluate_memory_scale_down
  evaluate_memory_scale_down_floor laws proposed peak pct p q r =
      ground (arith, le_of_not-lt laws proposed (mul peak (add one (div pct (lit 100 0)))) q r)
