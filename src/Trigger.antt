-- ===== src/Trigger.antt =====
-- internal/nodeagent/trigger: the scale-up trigger and the two scale-down decisions.
pub mod Decisions
mod Tests
use pp_vpa.Prelude.{Bool, true, false, ◌&&◌, ◌||◌, if◌then◌else◌}
use pp_vpa.Float.{Float, nought, one, ltf}
use pp_vpa.Psi.{Line}

pub data Reason : Type 0 where
  no_reason psi utilization buffer_drop no_peak_data peak_bound : Reason

pub record ScaleUpDecision : Type 0 where
  pub fire : Bool
  pub reason : Reason

pub record ScaleDownDecision (F : Type 0) : Type 0 where
  pub fire : Bool
  pub new_target : F
  pub reason : Reason

module _ {F : Type 0} ⦃float : Float F⦄ where
  open float use {le, add, mul, div, lit}

  unfoldable pub evaluate_scale_up : Line F → F → F → F → F → ScaleUpDecision
  evaluate_scale_up p psi_threshold utilized requests proactive_pct =
      if le psi_threshold p.avg10 && ltf nought psi_threshold
      then record { fire = true; reason = psi }
      else if ltf nought requests
          && le (div (mul requests proactive_pct) (lit 100 0)) utilized
          && ltf nought proactive_pct
      then record { fire = true; reason = utilization }
      else record { fire = false; reason = no_reason }

  -- ScaleDownDecision{}
  abbrev pub no_decision : ScaleDownDecision F
  no_decision = record { fire = false; new_target = nought; reason = no_reason }

  unfoldable pub evaluate_cpu_scale_down : F → F → F → ScaleDownDecision F
  evaluate_cpu_scale_down utilized watermark buffer_drop_pct =
      let threshold = mul watermark (float.sub one (div buffer_drop_pct (lit 100 0))) in
      if le watermark nought || le buffer_drop_pct nought
      then no_decision
      else if le utilized threshold
      then record { fire = true; new_target = utilized; reason = buffer_drop }
      else no_decision

  unfoldable pub evaluate_memory_scale_down : F → F → F → ScaleDownDecision F
  evaluate_memory_scale_down proposed observed_peak margin_pct =
      let floor = mul observed_peak (add one (div margin_pct (lit 100 0))) in
      if le observed_peak nought
      then record { fire = ltf nought proposed; new_target = proposed; reason = no_peak_data }
      else record {
        fire = true;
        new_target = if ltf proposed floor then floor else proposed;
        reason = peak_bound;
      }
