-- ===== src/Eviction.antt =====
-- internal/eviction: the anomaly handler, and the budgeted fallback for pods that cannot be resized in place.
pub mod Budget
pub mod Progress
pub mod Tests
use pp_vpa.Prelude.{
  ℕ, suc, ◌+◌, ◌*◌, ◌^◌, Bool, true, false, ◌&&◌, not, Option, none, some, List, [], ◌∷◌, String,
  str_eq, if◌then◌else◌, Outcome, ok, err, panic,
}
use pp_vpa.Prelude.Int.{ℤ, pos, pos_part, ◌+ℤ◌, ltb_ℤ, int32}
use pp_vpa.Clock.{Time, after}
use pp_vpa.Kube.{ApiError, is_not_found, IntOrString, int_value, string_value, Condition, is_true}
use pp_vpa.Api.{Ppvpa, Prr}
use pp_vpa.Cluster.{
  Pod, Write, patch_ppvpa_status, evict_pod, Client, Call, done, fail, read, attempt, issue, ◌>>=◌,
}

abbrev pub annotation_surge_pod : String
annotation_surge_pod = "pp-vpa.brycemclachlan.me/surge"

-- An index of a map; an absent key reads as "".
abbrev pub annotation : List (String × String) → String → String
annotation [] key = ""
annotation ((k, v) ∷ rest) key = if str_eq k key then v else annotation rest key

-- A condition of the type is present and true: hasCondition, conditionTrue, and podReady's loop.
abbrev pub has_condition : List Condition → String → Bool
has_condition [] t = false
has_condition (c ∷ cs) t =
    if str_eq c.condition_type t && is_true c.status then true else has_condition cs t

-- intstr.GetScaledValueFromIntOrPercent(b, base, roundUp); `none` is an error.
abbrev pub Scaling : Type 0
Scaling = IntOrString → ℤ → Bool → Option ℤ

abbrev or_zero : Option ℤ → ℤ
or_zero none = pos 0
or_zero (some x) = int32 x

-- defaultPercent(25), the only use of defaultPercent
abbrev pub default_percent : IntOrString
default_percent = string_value "25%"

unfoldable pub resolve_budget : Scaling → Option IntOrString → ℤ → IntOrString → ℤ
resolve_budget scaled none base dflt = or_zero (scaled dflt base true)
resolve_budget scaled (some b) base dflt = or_zero (scaled b base true)

-- `if temporaryReplicas > 0 { temporaryReplicas-- }`, and the patch.
abbrev pub less_one : ℤ → ℤ
less_one (pos (suc n)) = pos n
less_one n = n

module _ {Q : Type 0} where
  unfoldable pub pod_ready : Pod Q → Bool
  pod_ready p = has_condition p.conditions "Ready"

  unfoldable pub surge_loop : List (Pod Q) → Option (Pod Q)
  surge_loop [] = none
  surge_loop (p ∷ ps) =
      if str_eq (annotation p.meta.annotations annotation_surge_pod) "true"
      then some p
      else surge_loop ps

  abbrev pub surge_ready : Option (Pod Q) → Bool
  surge_ready none = false
  surge_ready (some pod) = pod_ready pod

  abbrev pub with_temporary : Ppvpa Q → ℤ → Ppvpa Q
  with_temporary ppvpa n = record ppvpa { status = record ppvpa.status { temporary_replicas = n } }

  -- burstTimeoutSeconds is positive, and it has passed since the PRR was created.
  unfoldable pub burst_over : Ppvpa Q → Prr Q → Time → Bool
  burst_over ppvpa prr now =
      let seconds = ppvpa.spec.update_policy.burst_timeout_seconds in
      ltb_ℤ (pos 0) seconds && after now (prr.meta.creation_timestamp + pos_part seconds * 10 ^ 9)

  unfoldable pub max_surge : Scaling → Ppvpa Q → ℤ
  max_surge scaled ppvpa =
      resolve_budget scaled ppvpa.spec.update_policy.infeasible_update_behavior.max_surge
        ppvpa.status.active_replicas default_percent

module _ {W Q : Type 0} (client : Client W Q) where
  unfoldable pub find_surge_pod : Ppvpa Q → Call W Q (Option (Pod Q))
  find_surge_pod ppvpa = do
    pods ← read (λ w. client.list_pods w ppvpa.meta.namespace)
    done (surge_loop pods)

  abbrev pub evict : Pod Q → Call W Q (Unit {0})
  evict pod = issue client (evict_pod pod)

  -- The target pod of a PRR; a pod that is gone is `none`.
  abbrev pub found : Outcome ApiError (Pod Q) → Call W Q (Option (Pod Q))
  found (ok pod) = done (some pod)
  found (err e) = if is_not_found e then done none else fail e
  found panic = λ s. (s, panic)

  unfoldable pub target_pod : Prr Q → Call W Q (Option (Pod Q))
  target_pod prr = do
    r ← attempt (read (λ w. client.get_pod w prr.meta.namespace prr.spec.target_pod_name))
    found r

  abbrev pub evict_found : Option (Pod Q) → Call W Q (Unit {0})
  evict_found none = done tt
  evict_found (some pod) = evict pod

  unfoldable pub handle_anomaly : Ppvpa Q → Prr Q → Call W Q (Unit {0})
  handle_anomaly ppvpa prr = do pod ← target_pod prr; evict_found pod

  unfoldable pub bump : Ppvpa Q → Call W Q (Unit {0})
  bump ppvpa = issue client (
      patch_ppvpa_status (with_temporary ppvpa (int32 (ppvpa.status.temporary_replicas +ℤ pos 1)))
        ppvpa)

  unfoldable pub release : Ppvpa Q → Call W Q (Unit {0})
  release ppvpa =
      issue client
        (patch_ppvpa_status (with_temporary ppvpa (less_one ppvpa.status.temporary_replicas)) ppvpa)

  abbrev pub evict_and_release : Ppvpa Q → Option (Pod Q) → Call W Q (Unit {0})
  evict_and_release ppvpa none = done tt
  evict_and_release ppvpa (some pod) = do _ ← evict pod; release ppvpa

  -- What Handle does once the budget is used up and the surge pod is looked up.
  unfoldable pub replace_target : Ppvpa Q → Prr Q → Time → Option (Pod Q) → Call W Q (Unit {0})
  replace_target ppvpa prr now surge =
      if not (surge_ready surge)
      then (if burst_over ppvpa prr now then release ppvpa else done tt)
      else do pod ← target_pod prr; evict_and_release ppvpa pod

  -- BudgetedHandler.Handle at the time `now`.
  unfoldable pub handle_budgeted : Scaling → Time → Ppvpa Q → Prr Q → Call W Q (Unit {0})
  handle_budgeted scaled now ppvpa prr =
      if ltb_ℤ ppvpa.status.temporary_replicas (max_surge scaled ppvpa)
      then bump ppvpa
      else do surge ← find_surge_pod ppvpa; replace_target ppvpa prr now surge
