-- ===== src/Controller/Reaction.antt =====
-- internal/controller/podresourcerecommendation_controller.go: the reconciler of the PRR.
use pp_vpa.Prelude.{
  Bool, Option, none, some, List, [], ◌∷◌, String, str_eq, if◌then◌else◌, Outcome, ok, err, panic,
}
use pp_vpa.Kube.{ApiError, is_not_found, OwnerReference}
use pp_vpa.Api.{Ppvpa, Prr, condition_anomalous, condition_infeasible}
use pp_vpa.Cluster.{Client, Call, done, fail, read, attempt, ◌>>=◌}
use pp_vpa.Controller.{Requeue, no_requeue, now_again}
use pp_vpa.Eviction.{has_condition}

module _ {W Q : Type 0} (client : Client W Q) where
  abbrev pub parent_found : Outcome ApiError (Ppvpa Q) → Call W Q (Option (Ppvpa Q))
  parent_found (ok p) = done (some p)
  parent_found (err e) = if is_not_found e then done none else fail e
  parent_found panic = λ s. (s, panic)

  -- The first owner of the kind decides.
  unfoldable pub parent_loop : String → List OwnerReference → Call W Q (Option (Ppvpa Q))
  parent_loop namespace [] = done none
  parent_loop namespace (o ∷ os) =
      let rest = parent_loop namespace os in
      if str_eq o.kind "PerPodVerticalPodAutoscaler"
      then (do p ← attempt (read (λ w. client.get_ppvpa w namespace o.name)); parent_found p)
      else rest

  unfoldable pub parent_ppvpa : Prr Q → Call W Q (Option (Ppvpa Q))
  parent_ppvpa prr = parent_loop prr.meta.namespace prr.meta.owner_references

  -- The stages of the PRR reconciler; a handler that is nil (`none`) is left out.
  abbrev pub handle_if :
      Bool → Option (Ppvpa Q → Prr Q → Call W Q (Unit {0})) → Ppvpa Q → Prr Q → Call W Q (Unit {0})
  handle_if c none p prr = done tt
  handle_if c (some handle) p prr = if c then handle p prr else done tt

  abbrev pub or_again : Outcome ApiError (Unit {0}) → Call W Q Requeue → Call W Q Requeue
  or_again (ok u) next = next
  or_again (err e) next = done now_again
  or_again panic next = λ s. (s, panic)

  abbrev pub Handler : Type 0
  Handler = Option (Ppvpa Q → Prr Q → Call W Q (Unit {0}))

  unfoldable pub react : Handler → Handler → Prr Q → Option (Ppvpa Q) → Call W Q Requeue
  react anomaly budgeted prr none = done no_requeue
  react anomaly budgeted prr (some p) = do
    r ← attempt (handle_if (has_condition prr.status.conditions condition_anomalous) anomaly p prr)
    or_again r (do
      r ←
          attempt
            (handle_if (has_condition prr.status.conditions condition_infeasible) budgeted p prr)
      or_again r (done no_requeue))

  abbrev pub react_read : Handler → Handler → Outcome ApiError (Prr Q) → Call W Q Requeue
  react_read anomaly budgeted (ok prr) = do p ← parent_ppvpa prr; react anomaly budgeted prr p
  react_read anomaly budgeted (err e) = if is_not_found e then done no_requeue else fail e
  react_read anomaly budgeted panic = λ s. (s, panic)

  unfoldable pub reconcile_prr : Handler → Handler → String → String → Call W Q Requeue
  reconcile_prr anomaly budgeted namespace name = do
    r ← attempt (read (λ w. client.get_prr w namespace name))
    react_read anomaly budgeted r
