-- ===== src/Webhook.antt =====
-- internal/webhook/v1/pod_webhook.go: the mutating webhook that sets the resources of new pods.
pub mod Injection
pub mod Tests
use pp_vpa.Prelude.{
  ℕ, Bool, true, false, ◌||◌, Option, none, some, List, [], ◌∷◌, map, String, str_eq, if◌then◌else◌,
  Outcome, ok, err, panic,
}
use pp_vpa.Prelude.Int.{ℤ, pos, ltb_ℤ}
use pp_vpa.Kube.{ApiError, OwnerReference, ResourceList}
use pp_vpa.Api.{
  Ppvpa, Prr, Recommendation, ContainerRecommendation, condition_anomalous, condition_infeasible,
}
use pp_vpa.Cluster.{Container, Pod, ReplicaSet, Client}
use pp_vpa.Controller.Prrs.{is_owned_by}
use pp_vpa.Eviction.{annotation, annotation_surge_pod, has_condition}

module _ {Q : Type 0} where
  -- matchContainer
  unfoldable pub match_container :
      List (ContainerRecommendation Q) → String → Option (ContainerRecommendation Q)
  match_container [] name = none
  match_container (r ∷ rs) name =
      if str_eq r.container_name name then some r else match_container rs name

  abbrev pub with_resources : Container Q → ResourceList Q → Container Q
  with_resources c r = record c { resources = record { requests = r; limits = r } }

  abbrev pub set_from : Bool → Container Q → Option (ContainerRecommendation Q) → Container Q
  set_from use_upper c none = c
  set_from use_upper c (some r) = with_resources c (if use_upper then r.upper_bound else r.target)

  -- One round of the loop over the containers.
  unfoldable pub inject : Bool → List (ContainerRecommendation Q) → Container Q → Container Q
  inject use_upper chosen c = set_from use_upper c (match_container chosen c.container_name)

  unfoldable pub targets_deployment : String → Ppvpa Q → Bool
  targets_deployment name p =
      if str_eq p.spec.target_ref.kind "Deployment"
      then str_eq p.spec.target_ref.name name
      else false

  unfoldable pub first_targeting : String → List (Ppvpa Q) → Option (Ppvpa Q)
  first_targeting name [] = none
  first_targeting name (p ∷ ps) =
      if targets_deployment name p then some p else first_targeting name ps

  unfoldable pub is_flagged : String → Prr Q → Bool
  is_flagged uid p =
      if is_owned_by uid p.meta.owner_references
      then has_condition p.status.conditions condition_infeasible
        || has_condition p.status.conditions condition_anomalous
      else false

  unfoldable pub any_flagged : String → List (Prr Q) → Bool
  any_flagged uid [] = false
  any_flagged uid (p ∷ ps) = if is_flagged uid p then true else any_flagged uid ps

-- The Deployment that owns a ReplicaSet: the first owner of the kind.
unfoldable pub deployment_owner : List OwnerReference → Option String
deployment_owner [] = none
deployment_owner (o ∷ os) = if str_eq o.kind "Deployment" then some o.name else deployment_owner os

module _ {W Q : Type 0} (client : Client W Q) (w : W) where
  abbrev pub first_of :
      String → Outcome ApiError (List (Ppvpa Q)) → Outcome ApiError (Option (Ppvpa Q))
  first_of name (ok ps) = ok (first_targeting name ps)
  first_of name (err e) = err e
  first_of name panic = panic

  unfoldable pub find_ppvpa_by_deployment : String → String → Outcome ApiError (Option (Ppvpa Q))
  find_ppvpa_by_deployment namespace name = first_of name (client.list_ppvpas w namespace)

  abbrev pub through_owner :
      String
      → Outcome ApiError (Option (Ppvpa Q))
      → Option String
      → Outcome ApiError (Option (Ppvpa Q))
  through_owner namespace rest none = rest
  through_owner namespace rest (some name) = find_ppvpa_by_deployment namespace name

  -- A ReplicaSet that cannot be read, or that no Deployment owns, is passed over.
  abbrev pub through :
      String
      → Outcome ApiError (Option (Ppvpa Q))
      → Outcome ApiError ReplicaSet
      → Outcome ApiError (Option (Ppvpa Q))
  through namespace rest (err e) = rest
  through namespace rest panic = panic
  through namespace rest (ok rs) =
      through_owner namespace rest (deployment_owner rs.meta.owner_references)

  unfoldable pub owners_loop : String → List OwnerReference → Outcome ApiError (Option (Ppvpa Q))
  owners_loop namespace [] = ok none
  owners_loop namespace (o ∷ os) =
      let rest = owners_loop namespace os in
      if str_eq o.kind "ReplicaSet"
      then through namespace rest (client.get_replica_set w namespace o.name)
      else rest

  unfoldable pub find_ppvpa : Pod Q → Outcome ApiError (Option (Ppvpa Q))
  find_ppvpa pod = owners_loop pod.meta.namespace pod.meta.owner_references

  -- A list that fails counts as no flag.
  abbrev pub flagged_in : String → Outcome ApiError (List (Prr Q)) → Outcome ApiError Bool
  flagged_in uid (ok prrs) = ok (any_flagged uid prrs)
  flagged_in uid (err e) = ok false
  flagged_in uid panic = panic

  unfoldable pub siblings_flagged : Ppvpa Q → Outcome ApiError Bool
  siblings_flagged p = flagged_in p.meta.uid (client.list_prrs w p.meta.namespace)

  -- `temporaryReplicas > 0 || siblingsFlagged`, which does not list the PRRs where the first holds.
  unfoldable pub use_upper : Ppvpa Q → Outcome ApiError Bool
  use_upper p = if ltb_ℤ (pos 0) p.status.temporary_replicas then ok true else siblings_flagged p

  abbrev pub inject_all :
      Pod Q → Recommendation Q → Outcome ApiError Bool → Outcome ApiError (Pod Q)
  inject_all pod rec (ok upper) =
      ok (record pod {
        containers = map (inject upper rec.container_recommendations) pod.containers;
      })
  inject_all pod rec (err e) = err e
  inject_all pod rec panic = panic

  abbrev pub inject_recommended :
      Pod Q → Ppvpa Q → Option (Recommendation Q) → Outcome ApiError (Pod Q)
  inject_recommended pod p none = ok pod
  inject_recommended pod p (some rec) = inject_all pod rec (use_upper p)

  -- An error of the search is logged, and the pod is admitted as it is.
  abbrev pub inject_for : Pod Q → Outcome ApiError (Option (Ppvpa Q)) → Outcome ApiError (Pod Q)
  inject_for pod (err e) = ok pod
  inject_for pod panic = panic
  inject_for pod (ok none) = ok pod
  inject_for pod (ok (some p)) = inject_recommended pod p p.status.default_recommendation

  -- Default, on a pod that is not nil; the result is the pod that it leaves.
  unfoldable pub default_pod : Pod Q → Outcome ApiError (Pod Q)
  default_pod pod =
      if str_eq (annotation pod.meta.annotations annotation_surge_pod) "true"
      then ok pod
      else inject_for pod (find_ppvpa pod)
