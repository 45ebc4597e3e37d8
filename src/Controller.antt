-- ===== src/Controller.antt =====
-- internal/controller: the reconcilers of the PP-VPA (perpodverticalpodautoscaler_controller.go; `Prrs` has its
-- reconcilePRRs) and of the PRR (podresourcerecommendation_controller.go).
pub mod Prrs
pub mod Reaction
pub mod Dispatch
pub mod Garbage
pub mod Replicas
pub mod Stages
pub mod Flow
pub mod Whole
pub mod Store
pub mod Settled
pub mod Steady
mod StoreTests
mod SteadyTests
pub mod Checkpointing
pub mod Stored
pub mod Tests
use pp_vpa.Prelude.{
  ℕ, Bool, true, false, Option, none, some, List, [], ◌∷◌, ◌++◌, String, str_eq, contains,
  if◌then◌else◌, not, Outcome, ok, err, panic, ◌&&◌, ◌==◌,
}
use pp_vpa.Prelude.Int.{ℤ, pos, leb_ℤ, eqb_ℤ, ◌+ℤ◌, int32}
use pp_vpa.Clock.{Time, Duration, sub}
use pp_vpa.Kube.{ApiError, other_reason, is_not_found, ObjectMeta, OwnerReference}
use pp_vpa.Api.{Ppvpa, PpvpaSpec, Prr, Recommendation, condition_anomalous, condition_infeasible}
use pp_vpa.Cluster.{
  Pod, ReplicaSet, Deployment, Write, update_ppvpa, patch_ppvpa, patch_ppvpa_status,
  patch_deployment, Client, Call, done, fail, read, attempt, issue, ◌>>=◌, api_error,
}
use pp_vpa.Controller.Prrs.{is_owned_by, list_owned_prrs, reconcile_prrs}
use pp_vpa.Float.{Float}
use pp_vpa.Histogram.{HistogramError}
use pp_vpa.Histogram.Codec.{Codec, Checkpoint}
use pp_vpa.Kube.{Quantities}
use pp_vpa.Recommender.Recommend.{recommend}
use pp_vpa.Eviction.{Scaling, has_condition, handle_anomaly, handle_budgeted}

-- ctrl.Result, with the delay in seconds
pub data Requeue : Type 0 where
  no_requeue : Requeue
  now_again : Requeue
  after_seconds : ℕ → Requeue

abbrev pub ppvpa_finalizer : String
ppvpa_finalizer = "autoscaling.brycemclachlan.me/ppvpa-finalizer"

-- containsString is `contains`.
unfoldable pub remove_string : List String → String → List String
remove_string [] v = []
remove_string (x ∷ xs) v = let rest = remove_string xs v in if str_eq x v then rest else x ∷ rest

-- An owner is one of the UIDs.
unfoldable pub has_owner_in : List OwnerReference → List String → Bool
has_owner_in [] uids = false
has_owner_in (o ∷ os) uids = if contains uids o.uid then true else has_owner_in os uids

unfoldable pub replica_set_uids : String → List ReplicaSet → List String
replica_set_uids uid [] = []
replica_set_uids uid (r ∷ rs) =
    let rest = replica_set_uids uid rs in
    if is_owned_by uid r.meta.owner_references then r.meta.uid ∷ rest else rest

abbrev pub or_else : Option ℤ → ℤ → ℤ
or_else none d = d
or_else (some n) d = n

abbrev pub is_unset : Option ℤ → Bool
is_unset none = true
is_unset (some n) = false

abbrev pub is_exactly : Option ℤ → ℤ → Bool
is_exactly none n = false
is_exactly (some m) n = eqb_ℤ m n

unfoldable pub current_replicas : Deployment → ℤ
current_replicas d = or_else d.replicas (pos 1)

module _ {Q : Type 0} where
  unfoldable pub owned_pods : List String → List (Pod Q) → List (Pod Q)
  owned_pods uids [] = []
  owned_pods uids (p ∷ ps) =
      let rest = owned_pods uids ps in
      if has_owner_in p.meta.owner_references uids then p ∷ rest else rest

  abbrev pub with_finalizers : Ppvpa Q → List String → Ppvpa Q
  with_finalizers p fs = record p { meta = record p.meta { finalizers = fs } }

  abbrev pub with_target : Ppvpa Q → ℤ → Ppvpa Q
  with_target p n = record p { spec = record p.spec { target_replicas = some n } }

  abbrev pub with_active : Ppvpa Q → ℤ → Ppvpa Q
  with_active p n = record p { status = record p.status { active_replicas = n } }

  abbrev pub with_recommendation : Ppvpa Q → Recommendation Q → Ppvpa Q
  with_recommendation p rec = record p {
    status = record p.status { default_recommendation = some rec };
  }

  -- target + temporaryReplicas, in int32.
  unfoldable pub desired_replicas : Ppvpa Q → ℤ
  desired_replicas p = int32 (or_else p.spec.target_replicas (pos 0) +ℤ p.status.temporary_replicas)

  abbrev pub is_deleted : Ppvpa Q → Bool
  is_deleted p = elim p.meta.deletion_timestamp [ none ↦ false | some t ↦ not (t == 0) ]

  unfoldable pub strip_finalizer : Ppvpa Q → Ppvpa Q
  strip_finalizer p = with_finalizers p (remove_string p.meta.finalizers ppvpa_finalizer)

module _ {W Q : Type 0} (client : Client W Q) where
  unfoldable pub finalize : Ppvpa Q → Call W Q Requeue
  finalize p =
      if contains p.meta.finalizers ppvpa_finalizer
      then (do _ ← issue client (update_ppvpa (strip_finalizer p)); done no_requeue)
      else done no_requeue

  abbrev pub pods_of : Ppvpa Q → Outcome ApiError Deployment → Call W Q (List (Pod Q))
  pods_of p (err e) = if is_not_found e then done [] else fail e
  pods_of p panic = λ s. (s, panic)
  pods_of p (ok dep) = do
    replica_sets ← read (λ w. client.list_replica_sets w p.meta.namespace)
    pods ← read (λ w. client.list_pods w p.meta.namespace)
    done (owned_pods (replica_set_uids dep.meta.uid replica_sets) pods)

  -- An unsupported kind is an error that is no API error.
  unfoldable pub targeted_pods : Ppvpa Q → Call W Q (List (Pod Q))
  targeted_pods p =
      if str_eq p.spec.target_ref.kind "Deployment"
      then (do
        dep ← attempt (read (λ w. client.get_deployment w p.meta.namespace p.spec.target_ref.name))
        pods_of p dep)
      else fail (other_reason 0)

  -- The first reconcile: the target and the active count are taken from the Deployment.
  unfoldable pub seed_replicas : Ppvpa Q → ℤ → Call W Q (Unit {0})
  seed_replicas p current =
      if is_unset p.spec.target_replicas
      then (do
        _ ← issue client (patch_ppvpa (with_target p current) p)
        issue client (patch_ppvpa_status (with_active p current) p))
      else issue client (patch_ppvpa_status (with_active p current) p)

  unfoldable pub scale_deployment : Ppvpa Q → Deployment → Call W Q (Unit {0})
  scale_deployment p dep =
      let desired = desired_replicas p in
      if leb_ℤ desired (pos 0)
      then seed_replicas p (current_replicas dep)
      else if is_exactly dep.replicas desired
      then done tt
      else issue client (patch_deployment (record dep { replicas = some desired }) dep)

  abbrev pub scale_found : Ppvpa Q → Outcome ApiError Deployment → Call W Q (Unit {0})
  scale_found p (ok dep) = scale_deployment p dep
  scale_found p (err e) = if is_not_found e then done tt else fail e
  scale_found p panic = λ s. (s, panic)

  unfoldable pub reconcile_replicas : Ppvpa Q → Call W Q (Unit {0})
  reconcile_replicas p =
      if str_eq p.spec.target_ref.kind "Deployment"
      then (do
        dep ← attempt (read (λ w. client.get_deployment w p.meta.namespace p.spec.target_ref.name))
        scale_found p dep)
      else done tt

module _ {F W Q : Type 0} ⦃float : Float F⦄ (codec : Codec (Checkpoint F))
    (quantities : Quantities Q) (client : Client W Q) where
  unfoldable pub reconcile_recommendation : Time → Ppvpa Q → Call W Q (Unit {0})
  reconcile_recommendation now p = do
    prrs ← list_owned_prrs client p
    rec ← (λ s.
        (s, api_error (recommend codec quantities prrs p.spec (sub now p.meta.creation_timestamp))))
    issue client (patch_ppvpa_status (with_recommendation p rec) p)

  -- An error of a stage is logged, and the request comes back later.
  abbrev pub or_retry :
      {A : Type 0} → ℕ → Outcome ApiError A → (A → Call W Q Requeue) → Call W Q Requeue
  or_retry seconds (ok a) next = next a
  or_retry seconds (err e) next = done (after_seconds seconds)
  or_retry seconds panic next = λ s. (s, panic)

  unfoldable pub ensure_finalizer : Ppvpa Q → Call W Q (Ppvpa Q)
  ensure_finalizer p = if contains p.meta.finalizers ppvpa_finalizer then done p else do
    let q = with_finalizers p (p.meta.finalizers ++ ppvpa_finalizer ∷ [])
    _ ← issue client (update_ppvpa q)
    done q

  -- The stages after the finalizer is in place.
  unfoldable pub reconcile_live :
      (List (String × Prr Q) → List (String × Prr Q)) → Time → Ppvpa Q → Call W Q Requeue
  reconcile_live range_order now p = do
    pods ← attempt (targeted_pods client p)
    or_retry 30 pods (λ pods. do
      r ← attempt (reconcile_prrs client range_order p pods)
      or_retry 30 r (λ _. do
        r ← attempt (reconcile_recommendation now p)
        or_retry 60 r (λ _. do
          r ← attempt (reconcile_replicas client p)
          or_retry 30 r (λ _. done (after_seconds 60)))))

  unfoldable pub reconcile_found :
      (List (String × Prr Q) → List (String × Prr Q)) → Time → Ppvpa Q → Call W Q Requeue
  reconcile_found range_order now p =
      if is_deleted p
      then finalize client p
      else do q ← ensure_finalizer p; reconcile_live range_order now q

  abbrev pub reconcile_read :
      (List (String × Prr Q) → List (String × Prr Q))
      → Time
      → Outcome ApiError (Ppvpa Q)
      → Call W Q Requeue
  reconcile_read range_order now (ok p) = reconcile_found range_order now p
  reconcile_read range_order now (err e) = if is_not_found e then done no_requeue else fail e
  reconcile_read range_order now panic = λ s. (s, panic)

  unfoldable pub reconcile_ppvpa :
      (List (String × Prr Q) → List (String × Prr Q)) → Time → String → String → Call W Q Requeue
  reconcile_ppvpa range_order now namespace name = do
    p ← attempt (read (λ w. client.get_ppvpa w namespace name))
    reconcile_read range_order now p
