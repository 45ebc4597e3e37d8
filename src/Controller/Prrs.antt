-- ===== src/Controller/Prrs.antt =====
-- reconcilePRRs and listOwnedPRRs of internal/controller/perpodverticalpodautoscaler_controller.go.
use pp_vpa.Prelude.{
  Bool, true, false, none, some, List, [], ◌∷◌, map, String, str_eq, contains, if◌then◌else◌,
  Outcome, ok, err, panic, text_append,
}
use pp_vpa.Kube.{ApiError, is_not_found, is_already_exists, OwnerReference}
use pp_vpa.Api.{Ppvpa, Prr}
use pp_vpa.Cluster.{
  Pod, create_prr, delete_prr, Client, Call, done, fail, read, attempt, issue, ◌>>=◌,
}

unfoldable pub is_owned_by : String → List OwnerReference → Bool
is_owned_by uid [] = false
is_owned_by uid (o ∷ os) = if str_eq o.uid uid then true else is_owned_by uid os

module _ {Q : Type 0} where
  unfoldable pub owned_prrs : String → List (Prr Q) → List (Prr Q)
  owned_prrs uid [] = []
  owned_prrs uid (p ∷ ps) =
      let rest = owned_prrs uid ps in
      if is_owned_by uid p.meta.owner_references then p ∷ rest else rest

  -- `m[key] = value`
  unfoldable pub put : List (String × Prr Q) → String → Prr Q → List (String × Prr Q)
  put [] key value = (key, value) ∷ []
  put ((k, v) ∷ m) key value = if str_eq k key then (k, value) ∷ m else (k, v) ∷ put m key value

  unfoldable pub has_key : List (String × Prr Q) → String → Bool
  has_key [] key = false
  has_key ((k, v) ∷ m) key = if str_eq k key then true else has_key m key

  unfoldable pub by_pod_loop : List (String × Prr Q) → List (Prr Q) → List (String × Prr Q)
  by_pod_loop m [] = m
  by_pod_loop m (p ∷ ps) = by_pod_loop (put m p.spec.target_pod_name p) ps

  -- The name of a PRR: fmt.Sprintf("%s-%s-prr", ppvpa.Name, pod.Name)
  abbrev pub prr_name : Ppvpa Q → Pod Q → String
  prr_name ppvpa pod =
      text_append ppvpa.meta.name (text_append "-" (text_append pod.meta.name "-prr"))

  -- The object that is created for a pod; what is not set is Go's zero value.
  unfoldable pub new_prr : Ppvpa Q → Pod Q → Prr Q
  new_prr ppvpa pod = record {
    meta = record {
      namespace = ppvpa.meta.namespace;
      name = prr_name ppvpa pod;
      uid = "";
      creation_timestamp = 0;
      deletion_timestamp = none;
      finalizers = [];
      annotations = [];
      owner_references =
          record {
            api_version = "autoscaling.brycemclachlan.me/v1alpha1";
            kind = "PerPodVerticalPodAutoscaler";
            name = ppvpa.meta.name;
            uid = ppvpa.meta.uid;
            controller = some true;
          }
          ∷ [];
    };
    spec = record { target_pod_name = pod.meta.name };
    status = record {
      contention_high_watermarks = none;
      observed_peak = none;
      pod_level_target = record { cpu = none; memory = none };
      container_recommendations = [];
      histogram_checkpoint = [];
      conditions = [];
    };
  }

module _ {W Q : Type 0} (client : Client W Q) where
  unfoldable pub list_owned_prrs : Ppvpa Q → Call W Q (List (Prr Q))
  list_owned_prrs ppvpa = do
    prrs ← read (λ w. client.list_prrs w ppvpa.meta.namespace)
    done (owned_prrs ppvpa.meta.uid prrs)

  -- An error of the write that `accept` names is no error.
  abbrev pub tolerate : (ApiError → Bool) → Outcome ApiError (Unit {0}) → Call W Q (Unit {0})
  tolerate accept (ok u) = done tt
  tolerate accept (err e) = if accept e then done tt else fail e
  tolerate accept panic = λ s. (s, panic)

  unfoldable pub create_for : List (String × Prr Q) → Ppvpa Q → Pod Q → Call W Q (Unit {0})
  create_for by_pod ppvpa pod = if has_key by_pod pod.meta.name then done tt else do
    r ← attempt (issue client (create_prr (new_prr ppvpa pod)))
    tolerate is_already_exists r

  -- The loop over the pods.
  unfoldable pub create_missing :
      List (String × Prr Q) → Ppvpa Q → List (Pod Q) → Call W Q (Unit {0})
  create_missing by_pod ppvpa [] = done tt
  create_missing by_pod ppvpa (pod ∷ pods) = do
    _ ← create_for by_pod ppvpa pod
    create_missing by_pod ppvpa pods

  unfoldable pub delete_unless_live : List String → String × Prr Q → Call W Q (Unit {0})
  delete_unless_live live (pod_name, prr) =
      if contains live pod_name
      then done tt
      else do r ← attempt (issue client (delete_prr prr)); tolerate is_not_found r

  -- The loop over the map, in the order that `entries` has.
  unfoldable pub delete_orphans : List String → List (String × Prr Q) → Call W Q (Unit {0})
  delete_orphans live [] = done tt
  delete_orphans live (entry ∷ entries) = do
    _ ← delete_unless_live live entry
    delete_orphans live entries

  -- `range_order` is the order in which Go ranges over the map, which may be any.
  unfoldable pub reconcile_prrs :
      (List (String × Prr Q) → List (String × Prr Q)) → Ppvpa Q → List (Pod Q) → Call W Q (Unit {0})
  reconcile_prrs range_order ppvpa pods = do
    existing ← list_owned_prrs ppvpa
    let by_pod = by_pod_loop [] existing
    _ ← create_missing by_pod ppvpa pods
    delete_orphans (map (λ pod. pod.meta.name) pods) (range_order by_pod)
