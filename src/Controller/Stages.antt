-- ===== src/Controller/Stages.antt =====
-- The writes of the stages of the PP-VPA reconciler that the other modules do not treat: the pods
-- that it targets, the finalizer, and the recommendation.
use mathlib.Core.List.{append-nil}
use pp_vpa.Prelude.{
  ◌≡◌, refl, sym, ◌≢◌, ◌⊎◌, inl, inr, true, Bool-cases, Option-cases, List, [], ◌∷◌, ◌++◌, str_eq,
  contains, Outcome, ok, err, panic, Outcome-cases, if◌then◌else◌,
}
use pp_vpa.Float.{Float}
use pp_vpa.Clock.{Time, sub}
use pp_vpa.Histogram.Codec.{Codec, Checkpoint}
use pp_vpa.Kube.{Quantities, ApiError, is_not_found}
use pp_vpa.Api.{Ppvpa, Prr, Recommendation}
use pp_vpa.Recommender.Recommend.{recommend}
use pp_vpa.Cluster.{
  Pod, ReplicaSet, Deployment, Write, update_ppvpa, patch_ppvpa_status, Client, Session,
}
use pp_vpa.Controller.Prrs.{owned_prrs, list_owned_prrs}
use pp_vpa.Controller.{
  ppvpa_finalizer, with_finalizers, with_recommendation, owned_pods, replica_set_uids, pods_of,
  targeted_pods, reconcile_recommendation, ensure_finalizer,
}

module _ {Q : Type 0} where
  -- The PP-VPA as the later stages see it, and the write that puts the finalizer in place.
  abbrev pub finalized : Ppvpa Q → Ppvpa Q
  finalized p =
      if contains p.meta.finalizers ppvpa_finalizer
      then p
      else with_finalizers p (p.meta.finalizers ++ ppvpa_finalizer ∷ [])

  abbrev pub finalizer_write : Ppvpa Q → List (Write Q)
  finalizer_write p =
      if contains p.meta.finalizers ppvpa_finalizer then [] else update_ppvpa (finalized p) ∷ []

module _ {W Q : Type 0} (client : Client W Q) where
  -- The pods of the PP-VPA's Deployment through its ReplicaSets, as the cluster `w` answers; none
  -- where there is no such Deployment.
  pub data Targeted (p : Ppvpa Q) (w : W) (pods : List (Pod Q)) : Type 0 where
    no_deployment :
        (e : ApiError)
        → client.get_deployment w p.meta.namespace p.spec.target_ref.name ≡ err e
        → is_not_found e ≡ true
        → pods ≡ []
        → Targeted p w pods
    through_sets :
        (dep : Deployment) (sets : List ReplicaSet) (all : List (Pod Q))
        → client.get_deployment w p.meta.namespace p.spec.target_ref.name ≡ ok dep
        → client.list_replica_sets w p.meta.namespace ≡ ok sets
        → client.list_pods w p.meta.namespace ≡ ok all
        → pods ≡ owned_pods (replica_set_uids dep.meta.uid sets) all
        → Targeted p w pods

  -- A call that only reads: the session stays, and what it returns is as `P` says.
  abbrev Reads :
      {A : Type 0} → (A → Type 0) → Session W Q → Session W Q × Outcome ApiError A → Type 0
  Reads {A} P s r = (r.0 ≡ s) × ((a : A) → r.1 ≡ ok a → P a)

  pods_of-Targeted :
      (p : Ppvpa Q) (s : Session W Q) (d : Outcome ApiError Deployment)
      → client.get_deployment s.world p.meta.namespace p.spec.target_ref.name ≡ d
      → Reads (Targeted p s.world) s (pods_of client p d s)
  pods_of-Targeted p s (err x) g = elim (Bool-cases (is_not_found x)) [
    | inl e ↦ rw e (refl, λ a h. no_deployment x g e (cc))
    | inr e ↦ rw e (refl, λ a h. cc)
  ]
  pods_of-Targeted p s panic g = (refl, λ a h. cc)
  pods_of-Targeted p s (ok dep) g =
      elim (Outcome-cases (client.list_replica_sets s.world p.meta.namespace)) [
        | inr (inl (x, e)) ↦ rw e (refl, λ a h. cc)
        | inr (inr e) ↦ rw e (refl, λ a h. cc)
        | inl (sets, e) ↦ elim (Outcome-cases (client.list_pods s.world p.meta.namespace)) [
          | inr (inl (x, k)) ↦ rw (e, k) (refl, λ a h. cc)
          | inr (inr k) ↦ rw (e, k) (refl, λ a h. cc)
          | inl (all, k) ↦ rw (e, k) (refl, λ a h. through_sets dep sets all g e k (cc))
        ]
      ]

  -- Returned pods are targeted ones, and nothing is written.
  pub targeted_pods-Targeted :
      (p : Ppvpa Q) (s : Session W Q) → Reads (Targeted p s.world) s (targeted_pods client p s)
  unfolding targeted_pods
  targeted_pods-Targeted p s = elim (Bool-cases (str_eq p.spec.target_ref.kind "Deployment")) [
    | inr e ↦ rw e (refl, λ a h. cc)
    | inl e ↦
        elim (Outcome-cases
          (client.get_deployment s.world p.meta.namespace p.spec.target_ref.name)) [
            | inl (dep, g) ↦ rw (e, g) (pods_of-Targeted p s (ok dep) g)
            | inr (inl (x, g)) ↦ rw (e, g) (pods_of-Targeted p s (err x) g)
            | inr (inr g) ↦ rw (e, g) (refl, λ a h. cc)
          ]
  ]

module _ {F W Q : Type 0} ⦃float : Float F⦄ (codec : Codec (Checkpoint F))
    (quantities : Quantities Q) (client : Client W Q) where
  -- One patch of the status, with what Recommend returns for the PP-VPA's PRRs that `w` lists.
  pub data Recommended (now : Time) (p : Ppvpa Q) (w : W) (ws : List (Write Q)) : Type 0 where
    recommended :
        (prrs : List (Prr Q)) (rec : Recommendation Q)
        → client.list_prrs w p.meta.namespace ≡ ok prrs
        → recommend codec quantities
            (owned_prrs p.meta.uid prrs)
            p.spec
            (sub now p.meta.creation_timestamp)
          ≡ ok rec
        → ws ≡ patch_ppvpa_status (with_recommendation p rec) p ∷ []
        → Recommended now p w ws

  -- reconcileRecommendation fails without a write, or issues that patch.
  pub reconcile_recommendation-Recommended :
      (now : Time) (p : Ppvpa Q) (s : Session W Q)
      → let r = reconcile_recommendation codec quantities client now p s in
        (ws : List (Write Q)) × (r.0.issued ≡ s.issued ++ ws)
        × (((ws ≡ []) × (r.1 ≢ ok tt)) ⊎ Recommended now p s.world ws)
  unfolding reconcile_recommendation list_owned_prrs
  reconcile_recommendation-Recommended now p s =
      elim (Outcome-cases (client.list_prrs s.world p.meta.namespace)) [
        | inr (inl (x, e)) ↦ rw e ([], sym (append-nil s.issued), inl (refl, λ h. cc))
        | inr (inr e) ↦ rw e ([], sym (append-nil s.issued), inl (refl, λ h. cc))
        | inl (prrs, e) ↦
            elim (Outcome-cases (
              recommend codec quantities (owned_prrs p.meta.uid prrs) p.spec
                (sub now p.meta.creation_timestamp))) [
                  | inr (inl (x, k)) ↦
                      rw (e, k) ([], sym (append-nil s.issued), inl (refl, λ h. cc))
                  | inr (inr k) ↦ rw (e, k) ([], sym (append-nil s.issued), inl (refl, λ h. cc))
                  | inl (rec, k) ↦ rw (e, k) (_, refl, inr (recommended prrs rec e k refl))
                ]
      ]

  pub ensure_finalizer_lem :
      (p : Ppvpa Q) (s : Session W Q)
      → let r = ensure_finalizer codec quantities client p s in
        (r.0.issued ≡ s.issued ++ finalizer_write p)
        × ((q : Ppvpa Q) → r.1 ≡ ok q → q ≡ finalized p)
  unfolding ensure_finalizer
  ensure_finalizer_lem p s = elim (Bool-cases (contains p.meta.finalizers ppvpa_finalizer)) [
    | inl e ↦ rw e (sym (append-nil s.issued), λ q h. cc)
    | inr e ↦
        elim (Option-cases
          (client.write s.world
            (update_ppvpa (with_finalizers p (p.meta.finalizers ++ ppvpa_finalizer ∷ [])))).1) [
              | inl k ↦ rw (e, k) (refl, λ q h. cc)
              | inr (x, k) ↦ rw (e, k) (refl, λ q h. cc)
            ]
  ]
