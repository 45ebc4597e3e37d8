-- ===== src/Webhook/Injection.antt =====
-- What the webhook may change of a pod.
use pp_vpa.Prelude.{
  ◌≡◌, ◌≢◌, refl, ◌⊎◌, inl, inr, Bool, true, false, Bool-cases, Option, none, some, Option-cases,
  List, [], ◌∷◌, map, String, str_eq, eq_iff, Outcome, ok, err, panic, Outcome-cases, Returns,
  if◌then◌else◌, ap, All, ◌++◌,
}
use mathlib.Core.List.{Mem, mem-cons_self, mem-cons_of_mem}
use pp_vpa.Prelude.Int.{pos, ltb_ℤ}
use pp_vpa.Kube.{ApiError, OwnerReference}
use pp_vpa.Api.{Ppvpa, Prr, Recommendation, ContainerRecommendation}
use pp_vpa.Cluster.{Container, Pod, ReplicaSet, Client}
use pp_vpa.Webhook.{
  match_container, with_resources, inject, find_ppvpa_by_deployment, owners_loop, find_ppvpa,
  siblings_flagged, use_upper, any_flagged, inject_recommended, inject_for, default_pod, through,
  through_owner, deployment_owner, first_targeting,
}
use pp_vpa.Eviction.{annotation, annotation_surge_pod}

module _ {Q : Type 0} where
  -- `c'` is `c` with the values of the first of `recs` for its name, or `c` where there is none.
  abbrev pub IsInjected :
      Bool → List (ContainerRecommendation Q) → Container Q → Container Q → Type 0
  IsInjected upper recs c c' =
      (All (λ r. r.container_name ≢ c.container_name) recs × (c' ≡ c))
      ⊎ ((before : List (ContainerRecommendation Q)) × (r : ContainerRecommendation Q)
          × (after : List (ContainerRecommendation Q)) × (recs ≡ before ++ r ∷ after)
          × All (λ q. q.container_name ≢ c.container_name) before
          × (r.container_name ≡ c.container_name)
          × (c' ≡ with_resources c (if upper then r.upper_bound else r.target)))

  -- The containers correspond one by one.
  abbrev pub Pointwise :
      (Container Q → Container Q → Type 0) → List (Container Q) → List (Container Q) → Type 0
  Pointwise R [] [] = Unit {0}
  Pointwise R [] (c' ∷ cs') = ⊥
  Pointwise R (c ∷ cs) [] = ⊥
  Pointwise R (c ∷ cs) (c' ∷ cs') = R c c' × Pointwise R cs cs'

  inject-IsInjected :
      (upper : Bool) (recs : List (ContainerRecommendation Q)) (c : Container Q)
      → IsInjected upper recs c (inject upper recs c)
  unfolding inject match_container
  inject-IsInjected upper [] c = inl (tt, refl)
  inject-IsInjected upper (x ∷ xs) c =
      elim (Bool-cases (str_eq x.container_name c.container_name)) [
        | inl h ↦ inr ([], x, xs, refl, tt, (eq_iff _ _).0 h, rw h refl)
        | inr h ↦
            let ne : x.container_name ≢ c.container_name = λ e. cc (h, (eq_iff _ _).1 e) in
            elim (inject-IsInjected upper xs c) [
              | inl (a, e) ↦ inl ((ne, a), rw h e)
              | inr (before, r, after, e, a, n, k) ↦
                  inr (x ∷ before, r, after, ap (λ l. x ∷ l) e, (ne, a), n, rw h k)
            ]
      ]

  inject_all-Pointwise :
      (upper : Bool) (recs : List (ContainerRecommendation Q)) (cs : List (Container Q))
      → Pointwise (IsInjected upper recs) cs (map (inject upper recs) cs)
  inject_all-Pointwise upper recs [] = tt
  inject_all-Pointwise upper recs (c ∷ cs) =
      (inject-IsInjected upper recs c, inject_all-Pointwise upper recs cs)

module _ {W Q : Type 0} (client : Client W Q) (w : W) where
  -- The calls that the webhook makes return a value or an error.
  pub record Answers : Type 0 where
    pub ppvpas : (namespace : String) → client.list_ppvpas w namespace ≢ panic
    pub prrs : (namespace : String) → client.list_prrs w namespace ≢ panic
    pub replica_sets : (namespace name : String) → client.get_replica_set w namespace name ≢ panic

  -- The first PP-VPA in the pod's namespace that targets the Deployment that owns a ReplicaSet that
  -- owns the pod.
  pub record IsFor (pod : Pod Q) (p : Ppvpa Q) : Type 0 where
    pub owner : OwnerReference
    pub owns : Mem owner pod.meta.owner_references
    pub of_kind : str_eq owner.kind "ReplicaSet" ≡ true
    pub set : ReplicaSet
    pub read_set : client.get_replica_set w pod.meta.namespace owner.name ≡ ok set
    pub deployment : String
    pub of_set : deployment_owner set.meta.owner_references ≡ some deployment
    pub listed : List (Ppvpa Q)
    pub read_list : client.list_ppvpas w pod.meta.namespace ≡ ok listed
    pub first : first_targeting deployment listed ≡ some p

  -- Upper bounds are chosen where temporary replicas run, or else where a PRR of the PP-VPA is
  -- flagged; a list that fails flags none.
  abbrev pub IsUpper : Ppvpa Q → Bool → Type 0
  IsUpper p b =
      let prrs = client.list_prrs w p.meta.namespace in
      ((ltb_ℤ (pos 0) p.status.temporary_replicas ≡ true) × (b ≡ true))
      ⊎ ((ltb_ℤ (pos 0) p.status.temporary_replicas ≡ false)
          × (((ps : List (Prr Q)) × (prrs ≡ ok ps) × (b ≡ any_flagged p.meta.uid ps))
              ⊎ (((ps : List (Prr Q)) → prrs ≢ ok ps) × (b ≡ false))))

  -- Why a pod is admitted as it is.
  pub data Untouched (pod : Pod Q) : Type 0 where
    surge :
        str_eq (annotation pod.meta.annotations annotation_surge_pod) "true" ≡ true → Untouched pod
    search_failed : (e : ApiError) → find_ppvpa client w pod ≡ err e → Untouched pod
    not_found : find_ppvpa client w pod ≡ ok none → Untouched pod
    no_recommendation :
        (p : Ppvpa Q)
        → find_ppvpa client w pod ≡ ok (some p)
        → IsFor pod p
        → p.status.default_recommendation ≡ none
        → Untouched pod

  -- What the recommendation of the pod's PP-VPA makes of its containers.
  pub record Injected (pod pod' : Pod Q) : Type 0 where
    pub no_surge : str_eq (annotation pod.meta.annotations annotation_surge_pod) "true" ≡ false
    pub ppvpa : Ppvpa Q
    pub found : find_ppvpa client w pod ≡ ok (some ppvpa)
    pub is_for : IsFor pod ppvpa
    pub recommendation : Recommendation Q
    pub recommended : ppvpa.status.default_recommendation ≡ some recommendation
    pub upper : Bool
    pub is_upper : IsUpper ppvpa upper
    pub containers :
        Pointwise
          (IsInjected upper recommendation.container_recommendations)
          pod.containers
          pod'.containers

  pub record Admitted (pod pod' : Pod Q) : Type 0 where
    pub same_meta : pod'.meta ≡ pod.meta
    pub same_conditions : pod'.conditions ≡ pod.conditions
    pub same_class : pod'.qos_class ≡ pod.qos_class
    pub changed : ((pod' ≡ pod) × Untouched pod) ⊎ Injected pod pod'

  unchanged : (pod : Pod Q) → Untouched pod → Admitted pod pod
  unchanged pod u = record {
    same_meta = refl;
    same_conditions = refl;
    same_class = refl;
    changed = inl (refl, u);
  }

  by_deployment-found :
      (namespace name : String) (p : Ppvpa Q)
      → find_ppvpa_by_deployment client w namespace name ≡ ok (some p)
      → (ps : List (Ppvpa Q)) × (client.list_ppvpas w namespace ≡ ok ps)
        × (first_targeting name ps ≡ some p)
  unfolding find_ppvpa_by_deployment
  by_deployment-found namespace name p e = elim (Outcome-cases (client.list_ppvpas w namespace)) [
    | inl (ps, f) ↦ (ps, f, cc (e, f))
    | inr (inl (x, f)) ↦ absurd (cc (e, f))
    | inr (inr f) ↦ absurd (cc (e, f))
  ]

  -- What the owners from some on lead to.
  owners_loop-found :
      (pod : Pod Q) (p : Ppvpa Q) (os : List OwnerReference)
      → ((o : OwnerReference) → Mem o os → Mem o pod.meta.owner_references)
      → owners_loop client w pod.meta.namespace os ≡ ok (some p)
      → IsFor pod p
  unfolding owners_loop
  owners_loop-found pod p [] sub e = absurd (cc e)
  owners_loop-found pod p (o ∷ os) sub e =
      let later = owners_loop-found pod p os (λ x m. sub x (mem-cons_of_mem o m)) in
      elim (Bool-cases (str_eq o.kind "ReplicaSet")) [
        | inr h ↦ later (rw h at e)
        | inl h ↦ elim (Outcome-cases (client.get_replica_set w pod.meta.namespace o.name)) [
          | inr (inl (x, f)) ↦ later (rw (h, f) at e)
          | inr (inr f) ↦ absurd (cc (rw (h, f) at e))
          | inl (rs, f) ↦ elim (Option-cases (deployment_owner rs.meta.owner_references)) [
            | inl g ↦ later (rw (h, f, g) at e)
            | inr (name, g) ↦
                let (ps, k, l) =
                  by_deployment-found pod.meta.namespace name p (rw (h, f, g) at e) in
                record {
                  owner = o;
                  owns = sub o mem-cons_self;
                  of_kind = h;
                  set = rs;
                  read_set = f;
                  deployment = name;
                  of_set = g;
                  listed = ps;
                  read_list = k;
                  first = l;
                }
          ]
        ]
      ]

  found-IsFor : (pod : Pod Q) (p : Ppvpa Q) → find_ppvpa client w pod ≡ ok (some p) → IsFor pod p
  unfolding find_ppvpa
  found-IsFor pod p e = owners_loop-found pod p pod.meta.owner_references (λ o m. m) e

  module _ (answers : Answers) where
    use_upper-Returns : (p : Ppvpa Q) → (b : Bool) × (use_upper client w p ≡ ok b) × IsUpper p b
    unfolding use_upper siblings_flagged
    use_upper-Returns p = elim (Bool-cases (ltb_ℤ (pos 0) p.status.temporary_replicas)) [
      | inl e ↦ (true, rw e refl, inl (e, refl))
      | inr e ↦ elim (Outcome-cases (client.list_prrs w p.meta.namespace)) [
        | inl (ps, f) ↦ (any_flagged p.meta.uid ps, rw (e, f) refl, inr (e, inl (ps, f, refl)))
        | inr (inl (x, f)) ↦ (false, rw (e, f) refl, inr (e, inr (λ ps g. cc (f, g), refl)))
        | inr (inr f) ↦ absurd (answers.prrs p.meta.namespace f)
      ]
    ]

    by_deployment-ne-panic :
        (namespace name : String) → find_ppvpa_by_deployment client w namespace name ≢ panic
    unfolding find_ppvpa_by_deployment
    by_deployment-ne-panic namespace name e =
        elim (Outcome-cases (client.list_ppvpas w namespace)) [
          | inl (ps, f) ↦ absurd (cc (e, f))
          | inr (inl (x, f)) ↦ absurd (cc (e, f))
          | inr (inr f) ↦ answers.ppvpas namespace f
        ]

    through_owner-ne-panic :
        (namespace : String) (rest : Outcome ApiError (Option (Ppvpa Q))) (o : Option String)
        → rest ≢ panic
        → through_owner client w namespace rest o ≢ panic
    through_owner-ne-panic namespace rest none h = h
    through_owner-ne-panic namespace rest (some name) h = by_deployment-ne-panic namespace name

    through-ne-panic :
        (namespace : String) (rest : Outcome ApiError (Option (Ppvpa Q)))
        (r : Outcome ApiError ReplicaSet)
        → rest ≢ panic
        → r ≢ panic
        → through client w namespace rest r ≢ panic
    through-ne-panic namespace rest (ok rs) h k = through_owner-ne-panic namespace rest _ h
    through-ne-panic namespace rest (err x) h k = h
    through-ne-panic namespace rest panic h k = λ _. k refl

    owners_loop-ne-panic :
        (namespace : String) (os : List OwnerReference) → owners_loop client w namespace os ≢ panic
    unfolding owners_loop
    owners_loop-ne-panic namespace [] = λ e. cc
    owners_loop-ne-panic namespace (o ∷ os) = elim (Bool-cases (str_eq o.kind "ReplicaSet")) [
      | inr h ↦ rw h (owners_loop-ne-panic namespace os)
      | inl h ↦ rw h (
          through-ne-panic namespace (owners_loop client w namespace os)
            (client.get_replica_set w namespace o.name) (owners_loop-ne-panic namespace os)
            (answers.replica_sets namespace o.name))
    ]

    inject_recommended-Admitted :
        (pod : Pod Q) (p : Ppvpa Q) (rec : Option (Recommendation Q))
        → str_eq (annotation pod.meta.annotations annotation_surge_pod) "true" ≡ false
        → find_ppvpa client w pod ≡ ok (some p)
        → IsFor pod p
        → p.status.default_recommendation ≡ rec
        → Returns (Admitted pod) (inject_recommended client w pod p rec)
    inject_recommended-Admitted pod p none h e f k =
        (pod, refl, unchanged pod (no_recommendation p e f k))
    inject_recommended-Admitted pod p (some rec) h e f k =
        let (b, j, u) = use_upper-Returns p in
        (
          _,
          rw j refl,
          record {
            same_meta = refl;
            same_conditions = refl;
            same_class = refl;
            changed = inr (record {
              no_surge = h;
              ppvpa = p;
              found = e;
              is_for = f;
              recommendation = rec;
              recommended = k;
              upper = b;
              is_upper = u;
              containers = inject_all-Pointwise b rec.container_recommendations pod.containers;
            });
          },
        )

    inject_for-Admitted :
        (pod : Pod Q) (r : Outcome ApiError (Option (Ppvpa Q)))
        → str_eq (annotation pod.meta.annotations annotation_surge_pod) "true" ≡ false
        → find_ppvpa client w pod ≡ r
        → r ≢ panic
        → Returns (Admitted pod) (inject_for client w pod r)
    inject_for-Admitted pod (err x) h e n = (pod, refl, unchanged pod (search_failed x e))
    inject_for-Admitted pod panic h e n = absurd (n refl)
    inject_for-Admitted pod (ok none) h e n = (pod, refl, unchanged pod (not_found e))
    inject_for-Admitted pod (ok (some p)) h e n =
        inject_recommended-Admitted pod p p.status.default_recommendation h e (found-IsFor pod p e)
          refl

    -- Where the client's answers are values or errors, the webhook admits every pod without an
    -- error, and changes no metadata, no condition and no QoS class. It leaves a pod as it is only
    -- if that is marked as a surge pod, or the search for its PP-VPA fails or finds none, or the
    -- PP-VPA has no recommendation. Otherwise it treats the containers one by one: with the first of
    -- the recommendations of that PP-VPA for the container's name, it sets requests and limits to
    -- the upper bound where the PP-VPA has temporary replicas or, in the list of PRRs if that is
    -- returned, a flagged one, and to the target where not; a container with no recommendation is
    -- left as it is. The PP-VPA is the first listed one that targets the Deployment that owns a
    -- ReplicaSet that owns the pod.
    pub default_pod-Admitted : (pod : Pod Q) → Returns (Admitted pod) (default_pod client w pod)
    unfolding default_pod find_ppvpa
    default_pod-Admitted pod =
        elim (Bool-cases (str_eq (annotation pod.meta.annotations annotation_surge_pod) "true")) [
          | inl h ↦ (pod, rw h refl, unchanged pod (surge h))
          | inr h ↦ rw h (
              inject_for-Admitted pod _ h refl
                (owners_loop-ne-panic pod.meta.namespace pod.meta.owner_references))
        ]
