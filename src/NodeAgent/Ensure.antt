-- ===== src/NodeAgent/Ensure.antt =====
-- EnsurePod registers a pod in a well-formed state, or leaves the agent as it was.
use pp_vpa.Prelude.{
  ◌≡◌, refl, ◌∙◌, true, Bool-cases, eq_iff, subst, sym, ap, Option, none, some, String, ◌⊎◌, inl,
  inr, arith, All, str_eq, Outcome, ok, err, panic, Option-cases, if◌then◌else◌,
}
use pp_vpa.Prelude.Tables.{lookup, insert, lookup-insert, All-insert}
use pp_vpa.Float.{Float, Ieee}
use pp_vpa.Histogram.Codec.{Codec, Checkpoint, IsExcessive}
use pp_vpa.Api.{Prr}
use pp_vpa.Cluster.{Pod}
use pp_vpa.Cgroup.{CgroupError, pod_path}
use pp_vpa.NodeAgent.{
  Host, PodState, Agent, EnsureError, no_slice, new_pod_state, ensure_pod, pod_for_uid,
}
use pp_vpa.NodeAgent.Pods.{IsEntry}
use pp_vpa.NodeAgent.Fresh.{new_pod_state-IsPod}
use pp_vpa.NodeAgent.Registry.{Registry, admit, ensured_in}

sum-cases {ℓ κ} :
    {A : Type ℓ} {B : Type κ} (x : A ⊎ B) → ((a : A) × (x ≡ inl a)) ⊎ ((b : B) × (x ≡ inr b))
sum-cases (inl a) = inl (a, refl)
sum-cases (inr b) = inr (b, refl)

module _ {F Q : Type 0} ⦃float : Float F⦄ (laws : Ieee F) (codec : Codec (Checkpoint F)) where
  -- The agent after EnsurePod.
  pub record Ensured (host : Host) (a : Agent F Q) (p : Pod Q) (b : Agent F Q) : Type 0 where
    pub entries : All (IsEntry laws) b.pods
    pub same_queue : b.queue ≡ a.queue
    pub same_cfg : b.cfg ≡ a.cfg
    pub names :
        (uid : String)
        → pod_for_uid b uid ≡ ensured_in host.exists a.cfg.cgroup_root p (pod_for_uid a) uid

  -- The caller gets the agent, or the error that no slice was found, which changes nothing.
  abbrev pub after : Agent F Q → Outcome EnsureError (Agent F Q) → Agent F Q
  after a (ok b) = b
  after a (err e) = a
  after a panic = a

  at_uid :
      (p : Pod Q) (f : Registry) (uid : String) (n : Option (String × String))
      → f p.meta.uid ≡ n
      → str_eq p.meta.uid uid ≡ true
      → f uid ≡ n
  at_uid p f uid n e h = subst (λ x. f x ≡ n) ((eq_iff p.meta.uid uid).0 h) e

  known :
      (a : Agent F Q) (uid : String) (st : PodState F)
      → lookup uid a.pods ≡ some st
      → pod_for_uid a uid ≡ some (st.namespace, st.name)
  unfolding pod_for_uid
  known a uid st e = ground arith

  unknown : (a : Agent F Q) (uid : String) → lookup uid a.pods ≡ none → pod_for_uid a uid ≡ none
  unfolding pod_for_uid
  unknown a uid e = ground arith

  pod_for_uid-insert :
      (a : Agent F Q) (key uid : String) (st : PodState F)
      → pod_for_uid (record a { pods = insert key st a.pods }) uid
        ≡ (if str_eq key uid then some (st.namespace, st.name) else pod_for_uid a uid)
  unfolding pod_for_uid
  pod_for_uid-insert a key uid st = ground (arith, lookup-insert key uid st a.pods)

  kept-names :
      (host : Host) (a : Agent F Q) (p : Pod Q) (n : Option (String × String))
      → pod_for_uid a p.meta.uid ≡ n
      → admit
          (p.meta.namespace, p.meta.name)
          (pod_path host.exists a.cfg.cgroup_root p.meta.uid p.qos_class)
          n
        ≡ n
      → (uid : String)
      → pod_for_uid a uid ≡ ensured_in host.exists a.cfg.cgroup_root p (pod_for_uid a) uid
  kept-names host a p n e h uid = elim (Bool-cases (str_eq p.meta.uid uid)) [
    | inl q ↦ rw (q, at_uid p (pod_for_uid a) uid n e q) (sym h)
    | inr q ↦ rw q refl
  ]

  module _ (host : Host) (a : Agent F Q) (p : Pod Q) (prr : Prr Q) where
    abbrev slice_of : CgroupError ⊎ String
    slice_of = pod_path host.exists a.cfg.cgroup_root p.meta.uid p.qos_class

    ensure_known :
        (st : PodState F)
        → lookup p.meta.uid a.pods ≡ some st
        → ensure_pod codec host a p prr ≡ ok a
    unfolding ensure_pod
    ensure_known st e = ground arith

    ensure_refused :
        (x : CgroupError)
        → lookup p.meta.uid a.pods ≡ none
        → slice_of ≡ inl x
        → ensure_pod codec host a p prr ≡ err (no_slice x)
    unfolding ensure_pod
    ensure_refused x e f = ground arith

    ensure_fresh :
        (slice : String) (st : PodState F)
        → lookup p.meta.uid a.pods ≡ none
        → slice_of ≡ inr slice
        → new_pod_state codec p prr slice ≡ ok st
        → ensure_pod codec host a p prr ≡ ok (record a { pods = insert p.meta.uid st a.pods })
    unfolding ensure_pod
    ensure_fresh slice st e f g = ground arith

    fresh-names :
        (slice : String) (st : PodState F)
        → lookup p.meta.uid a.pods ≡ none
        → slice_of ≡ inr slice
        → (st.namespace ≡ p.meta.namespace) × (st.name ≡ p.meta.name)
        → (uid : String)
        → pod_for_uid (record a { pods = insert p.meta.uid st a.pods }) uid
          ≡ ensured_in host.exists a.cfg.cgroup_root p (pod_for_uid a) uid
    fresh-names slice st e f (n, m) uid = elim (Bool-cases (str_eq p.meta.uid uid)) [
      | inl q ↦
          let found : pod_path host.exists a.cfg.cgroup_root p.meta.uid p.qos_class ≡ inr slice =
            f in
          let new = at_uid p (pod_for_uid a) uid none (unknown a p.meta.uid e) q in
          pod_for_uid-insert a p.meta.uid uid st ∙ rw (q, new, found, n, m) refl
      | inr q ↦ pod_for_uid-insert a p.meta.uid uid st ∙ rw q refl
    ]

    -- EnsurePod on well-formed pods, with a PRR whose payload does not have options that pass the
    -- checks and ask for more buckets than make yields, does not panic, and its only error is that
    -- PodPath finds no slice of the pod. It leaves well-formed pods, the queue and the
    -- configuration, and registers the name of the pod under its UID where that is unknown and the
    -- slice is found; no other entry changes.
    pub ensure_pod-Ensured :
        All (IsEntry laws) a.pods
        → ¬ IsExcessive codec prr.status.histogram_checkpoint
        → let r = ensure_pod codec host a p prr in
          Ensured host a p (after a r)
          × ((r ≡ ok (after a r))
              ⊎ ((e : CgroupError) × (r ≡ err (no_slice e)) × (slice_of ≡ inl e)))
    ensure_pod-Ensured h m = elim (Option-cases (lookup p.meta.uid a.pods)) [
      | inr (st, e) ↦ rw (ensure_known st e) (
          (
            record {
              entries = h;
              same_queue = refl;
              same_cfg = refl;
              names =
                  kept-names host a p (some (st.namespace, st.name)) (known a p.meta.uid st e) refl;
            },
            inl refl,
          ))
      | inl e ↦ elim (sum-cases slice_of) [
        | inl (x, f) ↦ rw (ensure_refused x e f) (
            (
              record {
                entries = h;
                same_queue = refl;
                same_cfg = refl;
                names =
                    kept-names host a p none (unknown a p.meta.uid e)
                      (ap (λ r. admit (p.meta.namespace, p.meta.name) r none) f);
              },
              inr (x, refl, f),
            ))
        | inr (slice, f) ↦
            let (st, g, v) = new_pod_state-IsPod laws codec p prr slice m in
            rw (ensure_fresh slice st e f g) (
              (
                record {
                  entries = All-insert (IsEntry laws) p.meta.uid st a.pods (sym v.1, v.0) h;
                  same_queue = refl;
                  same_cfg = refl;
                  names = fresh-names slice st e f (v.2, v.3);
                },
                inl refl,
              ))
      ]
    ]
