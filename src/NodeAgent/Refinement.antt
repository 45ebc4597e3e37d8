-- ===== src/NodeAgent/Refinement.antt =====
-- A run of the agent implements the table of names.
use pp_vpa.Prelude.{◌≡◌, refl, ap, ◌∙◌, List, [], ◌∷◌, String, All, Returns}
use pp_vpa.Float.{Float, Ieee}
use pp_vpa.Histogram.Codec.{Codec, Checkpoint}
use pp_vpa.Kube.{Quantities}
use pp_vpa.Cluster.{Client}
use pp_vpa.Patcher.{Kubelet}
use pp_vpa.NodeAgent.{PodState, pod_for_uid}
use pp_vpa.NodeAgent.Run.{Event, System, run}
use pp_vpa.NodeAgent.Registry.{Registry, effect, effects}
use pp_vpa.NodeAgent.Steps.{IsAdmissible, IsCalm, IsSystem, step-Steps}

module _ {F W Q : Type 0} ⦃float : Float F⦄ (laws : Ieee F) (quantities : Quantities Q)
    (codec : Codec (Checkpoint F)) (client : Client W Q) (kubelet : Kubelet Q W)
    (range_order : List (PodState F) → List (PodState F)) where
  pub record Ran (names : Registry) (y' : System F W Q) : Type 0 where
    pub valid : IsSystem laws quantities codec client kubelet range_order y'
    pub registered : (uid : String) → pod_for_uid y'.agent uid ≡ names uid

  -- Where a get of a PRR does not panic, no patch with a NaN priority is enqueued, and EnsurePod
  -- is given no payload whose options pass the checks and ask for more buckets than make yields,
  -- every run of ticks and calls from a well-formed agent returns, whatever the files and the
  -- servers answer, and leaves a well-formed agent; PodForUID then answers what the run, read as a
  -- table of names, gives: EnsurePod enters a name if the UID is unknown and a slice is found,
  -- ForgetPod removes one, and no other step changes the table.
  pub run-Ran :
      IsCalm laws quantities codec client kubelet range_order
      → (es : List (Event F Q)) (y : System F W Q)
      → IsSystem laws quantities codec client kubelet range_order y
      → All (IsAdmissible laws quantities codec client kubelet range_order) es
      → Returns
          (Ran (effects y.agent.cfg.cgroup_root es (pod_for_uid y.agent)))
          (run quantities codec client kubelet range_order es y)
  unfolding run
  run-Ran calm [] y v h = (y, refl, record { valid = v; registered = λ uid. refl })
  run-Ran calm (e ∷ es) y v (p, h) =
      let root = y.agent.cfg.cgroup_root in
      let (y', e1, s) = step-Steps laws quantities codec client kubelet range_order calm e y v p in
      let (z, e2, d) = run-Ran calm es y' s.valid h in
      let same : pod_for_uid y'.agent ≡ effect root e (pod_for_uid y.agent) =
        λ i uid. s.names uid i in
      (
        z,
        rw e1 e2,
        record {
          valid = d.valid;
          registered = λ uid.
              d.registered uid
              ∙ ap (λ r. effects r es (pod_for_uid y'.agent) uid) s.same_root
              ∙ ap (λ f. effects root es f uid) same;
        },
      )
