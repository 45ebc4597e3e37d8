-- ===== src/NodeAgent/Steps.antt =====
-- Every step of the agent returns, keeps it well-formed, and has its effect on the table of names.
use pp_vpa.Prelude.{
  ◌≡◌, ◌≢◌, subst, refl, sym, ap, List, [], ◌∷◌, none, String, inl, inr, arith, All, str_eq,
  Outcome, ok, err, panic, Returns, if◌then◌else◌,
}
use pp_vpa.Prelude.Tables.{entries, lookup-remove, All-remove}
use pp_vpa.Float.{Float, Ieee}
use pp_vpa.Clock.{Time}
use pp_vpa.Histogram.{HistogramError}
use pp_vpa.Histogram.Codec.{Codec, Checkpoint, IsExcessive, encode}
use pp_vpa.Kube.{Quantities, ApiError}
use pp_vpa.Api.{Prr}
use pp_vpa.Cluster.{Pod, Client, Session}
use pp_vpa.Patcher.{Kubelet}
use pp_vpa.Patcher.Queue.{IsQueue, IsRanked, push-Pushed}
use pp_vpa.Patcher.Drain.{drain_patches-Drained}
use pp_vpa.NodeAgent.{Host, PodState, Agent, EnsureError, forget_pod, pod_for_uid, ensure_pod}
use pp_vpa.NodeAgent.Pods.{IsEntry, Pointwise, nil, cons, SampledEntry, sample_all-SampledAgent}
use pp_vpa.NodeAgent.Registry.{Registry, effect}
use pp_vpa.NodeAgent.Ensure.{Ensured, after, ensure_pod-Ensured}
use pp_vpa.NodeAgent.Checkpoints.{write, write_loop, write_checkpoints}
use pp_vpa.NodeAgent.Run.{
  Event, sample_tick, drain_tick, checkpoint_tick, ensured, forgotten, enqueued, System, drain,
  ensure_answer, write_answer, step,
}

module _ {F W Q : Type 0} ⦃float : Float F⦄ (laws : Ieee F) (quantities : Quantities Q)
    (codec : Codec (Checkpoint F)) (client : Client W Q) (kubelet : Kubelet Q W)
    (range_order : List (PodState F) → List (PodState F)) where
  -- Only patches with a priority that is no NaN are enqueued, and no PRR that EnsurePod is given
  -- has an excessive payload.
  abbrev pub IsAdmissible : Event F Q → Type 0
  IsAdmissible (enqueued p) = IsRanked p
  IsAdmissible (sample_tick host t) = Unit
  IsAdmissible drain_tick = Unit
  IsAdmissible checkpoint_tick = Unit
  IsAdmissible (ensured host p prr) = ¬ IsExcessive codec prr.status.histogram_checkpoint
  IsAdmissible (forgotten uid) = Unit

  -- A get of a PRR returns or fails.
  abbrev pub IsCalm : Type 0
  IsCalm = (w : W) (namespace name : String) → client.get_prr w namespace name ≢ panic

  -- Every pod is in a well-formed state under its UID, and the queue is valid.
  pub record IsSystem (y : System F W Q) : Type 0 where
    pub entries : All (IsEntry laws) y.agent.pods
    pub queue : IsQueue quantities y.agent.queue

  pub record Stepped (root : String) (f : Registry) (y' : System F W Q) : Type 0 where
    pub valid : IsSystem y'
    pub same_root : y'.agent.cfg.cgroup_root ≡ root
    pub names : (uid : String) → pod_for_uid y'.agent uid ≡ f uid

  write-calm :
      IsCalm
      → (st : PodState F) (s : Session W Q)
      → (write codec client st.namespace st.prr_name st.cpu.h s).1 ≢ panic
  unfolding write encode
  write-calm calm st s = λ h. ground (arith, calm s.world st.namespace st.prr_name, h)

  write_loop-calm :
      IsCalm
      → (sts : List (PodState F)) (s : Session W Q) → (write_loop codec client sts s).1 ≢ panic
  unfolding write_loop
  write_loop-calm calm [] s = cc
  write_loop-calm calm (st ∷ sts) s =
      let t = (write codec client st.namespace st.prr_name st.cpu.h s).0 in
      λ h. ground (arith, write-calm calm st s, write_loop-calm calm sts t, h)

  Pointwise-names :
      (host : Host) {a b : List (String × PodState F)}
      → Pointwise (SampledEntry laws host) a b
      → (cfg : Agent F Q) (uid : String)
      → pod_for_uid (record cfg { pods = b }) uid ≡ pod_for_uid (record cfg { pods = a }) uid
  unfolding pod_for_uid
  Pointwise-names host nil cfg uid = refl
  Pointwise-names host (cons r rs) cfg uid = ground (arith, r, Pointwise-names host rs cfg uid)

  SampledAgent-names :
      (host : Host) (a b : Agent F Q)
      → Pointwise (SampledEntry laws host) a.pods b.pods
      → (uid : String) → pod_for_uid b uid ≡ pod_for_uid a uid
  unfolding pod_for_uid
  SampledAgent-names host a b r uid = Pointwise-names host r a uid

  drain-Stepped :
      (y : System F W Q)
      → IsSystem y
      → Stepped y.agent.cfg.cgroup_root
          (pod_for_uid y.agent)
          (drain quantities codec client kubelet range_order y)
  unfolding drain
  drain-Stepped y v =
      let d = drain_patches-Drained quantities kubelet laws y.session.world y.agent.queue v.queue in
      record {
        valid = record { entries = v.entries; queue = d.valid };
        same_root = refl;
        names = λ uid. unfold pod_for_uid in refl;
      }

  abbrev pub Steps : Event F Q → System F W Q → Outcome HistogramError (System F W Q) → Type 0
  Steps e y r =
      Returns
        (Stepped y.agent.cfg.cgroup_root (effect y.agent.cfg.cgroup_root e (pod_for_uid y.agent))) r

  tick-Steps :
      (host : Host) (t : Time) (y : System F W Q)
      → IsSystem y
      → Steps
          (sample_tick host t)
          y
          (step quantities codec client kubelet range_order (sample_tick host t) y)
  unfolding step
  tick-Steps host t y v =
      let (a, e, r) = sample_all-SampledAgent laws host t y.agent v.entries in
      (
        record y { agent = a },
        rw e refl,
        record {
          valid = record {
            entries = r.entries;
            queue = subst (IsQueue quantities) (sym r.same_queue) v.queue;
          };
          same_root = ap (λ c. c.cgroup_root) r.same_cfg;
          names = SampledAgent-names host y.agent a r.pods;
        },
      )

  written :
      (y : System F W Q)
      → IsSystem y
      → (r : Session W Q × Outcome ApiError (Unit {0})) → r.1 ≢ panic
      → Steps checkpoint_tick y (write_answer quantities codec client kubelet range_order y r)
  unfolding write_answer
  written y v (s, ok u) h = (
    record y { session = s },
    refl,
    record {
      valid = record { entries = v.entries; queue = v.queue };
      same_root = refl;
      names = λ uid. refl;
    },
  )
  written y v (s, err e) h = (
    record y { session = s },
    refl,
    record {
      valid = record { entries = v.entries; queue = v.queue };
      same_root = refl;
      names = λ uid. refl;
    },
  )
  written y v (s, panic) h = absurd (h refl)

  checkpoint-Steps :
      IsCalm
      → (y : System F W Q) → IsSystem y
      → Steps checkpoint_tick y (step quantities codec client kubelet range_order checkpoint_tick y)
  unfolding step write_answer write_checkpoints
  checkpoint-Steps calm y v =
      written y v _ (write_loop-calm calm (range_order (entries y.agent.pods)) y.session)

  answered :
      (host : Host) (p : Pod Q) (prr : Prr Q) (y : System F W Q)
      → IsSystem y
      → (r : Outcome EnsureError (Agent F Q)) → r ≢ panic
      → Ensured laws codec host y.agent p (after laws codec y.agent r)
      → Steps (ensured host p prr) y (ensure_answer quantities codec client kubelet range_order y r)
  unfolding ensure_answer
  answered host p prr y v (ok b) h d = (
    record y { agent = b },
    refl,
    record {
      valid = record {
        entries = d.entries;
        queue = subst (IsQueue quantities) (sym d.same_queue) v.queue;
      };
      same_root = ap (λ c. c.cgroup_root) d.same_cfg;
      names = d.names;
    },
  )
  answered host p prr y v (err e) h d =
      (y, refl, record { valid = v; same_root = refl; names = d.names })
  answered host p prr y v panic h d = absurd (h refl)

  ensured-Steps :
      (host : Host) (p : Pod Q) (prr : Prr Q) (y : System F W Q)
      → IsSystem y
      → ¬ IsExcessive codec prr.status.histogram_checkpoint
      → Steps
          (ensured host p prr)
          y
          (step quantities codec client kubelet range_order (ensured host p prr) y)
  unfolding step ensure_answer
  ensured-Steps host p prr y v m =
      let (d, cases) = ensure_pod-Ensured laws codec host y.agent p prr v.entries m in
      answered host p prr y v (ensure_pod codec host y.agent p prr)
        (λ h. elim cases [ inl e ↦ cc | inr (x, e, f) ↦ cc ]) d

  forget_pod-names :
      (a : Agent F Q) (uid j : String)
      → pod_for_uid (forget_pod a uid) j ≡ (if str_eq uid j then none else pod_for_uid a j)
  unfolding pod_for_uid forget_pod
  forget_pod-names a uid j = ground (arith, lookup-remove uid j a.pods)

  pub step-Steps :
      IsCalm
      → (e : Event F Q) (y : System F W Q) → IsSystem y
      → IsAdmissible e
      → Steps e y (step quantities codec client kubelet range_order e y)
  unfolding step forget_pod
  step-Steps calm (sample_tick host t) y v h = tick-Steps host t y v
  step-Steps calm drain_tick y v h =
      (drain quantities codec client kubelet range_order y, refl, drain-Stepped y v)
  step-Steps calm checkpoint_tick y v h = checkpoint-Steps calm y v
  step-Steps calm (ensured host p prr) y v h = ensured-Steps host p prr y v h
  step-Steps calm (forgotten uid) y v h = (
    _,
    refl,
    record {
      valid = record {
        entries = All-remove (IsEntry laws) uid y.agent.pods v.entries;
        queue = v.queue;
      };
      same_root = refl;
      names = forget_pod-names y.agent uid;
    },
  )
  step-Steps calm (enqueued p) y v h = (
    _,
    refl,
    record {
      valid = record {
        entries = v.entries;
        queue = (push-Pushed quantities laws y.agent.queue p v.queue h).valid;
      };
      same_root = refl;
      names = λ uid. unfold pod_for_uid in refl;
    },
  )
