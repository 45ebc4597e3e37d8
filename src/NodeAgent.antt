-- ===== src/NodeAgent.antt =====
-- internal/nodeagent: the agent of a node (agent.go) and its checkpoint writer (checkpointwriter.go).
-- The file system at a moment is a `Host`; the cluster is a session of the client and of the kubelet's
-- API. Here are the agent's state, its construction and its table of pods; the children have the rest.
pub mod Sampling
pub mod Pods
pub mod Checkpoints
pub mod Written
pub mod Run
pub mod Registry
pub mod Fresh
pub mod Ensure
pub mod Steps
pub mod Refinement
pub mod Restart
mod Tests
mod RestartTests
use pp_vpa.Prelude.{
  ℕ, ◌*◌, ◌^◌, List, [], ◌∷◌, Bool, Option, none, some, String, ◌⊎◌, inl, inr, if◌then◌else◌,
  Outcome, ok, err, panic, ◌>>=◌,
}
use pp_vpa.Prelude.Int.{pos, leb_ℤ}
use pp_vpa.Prelude.Tables.{lookup, insert, remove}
use pp_vpa.Float.{Float, nought}
use pp_vpa.Clock.{Duration}
use pp_vpa.Histogram.{Histogram, HistogramError, merge}
use pp_vpa.Histogram.Codec.{Bytes, Codec, Checkpoint, decode}
use pp_vpa.Recommender.Aggregate.{kept}
use pp_vpa.Api.{Prr}
use pp_vpa.Cluster.{Pod}
use pp_vpa.Text.{Reader}
use pp_vpa.Cgroup.{CgroupError, pod_path}
use pp_vpa.Compat.{NodeCapabilities, ProbeError, ConfigFile, probe_node}
use pp_vpa.Ingest.{
  CpuStream, snapshot, MemoryPeakExtractor, new_cpu_stream, new_memory_peak_extractor,
}
use pp_vpa.Watermark
use pp_vpa.Watermark.{Watermark}
use pp_vpa.Patcher.{PendingPatch, new_queue}

-- The files of the node: os.Stat without an error, the kubelet's configuration, os.Open, os.ReadFile.
pub record Host : Type 0 where
  pub exists : String → Bool
  pub config : String → ConfigFile
  pub open_file : String → Option Reader
  pub read_all : String → Option String

pub record Config : Type 0 where
  pub node_name : String
  pub cgroup_root : String
  pub kubelet_config : String
  pub sample_interval : Duration
  pub checkpoint_every : Duration

pub record PodState (F : Type 0) : Type 0 where
  pub uid : String
  pub namespace : String
  pub name : String
  pub prr_name : String
  pub qos : String
  pub cgroup_path : String
  pub cpu : CpuStream F
  pub mem : MemoryPeakExtractor F
  pub cpu_watermark : Watermark F
  pub mem_watermark : Watermark F
  pub prev_oom_kill : ℕ
  pub mem_limit : F

-- The clients are parameters of the methods; `interval` is the checkpoint writer's.
pub record Agent (F Q : Type 0) : Type 0 where
  pub cfg : Config
  pub caps : NodeCapabilities
  pub pods : List (String × PodState F)
  pub queue : List (PendingPatch F Q)
  pub interval : Duration

pub data NewError : Type 0 where
  probe_failed : ProbeError → NewError
  no_cgroup_v2 : NewError

pub data EnsureError : Type 0 where
  no_slice : CgroupError → EnsureError
  no_histogram : HistogramError → EnsureError

abbrev pub minute : Duration
minute = pos (60 * 10 ^ 9)

-- Intervals that are not positive are set to their defaults.
unfoldable pub with_defaults : Config → Config
with_defaults cfg = record cfg {
  sample_interval =
      if leb_ℤ cfg.sample_interval (pos 0) then pos (10 * 10 ^ 9) else cfg.sample_interval;
  checkpoint_every = if leb_ℤ cfg.checkpoint_every (pos 0) then minute else cfg.checkpoint_every;
}

module _ {F Q : Type 0} where
  -- New
  unfoldable pub new_probed : Config → NodeCapabilities × Option ProbeError → NewError ⊎ Agent F Q
  unfolding with_defaults
  new_probed cfg (caps, some e) = inl (probe_failed e)
  new_probed cfg (caps, none) =
      let full = with_defaults cfg in
      if caps.cgroup_v2
      then inr (record {
        cfg = full;
        caps = caps;
        pods = [];
        queue = new_queue;
        interval = full.checkpoint_every;
      })
      else inl no_cgroup_v2

  unfoldable pub new_agent : Host → Config → NewError ⊎ Agent F Q
  unfolding new_probed
  new_agent host cfg =
      new_probed cfg (probe_node host.exists host.config cfg.cgroup_root cfg.kubelet_config)

  unfoldable pub forget_pod : Agent F Q → String → Agent F Q
  forget_pod a uid = record a { pods = remove uid a.pods }

  -- The namespaced name, where the pod is known.
  unfoldable pub pod_for_uid : Agent F Q → String → Option (String × String)
  pod_for_uid a uid = elim (lookup uid a.pods) [
    | none ↦ none
    | some st ↦ some (st.namespace, st.name)
  ]

abbrev pub as_ensure_error : {A : Type 0} → Outcome HistogramError A → Outcome EnsureError A
as_ensure_error (ok a) = ok a
as_ensure_error (err e) = err (no_histogram e)
as_ensure_error panic = panic

module _ {F : Type 0} ⦃float : Float F⦄ where
  -- A payload that decodes is merged into the stream's histogram; a failure of either is ignored.
  unfoldable pub restore_decoded :
      CpuStream F → Outcome HistogramError (Histogram F) → Outcome HistogramError (CpuStream F)
  restore_decoded cs (ok h) = do
    r ← kept (snapshot cs) (merge (snapshot cs) h)
    ok (record { h = r })
  restore_decoded cs (err e) = ok cs
  restore_decoded cs panic = panic

  unfoldable pub restore :
      Codec (Checkpoint F) → CpuStream F → Bytes → Outcome HistogramError (CpuStream F)
  unfolding restore_decoded
  restore codec cs [] = ok cs
  restore codec cs (b ∷ bs) = restore_decoded cs (decode codec (b ∷ bs))

  -- The state of a pod that is seen for the first time.
  unfoldable pub new_pod_state :
      {Q : Type 0}
      → Codec (Checkpoint F)
      → Pod Q
      → Prr Q
      → String
      → Outcome HistogramError (PodState F)
  unfolding restore
  new_pod_state codec p prr slice = do
    cs ← new_cpu_stream
    mp ← new_memory_peak_extractor minute
    restored ← restore codec cs prr.status.histogram_checkpoint
    ok (record {
      uid = p.meta.uid;
      namespace = p.meta.namespace;
      name = p.meta.name;
      prr_name = prr.meta.name;
      qos = p.qos_class;
      cgroup_path = slice;
      cpu = restored;
      mem = mp;
      cpu_watermark = Watermark.new (pos (3600 * 10 ^ 9));
      mem_watermark = Watermark.new (pos (24 * 3600 * 10 ^ 9));
      prev_oom_kill = 0;
      mem_limit = nought;
    })

  -- EnsurePod: an error leaves the agent as it was.
  unfoldable pub ensure_pod :
      {Q : Type 0}
      → Codec (Checkpoint F)
      → Host
      → Agent F Q
      → Pod Q
      → Prr Q
      → Outcome EnsureError (Agent F Q)
  unfolding new_pod_state
  ensure_pod codec host a p prr = elim (lookup p.meta.uid a.pods) [
    | some st ↦ ok a
    | none ↦ elim (pod_path host.exists a.cfg.cgroup_root p.meta.uid p.qos_class) [
      | inl e ↦ err (no_slice e)
      | inr slice ↦ do
        st ← as_ensure_error (new_pod_state codec p prr slice)
        ok (record a { pods = insert p.meta.uid st a.pods })
    ]
  ]
