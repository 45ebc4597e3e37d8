-- ===== src/NodeAgent/Tests.antt =====
-- An agent on a node with the slice of one pod, which uses 4096 bytes.
use pp_vpa.Prelude.{
  ℕ, ◌+◌, sym, ◌≡◌, refl, true, false, List, [], ◌∷◌, ◌++◌, none, some, String, ◌⊎◌, inl, inr,
  arith, All, str_eq, ok, err, Returns, if◌then◌else◌,
}
use pp_vpa.Prelude.Int.{pos}
use pp_vpa.Float.Fixed.{Fixed, fixed_float, Fixed-Ieee}
use pp_vpa.Clock.{epoch}
use pp_vpa.Histogram.Tests.{unread, listing}
use pp_vpa.Cluster.{Pod, Write}
use pp_vpa.NodeAgent.Checkpoints.{write_checkpoints}
use pp_vpa.NodeAgent.Written.{IsPayload, write_checkpoints-IsPayload}
use pp_vpa.Cluster.Samples.{sample_client, sample_pod, sample_prr, start}
use pp_vpa.Patcher.Tests.{amounts, limited, light, ranked}
use pp_vpa.Compat.{absent, probe_node}
use pp_vpa.Cgroup.{CgroupError, pod_path, join, replace_dashes}
use pp_vpa.NodeAgent.{Host, Config, PodState, Agent, new_agent, ensure_pod, no_slice, pod_for_uid}
use pp_vpa.NodeAgent.Sampling.{sample_all}
use pp_vpa.NodeAgent.Pods.{SampledAgent, sample_all-SampledAgent}
use pp_vpa.NodeAgent.Fresh.{new_pod_state-IsPod}
use pp_vpa.NodeAgent.Registry.{effects}
use pp_vpa.NodeAgent.Ensure.{Ensured, after, ensure_pod-Ensured}
use pp_vpa.NodeAgent.Run.{
  Event, sample_tick, drain_tick, checkpoint_tick, ensured, forgotten, enqueued, System, run,
}
use pp_vpa.NodeAgent.Steps.{IsSystem}
use pp_vpa.NodeAgent.Refinement.{Ran, run-Ran}

abbrev pub slice : String
slice = "/sys/fs/cgroup/kubepods.slice/kubepods-burstable.slice/kubepods-burstable-poda_1.slice"

abbrev pub host : Host
host = record {
  exists = λ p. if str_eq p slice then true else str_eq p "/sys/fs/cgroup/cgroup.controllers";
  config = λ p. absent;
  open_file = λ p. none;
  read_all = λ p. some "4096\n";
}

abbrev cfg : Config
cfg = record {
  node_name = "node";
  cgroup_root = "";
  kubelet_config = "";
  sample_interval = pos 0;
  checkpoint_every = pos 5;
}

abbrev pub empty_agent : Agent Fixed ℕ
empty_agent = record {
  cfg = record cfg { sample_interval = pos 10000000000 };
  caps = record { cgroup_v2 = true; swap_accounting = false; static_cpu_manager = false };
  pods = [];
  queue = [];
  interval = pos 5;
}

created : new_agent {F = Fixed} {Q = ℕ} host cfg ≡ inr empty_agent
unfolding new_agent probe_node
created = refl

-- The pod "a-1".
abbrev pub pod : Pod ℕ
pod = sample_pod "a-1"

pub found : pod_path host.exists "" "a-1" "Burstable" ≡ inr slice
unfolding pod_path join replace_dashes
found = refl

ensure_pod-Ensured_example :
    Ensured Fixed-Ieee listing host empty_agent pod (
      after Fixed-Ieee listing empty_agent
        (ensure_pod listing host empty_agent pod (sample_prr "a-1")))
    × ((ensure_pod listing host empty_agent pod (sample_prr "a-1")
          ≡ ok (
              after Fixed-Ieee listing empty_agent
                (ensure_pod listing host empty_agent pod (sample_prr "a-1"))))
        ⊎ ((e : CgroupError) × (ensure_pod listing host empty_agent pod (sample_prr "a-1")
              ≡ err (no_slice e))
            × (pod_path host.exists "" "a-1" "Burstable" ≡ inl e)))
ensure_pod-Ensured_example =
    ensure_pod-Ensured Fixed-Ieee listing host empty_agent pod (sample_prr "a-1") tt unread

abbrev events : List (Event Fixed ℕ)
events =
    ensured host pod (sample_prr "a-1")
    ∷ sample_tick host (epoch + 5)
    ∷ drain_tick
    ∷ checkpoint_tick
    ∷ enqueued light
    ∷ drain_tick
    ∷ forgotten "b"
    ∷ []

abbrev system : System Fixed ℕ ℕ
system = record { agent = empty_agent; session = start }

registered_names :
    (effects "" events (pod_for_uid empty_agent) "a-1" ≡ some ("default", "a-1"))
    × (effects "" events (pod_for_uid empty_agent) "b" ≡ none)
unfolding pod_path join replace_dashes pod_for_uid
registered_names = (refl, refl)

abbrev same_order : List (PodState Fixed) → List (PodState Fixed)
same_order sts = sts

system-IsSystem : IsSystem Fixed-Ieee amounts listing sample_client limited same_order system
system-IsSystem = record {
  entries = tt;
  queue = record { heap = λ c p q. absurd (omega arith); ranked = λ p m. ranked p };
}

run-Ran_example :
    Returns
      (Ran Fixed-Ieee amounts listing sample_client limited same_order
        (effects "" events (pod_for_uid empty_agent)))
      (run amounts listing sample_client limited same_order events system)
run-Ran_example =
    run-Ran Fixed-Ieee amounts listing sample_client limited same_order (λ w namespace name. cc)
      events system system-IsSystem (unread, (tt, (tt, (tt, (ranked light, (tt, (tt, tt)))))))

-- The state in which the pod is registered.
abbrev pub fresh : PodState Fixed
fresh = (new_pod_state-IsPod Fixed-Ieee listing pod (sample_prr "a-1") slice unread).0

abbrev busy : Agent Fixed ℕ
busy = record empty_agent { pods = ("a-1", fresh) ∷ [] }

sample_all-SampledAgent_example :
    Returns (SampledAgent Fixed-Ieee host busy) (sample_all host (epoch + 5) busy)
sample_all-SampledAgent_example = sample_all-SampledAgent Fixed-Ieee host (epoch + 5) busy (
  (
    sym (new_pod_state-IsPod Fixed-Ieee listing pod (sample_prr "a-1") slice unread).2.1,
    (new_pod_state-IsPod Fixed-Ieee listing pod (sample_prr "a-1") slice unread).2.0,
  ),
  tt,
)

write_checkpoints-IsPayload_example :
    (ws : List (Write ℕ)) × ((write_checkpoints listing sample_client same_order busy
        start).0.issued
      ≡ [] ++ ws)
    × All (IsPayload listing sample_client (fresh ∷ [])) ws
write_checkpoints-IsPayload_example =
    write_checkpoints-IsPayload listing sample_client same_order busy (λ sts st m. m) start
