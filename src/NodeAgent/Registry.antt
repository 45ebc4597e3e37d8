-- ===== src/NodeAgent/Registry.antt =====
-- The agent as a table of the names of its pods: what each event is to do to it.
use pp_vpa.Prelude.{
  Bool, List, [], ◌∷◌, Option, none, some, String, ◌⊎◌, inl, inr, str_eq, if◌then◌else◌,
}
use pp_vpa.Cluster.{Pod}
use pp_vpa.Cgroup.{CgroupError, pod_path}
use pp_vpa.NodeAgent.Run.{
  Event, sample_tick, drain_tick, checkpoint_tick, ensured, forgotten, enqueued,
}

-- The namespaced names of the pods that the agent knows, by their UIDs.
abbrev pub Registry : Type 0
Registry = String → Option (String × String)

-- What EnsurePod is to do to one entry: a known pod stays, an unknown one with a slice is entered.
abbrev pub admit :
    String × String → CgroupError ⊎ String → Option (String × String) → Option (String × String)
admit name slice (some n) = some n
admit name (inl e) none = none
admit name (inr slice) none = some name

abbrev pub ensured_in : {Q : Type 0} → (String → Bool) → String → Pod Q → Registry → Registry
ensured_in exists root p f uid =
    if str_eq p.meta.uid uid
    then admit (p.meta.namespace, p.meta.name) (pod_path exists root p.meta.uid p.qos_class) (f uid)
    else f uid

-- The abstract agent: EnsurePod enters a name, ForgetPod removes one, and nothing else matters.
abbrev pub effect : {F Q : Type 0} → String → Event F Q → Registry → Registry
effect root (ensured host p prr) f = ensured_in host.exists root p f
effect root (forgotten uid) f = λ j. if str_eq uid j then none else f j
effect root (sample_tick host t) f = f
effect root drain_tick f = f
effect root checkpoint_tick f = f
effect root (enqueued p) f = f

abbrev pub effects : {F Q : Type 0} → String → List (Event F Q) → Registry → Registry
effects root [] f = f
effects root (e ∷ es) f = effects root es (effect root e f)
