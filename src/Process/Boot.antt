-- ===== src/Process/Boot.antt =====
-- internal/modes/nodeagent.go: the set-up of the node agent, and its Run until the context is done.
use pp_vpa.Prelude.{
  Option, none, some, List, String, str_eq, if◌then◌else◌, ◌⊎◌, inl, inr, Outcome, ok, err, panic,
}
use pp_vpa.Prelude.Int.{pos}
use pp_vpa.Float.{Float}
use pp_vpa.Histogram.{HistogramError}
use pp_vpa.Histogram.Codec.{Codec, Checkpoint}
use pp_vpa.Kube.{Quantities}
use pp_vpa.Cluster.{Client, Session}
use pp_vpa.Patcher.{Kubelet}
use pp_vpa.NodeAgent.{Host, Config, PodState, Agent, NewError, new_agent}
use pp_vpa.NodeAgent.Run.{Event, System, run}

pub record NodeAgentOptions : Type 0 where
  pub node_name : String
  pub cgroup_root : String
  pub kubelet_config : String

-- What ctx.Err() returns; it is nil only before the context is done.
pub data ContextError : Type 0 where
  canceled deadline_exceeded : ContextError

pub data BootError (E : Type 0) : Type 0 where
  kube_client controller_client : E → BootError E
  no_node_name : BootError E
  agent_error : NewError → BootError E
  stopped : ContextError → BootError E

-- How RunNodeAgent ends: with an error or the nil error `none`, or by a panic.
pub data Ended (E : Type 0) : Type 0 where
  returned : Option (BootError E) → Ended E
  crashed : Ended E

-- The clients: the error of kubernetes.NewForConfig and that of client.New, and os.Getenv.
pub record Surroundings (E : Type 0) : Type 0 where
  pub new_for_config : Option E
  pub new_client : Option E
  pub getenv : String → String

-- `--node-name`, or else the variable NODE_NAME.
unfoldable pub node_name_of : (String → String) → NodeAgentOptions → String
node_name_of getenv opts = if str_eq opts.node_name "" then getenv "NODE_NAME" else opts.node_name

-- The intervals are not set, so New takes its defaults.
unfoldable pub agent_config : String → NodeAgentOptions → Config
agent_config name opts = record {
  node_name = name;
  cgroup_root = opts.cgroup_root;
  kubelet_config = opts.kubelet_config;
  sample_interval = pos 0;
  checkpoint_every = pos 0;
}

module _ {E F Q : Type 0} where
  abbrev agent_or : NewError ⊎ Agent F Q → BootError E ⊎ Agent F Q
  agent_or (inl e) = inl (agent_error e)
  agent_or (inr a) = inr a

  unfoldable pub boot_named : Host → NodeAgentOptions → String → BootError E ⊎ Agent F Q
  boot_named host opts name =
      if str_eq name ""
      then inl no_node_name
      else agent_or (new_agent host (agent_config name opts))

  -- RunNodeAgent up to its call of Run.
  unfoldable pub boot : Surroundings E → Host → NodeAgentOptions → BootError E ⊎ Agent F Q
  unfolding boot_named
  boot around host opts = elim around.new_for_config [
    | some e ↦ inl (kube_client e)
    | none ↦ elim around.new_client [
      | some e ↦ inl (controller_client e)
      | none ↦ boot_named host opts (node_name_of around.getenv opts)
    ]
  ]

module _ {E F W Q : Type 0} ⦃float : Float F⦄ (quantities : Quantities Q)
    (codec : Codec (Checkpoint F)) (client : Client W Q) (kubelet : Kubelet Q W)
    (range_order : List (PodState F) → List (PodState F)) where
  abbrev unless_nil : Option ContextError → Option (BootError E)
  unless_nil none = none
  unless_nil (some e) = some (stopped e)

  -- `step` returns no error, so its case is that of a panic.
  abbrev ended : Option ContextError → Outcome HistogramError (System F W Q) → Ended E
  ended e (ok y) = returned (unless_nil e)
  ended e (err x) = crashed
  ended e panic = crashed

  -- Run: the ticks and calls until the context is done, and then ctx.Err().
  unfoldable pub run_until_done :
      Option ContextError → List (Event F Q) → Session W Q → BootError E ⊎ Agent F Q → Ended E
  run_until_done e events s (inl x) = returned (some x)
  run_until_done e events s (inr a) =
      ended e
        (run quantities codec client kubelet range_order events (record { agent = a; session = s }))

  unfoldable pub run_node_agent :
      Surroundings E
      → Host
      → Option ContextError
      → List (Event F Q)
      → Session W Q
      → NodeAgentOptions
      → Ended E
  run_node_agent around host e events s opts = run_until_done e events s (boot around host opts)
