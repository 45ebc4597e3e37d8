-- ===== src/Process/Main.antt =====
-- main of cmd/main.go: the process's exit code for a command line.
use pp_vpa.Prelude.{
  ℕ, Bool, Option, none, some, List, [], String, str_eq, if◌then◌else◌, ◌⊎◌, inl, inr,
}
use pp_vpa.Float.{Float}
use pp_vpa.Histogram.Codec.{Codec, Checkpoint}
use pp_vpa.Kube.{Quantities}
use pp_vpa.Cluster.{Client, Session}
use pp_vpa.Patcher.{Kubelet}
use pp_vpa.NodeAgent.{Host, PodState}
use pp_vpa.NodeAgent.Run.{Event}
use pp_vpa.Process.Flags.{Flags, ParseError, help_wanted, refused, default_flags, parse_flags}
use pp_vpa.Process.Manager.{ManagerOptions, ManagerError, Runtime, run_manager}
use pp_vpa.Process.Boot.{
  NodeAgentOptions, ContextError, Surroundings, Ended, returned, crashed, run_node_agent,
}

abbrev pub manager_options : Flags → ManagerOptions
manager_options f = record {
  metrics_addr = f.metrics_addr;
  probe_addr = f.probe_addr;
  webhook_cert_dir = f.webhook_cert_path;
  enable_leader_election = f.enable_leader_election;
  enable_webhooks = f.enable_webhooks;
}

abbrev pub node_agent_options : Flags → NodeAgentOptions
node_agent_options f = record {
  node_name = f.node_name;
  cgroup_root = f.cgroup_root;
  kubelet_config = f.kubelet_config;
}

-- os.Exit(1) after an error; main returns without one, and a panic exits with 2.
abbrev pub manager_code : {E : Type 0} → Option (ManagerError E) → ℕ
manager_code none = 0
manager_code (some e) = 1

abbrev pub agent_code : {E : Type 0} → Ended E → ℕ
agent_code (returned none) = 0
agent_code (returned (some e)) = 1
agent_code crashed = 2

-- flag.CommandLine exits by itself.
abbrev pub parse_code : ParseError → ℕ
parse_code help_wanted = 0
parse_code refused = 2

-- What surrounds the process: whether GetConfigOrDie finds a configuration (it exits with 1 if not),
-- the libraries, the node, and, for the agent, what happens until the context is done.
pub record World (E F W Q : Type 0) : Type 0 where
  pub accepts : String → String → Bool
  pub configured : Bool
  pub runtime : Runtime W E
  pub around : Surroundings E
  pub host : Host
  pub context_error : Option ContextError
  pub events : List (Event F Q)
  pub session : Session W Q

module _ {E F W Q : Type 0} ⦃float : Float F⦄ (quantities : Quantities Q)
    (codec : Codec (Checkpoint F)) (client : Client W Q) (kubelet : Kubelet Q W)
    (range_order : List (PodState F) → List (PodState F)) (world : World E F W Q) where
  open world use {runtime, around, host, context_error, events, session}

  unfoldable pub manager_main : Flags → ℕ
  manager_main f =
      if world.configured
      then manager_code
          (run_manager runtime (manager_options f) (record { world = session.world; acts = [] })).1
      else 1

  unfoldable pub agent_main : Flags → ℕ
  agent_main f =
      if world.configured
      then agent_code (
          run_node_agent quantities codec client kubelet range_order around host context_error
            events session (node_agent_options f))
      else 1

  unfoldable pub dispatch : Flags → ℕ
  dispatch f =
      if str_eq f.mode "manager"
      then manager_main f
      else if str_eq f.mode "node-agent"
      then agent_main f
      else 2

  abbrev pub dispatch_parsed : ParseError ⊎ Flags → ℕ
  dispatch_parsed (inl e) = parse_code e
  dispatch_parsed (inr f) = dispatch f

  unfoldable pub main : List (String × String) → ℕ
  main settings = dispatch_parsed (parse_flags world.accepts default_flags settings)
