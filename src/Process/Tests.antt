-- ===== src/Process/Tests.antt =====
-- A node without the slice of any pod, and a control plane that refuses a readiness check.
use pp_vpa.Prelude.{
  ℕ, ◌+◌, ◌≡◌, refl, true, false, Bool, none, some, Option, List, [], ◌∷◌, String, str_eq, inr,
  if◌then◌else◌,
}
use pp_vpa.Prelude.Int.{pos}
use pp_vpa.Float.Fixed.{Fixed, fixed_float, Fixed-Ieee}
use pp_vpa.Histogram.Tests.{listing}
use pp_vpa.Cluster.Samples.{sample_client, start}
use pp_vpa.Patcher.Tests.{amounts, limited, light, ranked}
use pp_vpa.Compat.{absent, probe_node}
use pp_vpa.NodeAgent.{Host, Agent, PodState, new_agent}
use pp_vpa.NodeAgent.Run.{drain_tick, checkpoint_tick, enqueued}
use pp_vpa.Process.Flags.{Flags, default_flags, parse_flags, set_flag, parse_bool}
use pp_vpa.Process.Settings.{Updated, parse_flags-Updated}
use pp_vpa.Process.Manager.{
  Act, created, registered, defaulted, health_checked, ready_checked, started, ManagerOptions,
  Runtime, Track, plain, run_manager,
}
use pp_vpa.Process.Plan.{plan, Followed, run_manager-Followed}
use pp_vpa.Process.Boot.{NodeAgentOptions, agent_config, Surroundings, canceled, boot, node_name_of}
use pp_vpa.Process.Booted.{Booted, boot-Booted}
use pp_vpa.Process.Main.{World, main}
use pp_vpa.Process.Exits.{Explained, main-Explained}

abbrev no_other : String → String → Bool
no_other name value = false

abbrev settings : List (String × String)
settings =
    ("mode", "manager")
    ∷ ("node-name", "n1")
    ∷ ("leader-elect", "T")
    ∷ ("mode", "node-agent")
    ∷ ("cgroup-root", "/cg")
    ∷ []

abbrev flags : Flags
flags = record default_flags {
  mode = "node-agent";
  node_name = "n1";
  enable_leader_election = true;
  cgroup_root = "/cg";
}

parsed : parse_flags no_other default_flags settings ≡ inr flags
unfolding parse_flags set_flag parse_bool
parsed = refl

parse_flags-Updated_example : Updated default_flags settings flags
parse_flags-Updated_example = parse_flags-Updated no_other default_flags settings flags parsed

-- The readiness check fails; the world counts the calls.
abbrev refuses_readiness : Act → Option ℕ
refuses_readiness (ready_checked n) = some 7
refuses_readiness (created c) = none
refuses_readiness (registered r) = none
refuses_readiness (defaulted k) = none
refuses_readiness (health_checked n) = none
refuses_readiness started = none

abbrev runtime : Runtime ℕ ℕ
runtime = record {
  perform = λ w a. (w + 1, refuses_readiness a);
  getenv = λ v. if str_eq v "NODE_NAME" then "n2" else "";
}

abbrev options : ManagerOptions
options = record {
  metrics_addr = "0";
  probe_addr = ":8081";
  webhook_cert_dir = "";
  enable_leader_election = false;
  enable_webhooks = true;
}

abbrev untouched : Track ℕ
untouched = record { world = 0; acts = [] }

unready : (run_manager runtime options untouched).1 ≡ some (plain 7)
unfolding run_manager
unready = refl

run_manager-Followed_example :
    (f : Followed runtime (plan runtime options) untouched (run_manager runtime options untouched))
    × (f.outcome ≡ none → f.performed ≡ plan runtime options)
run_manager-Followed_example = run_manager-Followed runtime options untouched

abbrev host : Host
host = record {
  exists = λ p. str_eq p "/cg/cgroup.controllers";
  config = λ p. absent;
  open_file = λ p. none;
  read_all = λ p. some "";
}

abbrev around : Surroundings ℕ
around = record { new_for_config = none; new_client = none; getenv = runtime.getenv }

abbrev agent_options : NodeAgentOptions
agent_options = record { node_name = ""; cgroup_root = "/cg"; kubelet_config = "" }

abbrev booted_agent : Agent Fixed ℕ
booted_agent = record {
  cfg = record {
    node_name = "n2";
    cgroup_root = "/cg";
    kubelet_config = "";
    sample_interval = pos 10000000000;
    checkpoint_every = pos 60000000000;
  };
  caps = record { cgroup_v2 = true; swap_accounting = false; static_cpu_manager = false };
  pods = [];
  queue = [];
  interval = pos 60000000000;
}

booted : boot {F = Fixed} {Q = ℕ} around host agent_options ≡ inr booted_agent
unfolding boot node_name_of new_agent probe_node agent_config
booted = refl

boot-Booted_example :
    (around.new_for_config ≡ none)
    × (around.new_client ≡ none)
    × Booted around.getenv agent_options booted_agent
boot-Booted_example = boot-Booted around host agent_options booted

abbrev same_order : List (PodState Fixed) → List (PodState Fixed)
same_order sts = sts

abbrev world : World ℕ Fixed ℕ ℕ
world = record {
  accepts = no_other;
  configured = true;
  runtime = runtime;
  around = around;
  host = host;
  context_error = some canceled;
  events = enqueued light ∷ drain_tick ∷ checkpoint_tick ∷ [];
  session = start;
}

main-Explained_example :
    Explained world
      (parse_flags no_other default_flags settings)
      (main amounts listing sample_client limited same_order world settings)
main-Explained_example =
    main-Explained Fixed-Ieee amounts listing sample_client limited same_order world (λ w n m. cc)
      (cc) (ranked light, (tt, (tt, tt))) settings
