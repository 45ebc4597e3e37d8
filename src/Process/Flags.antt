-- ===== src/Process/Flags.antt =====
-- The flags of cmd/main.go. The command line is read by the package flag, here from the names and
-- values into which it splits the arguments; the first one that it refuses ends the process.
use pp_vpa.Prelude.{
  Bool, true, false, Option, none, some, List, [], ◌∷◌, String, str_eq, contains, if◌then◌else◌,
  ◌⊎◌, inl, inr,
}

-- The variables that main declares.
pub record Flags : Type 0 where
  pub mode : String
  pub metrics_addr : String
  pub probe_addr : String
  pub webhook_cert_path : String
  pub enable_leader_election : Bool
  pub enable_webhooks : Bool
  pub node_name : String
  pub cgroup_root : String
  pub kubelet_config : String

-- Why flag.Parse ends the process: `-help` or `-h` was asked for, or a setting is refused.
pub data ParseError : Type 0 where
  help_wanted refused : ParseError

abbrev parse_error : String → ParseError
parse_error name = if contains ("help" ∷ "h" ∷ []) name then help_wanted else refused

abbrev pub default_flags : Flags
default_flags = record {
  mode = "manager";
  metrics_addr = "0";
  probe_addr = ":8081";
  webhook_cert_path = "";
  enable_leader_election = false;
  enable_webhooks = true;
  node_name = "";
  cgroup_root = "/sys/fs/cgroup";
  kubelet_config = "/var/lib/kubelet/config.yaml";
}

-- strconv.ParseBool; `none` is an error.
unfoldable pub parse_bool : String → Option Bool
parse_bool s =
    if contains ("1" ∷ "t" ∷ "T" ∷ "TRUE" ∷ "true" ∷ "True" ∷ []) s
    then some true
    else if contains ("0" ∷ "f" ∷ "F" ∷ "FALSE" ∷ "false" ∷ "False" ∷ []) s
    then some false
    else none

abbrev pub set_leader_election : Flags → Option Bool → Option Flags
set_leader_election f none = none
set_leader_election f (some b) = some (record f { enable_leader_election = b })

abbrev pub set_webhooks : Flags → Option Bool → Option Flags
set_webhooks f none = none
set_webhooks f (some b) = some (record f { enable_webhooks = b })

-- The options that zap's BindFlags adds are in a variable of its own: `accepts` says which of their
-- settings it takes.
module _ (accepts : String → String → Bool) where
  -- One setting, `-name=value`; `none` is a name that is not defined, or a value that does not parse.
  unfoldable pub set_flag : Flags → String → String → Option Flags
  set_flag f name value =
      if str_eq name "mode"
      then some (record f { mode = value })
      else if str_eq name "metrics-bind-address"
      then some (record f { metrics_addr = value })
      else if str_eq name "health-probe-bind-address"
      then some (record f { probe_addr = value })
      else if str_eq name "webhook-cert-path"
      then some (record f { webhook_cert_path = value })
      else if str_eq name "leader-elect"
      then set_leader_election f (parse_bool value)
      else if str_eq name "enable-webhooks"
      then set_webhooks f (parse_bool value)
      else if str_eq name "node-name"
      then some (record f { node_name = value })
      else if str_eq name "cgroup-root"
      then some (record f { cgroup_root = value })
      else if str_eq name "kubelet-config"
      then some (record f { kubelet_config = value })
      else if accepts name value
      then some f
      else none

  -- flag.Parse
  unfoldable pub parse_flags : Flags → List (String × String) → ParseError ⊎ Flags
  parse_flags f [] = inr f
  parse_flags f ((name, value) ∷ settings) = elim (set_flag f name value) [
    | none ↦ inl (parse_error name)
    | some g ↦ parse_flags g settings
  ]
