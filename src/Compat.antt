-- ===== src/Compat.antt =====
-- internal/compat: what the cluster's version and a node's file system say of their capabilities.
pub mod Capabilities
mod Tests
use Prim.Native.Char.{Char, code}
use Prim.Native.String
use pp_vpa.Prelude.{
  ℕ, ◌+◌, ◌-◌, ◌^◌, Bool, true, false, ◌&&◌, ◌||◌, List, [], ◌∷◌, Option, none, some, String, ◌⊎◌,
  inl, inr, text_append, str_eq, ltb, leb, ◌==◌, if◌then◌else◌,
}
use pp_vpa.Prelude.Int.{ℤ, pos, neg_ℕ, leb_ℤ}
use pp_vpa.Text.{is_empty, parse_uint, NumError, syntax_error, range_error}

pub record ClusterCapabilities : Type 0 where
  pub kubelet_minor : ℤ
  pub pod_level_resources : Bool
  pub container_level_only : Bool

-- strings.TrimSuffix(s, "+")
unfoldable pub trim_plus : String → String
trim_plus String.[] = String.[]
trim_plus (String.◌∷◌ c s) =
    let rest = trim_plus s in if is_empty s && code c == 43 then String.[] else String.◌∷◌ c rest

-- strconv.Atoi with its error ignored: 0 for a syntax error, the nearest int64 for a range error.
unfoldable pub bounded : Bool → ℕ × Option NumError → ℤ
bounded negative (n, some syntax_error) = pos 0
bounded true (n, e) = neg_ℕ (if leb n (2 ^ 63) then n else 2 ^ 63)
bounded false (n, e) = pos (if ltb n (2 ^ 63) then n else 2 ^ 63 - 1)

unfoldable pub atoi : String → ℤ
unfolding bounded
atoi String.[] = pos 0
atoi (String.◌∷◌ c s) =
    if code c == 45
    then bounded true (parse_uint s)
    else if code c == 43
    then bounded false (parse_uint s)
    else bounded false (parse_uint (String.◌∷◌ c s))

-- capsFromVersion, of the minor version.
unfoldable pub caps_from_version : String → ClusterCapabilities
unfolding trim_plus atoi
caps_from_version v_minor =
    let minor = atoi (trim_plus v_minor) in
    let recent = leb_ℤ (pos 36) minor in
    record {
      kubelet_minor = minor;
      pod_level_resources = recent;
      container_level_only = if recent then false else leb_ℤ (pos 33) minor;
    }

-- ProbeCluster, of the server's answer to the version request.
unfoldable pub probe_cluster : {E : Type 0} → E ⊎ String → E ⊎ ClusterCapabilities
unfolding caps_from_version
probe_cluster (inl e) = inl e
probe_cluster (inr v_minor) = inr (caps_from_version v_minor)

pub record NodeCapabilities : Type 0 where
  pub cgroup_v2 : Bool
  pub swap_accounting : Bool
  pub static_cpu_manager : Bool

-- An open of the kubelet's configuration: the file is absent, the open or the read fails, or it is read.
pub data ConfigFile : Type 0 where
  absent not_opened not_read : ConfigFile
  content : String → ConfigFile

pub data ProbeError : Type 0 where
  open_failed read_failed : ProbeError

-- strings.Contains(s, t)
unfoldable pub has_prefix : String → String → Bool
has_prefix s String.[] = true
has_prefix String.[] (String.◌∷◌ d t) = false
has_prefix (String.◌∷◌ c s) (String.◌∷◌ d t) = code c == code d && has_prefix s t

unfoldable pub contains_text : String → String → Bool
unfolding has_prefix
contains_text String.[] t = is_empty t
contains_text (String.◌∷◌ c s) t = has_prefix (String.◌∷◌ c s) t || contains_text s t

-- ProbeNode: the capabilities, and the error beside them. `exists` is os.Stat without an error.
unfoldable pub with_config : NodeCapabilities → ConfigFile → NodeCapabilities × Option ProbeError
unfolding contains_text
with_config caps absent = (caps, none)
with_config caps not_opened = (caps, some open_failed)
with_config caps not_read = (caps, some read_failed)
with_config caps (content b) = (
  if contains_text b "cpuManagerPolicy: static"
      then record caps { static_cpu_manager = true }
      else caps,
  none,
)

unfoldable pub probe_node :
    (String → Bool) → (String → ConfigFile) → String → String → NodeCapabilities × Option ProbeError
unfolding with_config
probe_node exists config cgroup_root kubelet_config_path =
    let root = if is_empty cgroup_root then "/sys/fs/cgroup" else cgroup_root in
    let path =
      if is_empty kubelet_config_path
      then "/var/lib/kubelet/config.yaml"
      else kubelet_config_path in
    let caps : NodeCapabilities = record {
      cgroup_v2 = exists (text_append root "/cgroup.controllers");
      swap_accounting = exists (text_append root "/memory.swap.events");
      static_cpu_manager = false;
    } in
    with_config caps (config path)
