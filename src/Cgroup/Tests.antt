-- ===== src/Cgroup/Tests.antt =====
-- The slice of one pod under the default root.
use pp_vpa.Prelude.{Bool, ◌≡◌, refl, [], ◌∷◌, String, inl, inr, str_eq, if◌then◌else◌, All}
use pp_vpa.Text.Lines.{lacks-Lacks}
use pp_vpa.Cgroup.{unknown_qos, no_slice, pod_path, replace_dashes, join, clean, psi_file}
use pp_vpa.Cgroup.Paths.{IsName, absolute}
use pp_vpa.Cgroup.Layouts.{burstable, systemd, cgroupfs, pod_path-layouts}

abbrev exists : String → Bool
exists p = str_eq p "/sys/fs/cgroup/kubepods/burstable/poda-1"

fallback : pod_path exists "" "a-1" "Burstable" ≡ inr "/sys/fs/cgroup/kubepods/burstable/poda-1"
unfolding pod_path join replace_dashes
fallback = refl

not_a_class : pod_path exists "" "a-1" "Other" ≡ inl (unknown_qos "Other")
unfolding pod_path
not_a_class = refl

cleaned :
    (clean "/a//b/./../c/" ≡ "/a/c")
    × (clean "/../a" ≡ "/a")
    × (clean "" ≡ ".")
    × (psi_file "/s/" "cpu" ≡ "/s/cpu.pressure")
unfolding clean psi_file join
cleaned = (refl, refl, refl, refl)

sys-IsName : All IsName ("sys" ∷ "fs" ∷ "cgroup" ∷ [])
sys-IsName = (
  record { nonempty = refl; no_slash = lacks-Lacks 47 "sys" refl; not_dot = refl; not_dots = refl },
  (
    record {
      nonempty = refl;
      no_slash = lacks-Lacks 47 "fs" refl;
      not_dot = refl;
      not_dots = refl;
    },
    (
      record {
        nonempty = refl;
        no_slash = lacks-Lacks 47 "cgroup" refl;
        not_dot = refl;
        not_dots = refl;
      },
      tt,
    ),
  ),
)

pod_path-layouts_example :
    pod_path exists (absolute ("sys" ∷ "fs" ∷ "cgroup" ∷ [])) "a-1" "Burstable" ≡ (
      if exists (absolute ("sys" ∷ "fs" ∷ "cgroup" ∷ systemd burstable "a-1"))
      then inr (absolute ("sys" ∷ "fs" ∷ "cgroup" ∷ systemd burstable "a-1"))
      else if exists (absolute ("sys" ∷ "fs" ∷ "cgroup" ∷ cgroupfs burstable "a-1"))
      then inr (absolute ("sys" ∷ "fs" ∷ "cgroup" ∷ cgroupfs burstable "a-1"))
      else inl (no_slice "a-1"))
pod_path-layouts_example =
    pod_path-layouts "sys" ("fs" ∷ "cgroup" ∷ []) sys-IsName exists burstable "a-1"
      (lacks-Lacks 47 "a-1" refl)
