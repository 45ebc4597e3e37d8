-- ===== src/Compat/Tests.antt =====
-- The versions that managed clusters report.
use pp_vpa.Prelude.{◌≡◌, refl, true, false, none, some, String, text_append, arith, str_eq}
use pp_vpa.Prelude.Int.{pos}
use pp_vpa.Compat.{caps_from_version, probe_node, content}
use pp_vpa.Compat.Capabilities.{caps_of, caps_from_version-decimal}

odd_versions :
    (caps_from_version "35+" ≡ caps_of 35)
    × (caps_from_version "abc" ≡ caps_of 0)
    × (caps_from_version "-5" ≡ record (caps_of 0) { kubelet_minor = pp_vpa.Prelude.Int.negsuc 4 })
unfolding caps_from_version pp_vpa.Text.parse_uint
odd_versions = (refl, refl, refl)

static_node :
    probe_node
      (λ p. str_eq p "/c/cgroup.controllers")
      (λ p. content "a: b\ncpuManagerPolicy: static\n")
      "/c"
      ""
    ≡ (record { cgroup_v2 = true; swap_accounting = false; static_cpu_manager = true }, none)
unfolding probe_node
static_node = refl

caps_from_version-decimal_example :
    (caps_from_version "36" ≡ caps_of 36) × (caps_from_version (text_append "36" "+") ≡ caps_of 36)
caps_from_version-decimal_example =
    caps_from_version-decimal "36" 36 (refl, (refl, (refl, tt)), refl, omega arith) (omega arith)
