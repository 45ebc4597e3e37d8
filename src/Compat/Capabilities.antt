-- ===== src/Compat/Capabilities.antt =====
-- The capabilities of a cluster whose minor version is a decimal number, with or without a "+".
use Prim.Native.Char.{Char, code}
use text.Mathlib.TextLemmas.{nil-append, cons-append}
use pp_vpa.Prelude.{
  ℕ, ◌^◌, ◌<◌, true, ◌&&◌, not, String, text_append, ◌≡◌, refl, ap, ◌∙◌, arith, leb,
}
use pp_vpa.Prelude.Int.{pos}
use pp_vpa.Text.{is_digit}
use pp_vpa.Text.Numbers.{AllDigits, Spells, parse_uint_iff}
use pp_vpa.Compat.{ClusterCapabilities, trim_plus, bounded, atoi, caps_from_version}

digit_step :
    (c : Char) (s : String)
    → is_digit (code c) ≡ true
    → trim_plus (String.◌∷◌ c s) ≡ String.◌∷◌ c (trim_plus s)
unfolding trim_plus
digit_step c s d = ground (arith, d)

trim_plus-digits : (s : String) → AllDigits s → trim_plus s ≡ s
trim_plus-digits String.[] h = unfold trim_plus in refl
trim_plus-digits (String.◌∷◌ c s) (d, h) =
    digit_step c s d ∙ ap (String.◌∷◌ c) (trim_plus-digits s h)

trim_plus-plus : (s : String) → AllDigits s → trim_plus (text_append s "+") ≡ s
trim_plus-plus String.[] h = ap trim_plus (nil-append "+") ∙ (unfold trim_plus in refl)
trim_plus-plus (String.◌∷◌ c s) (d, h) =
    ap trim_plus (cons-append c s "+")
    ∙ digit_step c (text_append s "+") d
    ∙ ap (String.◌∷◌ c) (trim_plus-plus s h)

atoi-Spells : (s : String) (n : ℕ) → Spells s n → n < 2 ^ 63 → atoi s ≡ pos n
unfolding atoi bounded
atoi-Spells String.[] n (e, h, f, g) l = cc
atoi-Spells (String.◌∷◌ c s) n (e, (d, h), f, g) l =
    ground (arith, d, (parse_uint_iff (String.◌∷◌ c s) n).1 (e, (d, h), f, g))

-- From 1.36 on there are pod-level resources; in 1.33 to 1.35, container-level ones only.
abbrev pub caps_of : ℕ → ClusterCapabilities
caps_of n = record {
  kubelet_minor = pos n;
  pod_level_resources = leb 36 n;
  container_level_only = leb 33 n && not (leb 36 n);
}

caps_from_minor :
    (v : String) (n : ℕ) → atoi (trim_plus v) ≡ pos n → caps_from_version v ≡ caps_of n
unfolding caps_from_version
caps_from_minor v n e = rw e (ground arith)

-- For a minor version that is a decimal number below 2^63, bare or followed by "+", the capabilities
-- are this number, pod-level resources exactly from 36 on, and container-level resources only
-- exactly from 33 to 35.
pub caps_from_version-decimal :
    (s : String) (n : ℕ)
    → Spells s n
    → n < 2 ^ 63
    → (caps_from_version s ≡ caps_of n) × (caps_from_version (text_append s "+") ≡ caps_of n)
caps_from_version-decimal s n h l = (
  caps_from_minor s n (ap atoi (trim_plus-digits s h.1) ∙ atoi-Spells s n h l),
  caps_from_minor (text_append s "+") n (ap atoi (trim_plus-plus s h.1) ∙ atoi-Spells s n h l),
)
