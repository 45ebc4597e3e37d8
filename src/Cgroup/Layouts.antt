-- ===== src/Cgroup/Layouts.antt =====
-- PodPath looks in the two documented places of a pod's slice, in this order.
use Prim.Native.Char.{code}
use text.Mathlib.TextLemmas.{nil-append, cons-append}
use pp_vpa.Prelude.{
  ℕ, Bool, true, false, List, [], ◌∷◌, ◌++◌, String, inl, inr, text_append, str_eq, eq_iff, ◌==◌,
  ◌≡◌, refl, sym, ap, subst, arith, All, if◌then◌else◌, Bool-cases,
}
use pp_vpa.Text.{is_empty}
use pp_vpa.Text.Lines.{Lacks, lacks, lacks-Lacks}
use pp_vpa.Cgroup.{no_slice, replace_dashes, candidates, candidates_in, first_existing, pod_path}
use pp_vpa.Cgroup.Paths.{IsName, absolute, absolute-nonempty, join-absolute}

pub data Class : Type 0 where
  guaranteed burstable best_effort : Class

abbrev pub class_name : Class → String
class_name guaranteed = "Guaranteed"
class_name burstable = "Burstable"
class_name best_effort = "BestEffort"

abbrev pub slice_name : String → String → String
slice_name prefix uid = text_append prefix (text_append (replace_dashes uid) ".slice")

-- Below the root: the layout of the systemd driver, and that of the cgroupfs driver.
abbrev pub systemd : Class → String → List String
systemd guaranteed uid = "kubepods.slice" ∷ slice_name "kubepods-pod" uid ∷ []
systemd burstable uid =
    "kubepods.slice" ∷ "kubepods-burstable.slice" ∷ slice_name "kubepods-burstable-pod" uid ∷ []
systemd best_effort uid =
    "kubepods.slice" ∷ "kubepods-besteffort.slice" ∷ slice_name "kubepods-besteffort-pod" uid ∷ []

abbrev pub cgroupfs : Class → String → List String
cgroupfs guaranteed uid = "kubepods" ∷ text_append "pod" uid ∷ []
cgroupfs burstable uid = "kubepods" ∷ "burstable" ∷ text_append "pod" uid ∷ []
cgroupfs best_effort uid = "kubepods" ∷ "besteffort" ∷ text_append "pod" uid ∷ []

abbrev first_code : String → ℕ
first_code String.[] = 0
first_code (String.◌∷◌ c s) = code c

Lacks-append : (n : ℕ) (s t : String) → Lacks n s → Lacks n t → Lacks n (text_append s t)
Lacks-append n String.[] t h k = subst (Lacks n) (sym (nil-append t)) k
Lacks-append n (String.◌∷◌ c s) t (p, h) k =
    subst (Lacks n) (sym (cons-append c s t)) (p, Lacks-append n s t h k)

Lacks-replace_dashes : (s : String) → Lacks 47 s → Lacks 47 (replace_dashes s)
unfolding replace_dashes
Lacks-replace_dashes String.[] h = tt
Lacks-replace_dashes (String.◌∷◌ c s) (p, h) = elim (Bool-cases (code c == 45)) [
  | inl e ↦ rw e (refl, Lacks-replace_dashes s h)
  | inr e ↦ rw e (p, Lacks-replace_dashes s h)
]

differs : (s t : String) → (first_code s == first_code t) ≡ false → str_eq s t ≡ false
differs s t h = elim (Bool-cases (str_eq s t)) [
  | inr e ↦ e
  | inl e ↦ absurd ground (arith, h, ap first_code ((eq_iff s t).0 e))
]

letter-IsName :
    (s : String) → is_empty s ≡ false → (first_code s == 46) ≡ false → Lacks 47 s → IsName s
letter-IsName s n h l = record {
  nonempty = n;
  no_slash = l;
  not_dot = differs s "." h;
  not_dots = differs s ".." h;
}

-- A text that begins with a letter of its own is a name whatever follows.
prefix-IsName :
    (p t : String)
    → is_empty p ≡ false
    → (first_code p == 46) ≡ false
    → Lacks 47 p
    → Lacks 47 t
    → IsName (text_append p t)
prefix-IsName String.[] t n h l k = cc
prefix-IsName (String.◌∷◌ c p) t n h l k =
    subst IsName (sym (cons-append c p t))
      (letter-IsName (String.◌∷◌ c (text_append p t)) refl h (l.0, Lacks-append 47 p t l.1 k))

-- A literal name.
literal :
    (s : String) → is_empty s ≡ false → (first_code s == 46) ≡ false → lacks 47 s ≡ true → IsName s
literal s n h l = letter-IsName s n h (lacks-Lacks 47 s l)

slice-IsName :
    (prefix uid : String)
    → is_empty prefix ≡ false
    → (first_code prefix == 46) ≡ false
    → lacks 47 prefix ≡ true
    → Lacks 47 uid
    → IsName (slice_name prefix uid)
slice-IsName prefix uid n h l u =
    prefix-IsName prefix (text_append (replace_dashes uid) ".slice") n h (lacks-Lacks 47 prefix l) (
      Lacks-append 47 (replace_dashes uid) ".slice" (Lacks-replace_dashes uid u)
        (lacks-Lacks 47 ".slice" refl))

pod-IsName : (uid : String) → Lacks 47 uid → IsName (text_append "pod" uid)
pod-IsName uid u = prefix-IsName "pod" uid refl refl (lacks-Lacks 47 "pod" refl) u

slices-IsName : (c : Class) (uid : String) → Lacks 47 uid → All IsName (systemd c uid)
slices-IsName guaranteed uid u = (
  literal "kubepods.slice" refl refl refl,
  (slice-IsName "kubepods-pod" uid refl refl refl u, tt),
)
slices-IsName burstable uid u = (
  literal "kubepods.slice" refl refl refl,
  (
    literal "kubepods-burstable.slice" refl refl refl,
    (slice-IsName "kubepods-burstable-pod" uid refl refl refl u, tt),
  ),
)
slices-IsName best_effort uid u = (
  literal "kubepods.slice" refl refl refl,
  (
    literal "kubepods-besteffort.slice" refl refl refl,
    (slice-IsName "kubepods-besteffort-pod" uid refl refl refl u, tt),
  ),
)

directories-IsName : (c : Class) (uid : String) → Lacks 47 uid → All IsName (cgroupfs c uid)
directories-IsName guaranteed uid u = (literal "kubepods" refl refl refl, (pod-IsName uid u, tt))
directories-IsName burstable uid u = (
  literal "kubepods" refl refl refl,
  (literal "burstable" refl refl refl, (pod-IsName uid u, tt)),
)
directories-IsName best_effort uid u = (
  literal "kubepods" refl refl refl,
  (literal "besteffort" refl refl refl, (pod-IsName uid u, tt)),
)

pod_path-candidates :
    (exists : String → Bool) (base uid qos : String) (ps : List String)
    → is_empty base ≡ false
    → candidates base uid qos ≡ inr ps
    → pod_path exists base uid qos ≡ first_existing exists uid ps
unfolding pod_path
pod_path-candidates exists base uid qos ps n e = ground arith

module _ (r : String) (rs : List String) (names : All IsName (r ∷ rs)) where
  abbrev root : String
  root = absolute (r ∷ rs)

  candidates-layouts :
      (c : Class) (uid : String)
      → Lacks 47 uid
      → candidates root uid (class_name c)
        ≡ inr (absolute ((r ∷ rs) ++ systemd c uid) ∷ absolute ((r ∷ rs) ++ cgroupfs c uid) ∷ [])
  unfolding candidates candidates_in
  candidates-layouts guaranteed uid u =
      rw
        (
          join-absolute r rs _ _ names (slices-IsName guaranteed uid u),
          join-absolute r rs _ _ names (directories-IsName guaranteed uid u),
        )
        refl
  candidates-layouts burstable uid u =
      rw
        (
          join-absolute r rs _ _ names (slices-IsName burstable uid u),
          join-absolute r rs _ _ names (directories-IsName burstable uid u),
        )
        refl
  candidates-layouts best_effort uid u =
      rw
        (
          join-absolute r rs _ _ names (slices-IsName best_effort uid u),
          join-absolute r rs _ _ names (directories-IsName best_effort uid u),
        )
        refl

  -- With an absolute root of plain names and a UID without a slash, PodPath of a pod of one of
  -- the three classes is the systemd driver's slice of the pod, in which the dashes of the UID
  -- are replaced, if that exists; otherwise the cgroupfs driver's directory, if that exists;
  -- otherwise the error that no slice is found.
  pub pod_path-layouts :
      (exists : String → Bool) (c : Class) (uid : String)
      → Lacks 47 uid
      → let slice = absolute ((r ∷ rs) ++ systemd c uid) in
        let directory = absolute ((r ∷ rs) ++ cgroupfs c uid) in
        pod_path exists root uid (class_name c) ≡ (
          if exists slice
          then inr slice
          else if exists directory
          then inr directory
          else inl (no_slice uid))
  unfolding first_existing
  pod_path-layouts exists c uid u =
      pod_path-candidates exists root uid (class_name c) _ (absolute-nonempty (r ∷ rs))
        (candidates-layouts c uid u)
