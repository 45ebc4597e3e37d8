-- ===== src/Cgroup.antt =====
-- internal/nodeagent/cgroup/cgroup.go: the slice of a pod, and the files in it. Paths are native texts;
-- os.Stat is a test of the file system.
pub mod Paths
pub mod Layouts
mod Tests
use Prim.Native.Char.{Char, char, code}
use Prim.Native.String
use pp_vpa.Prelude.{
  Bool, true, false, ◌&&◌, ◌||◌, List, [], ◌∷◌, ◌++◌, String, ◌⊎◌, inl, inr, text_append, str_eq,
  ◌==◌, if◌then◌else◌,
}
use pp_vpa.Text.{is_empty, snoc}

-- strings.ReplaceAll(s, "-", "_")
unfoldable pub replace_dashes : String → String
replace_dashes String.[] = String.[]
replace_dashes (String.◌∷◌ c s) =
    String.◌∷◌ (if code c == 45 then char 95 tt else c) (replace_dashes s)

-- The elements of a path, between its slashes.
unfoldable pub elements_from : String → String → List String
elements_from cur String.[] = cur ∷ []
elements_from cur (String.◌∷◌ c s) = elim (code c == 47) [
  | true ↦ cur ∷ elements_from String.[] s
  | false ↦ elements_from (snoc cur c) s
]

-- One element of filepath.Clean, behind the elements kept so far, the last one first.
unfoldable pub clean_step : Bool → List String → String → List String
clean_step rooted kept e =
    let up = backtrack rooted kept in
    if is_empty e || str_eq e "." then kept else if str_eq e ".." then up else e ∷ kept
  where
    backtrack : Bool → List String → List String
    backtrack true [] = []
    backtrack false [] = ".." ∷ []
    backtrack r (k ∷ ks) = if str_eq k ".." then ".." ∷ k ∷ ks else ks

unfoldable pub clean_elements : Bool → List String → List String → List String
unfolding clean_step
clean_elements rooted kept [] = kept
clean_elements rooted kept (e ∷ es) = clean_elements rooted (clean_step rooted kept e) es

-- The elements, the last one first, with slashes between them.
unfoldable pub slashed : List String → String
slashed [] = ""
slashed (e ∷ []) = e
slashed (e ∷ f ∷ es) = text_append (slashed (f ∷ es)) (text_append "/" e)

abbrev pub is_rooted : String → Bool
is_rooted String.[] = false
is_rooted (String.◌∷◌ c s) = code c == 47

-- filepath.Clean
unfoldable pub clean : String → String
unfolding elements_from clean_elements slashed
clean p =
    let kept = clean_elements (is_rooted p) [] (elements_from String.[] p) in
    if is_rooted p then text_append "/" (slashed kept) else dot_if_none kept (slashed kept)
  where
    dot_if_none : List String → String → String
    dot_if_none [] s = "."
    dot_if_none (e ∷ es) s = s

-- strings.Join(es, "/")
unfoldable pub with_slashes : List String → String
with_slashes [] = ""
with_slashes (e ∷ []) = e
with_slashes (e ∷ f ∷ es) = text_append e (text_append "/" (with_slashes (f ∷ es)))

-- filepath.Join: leading empty elements are left out.
unfoldable pub join : List String → String
unfolding with_slashes clean
join [] = ""
join (e ∷ es) = let rest = join es in if is_empty e then rest else clean (with_slashes (e ∷ es))

abbrev pub default_root : String
default_root = "/sys/fs/cgroup"

pub data CgroupError : Type 0 where
  unknown_qos no_slice : String → CgroupError

-- The paths of a class of pods: its slice, the prefix of the pod's slice, and its directory.
unfoldable pub candidates_in : String → List String → String → List String → String → List String
candidates_in root slices prefix directories uid =
    let slice = text_append prefix (text_append (replace_dashes uid) ".slice") in
    join (root ∷ "kubepods.slice" ∷ slices ++ slice ∷ [])
    ∷ join (root ∷ "kubepods" ∷ directories ++ text_append "pod" uid ∷ [])
    ∷ []

-- The switch on the QoS class.
unfoldable pub candidates : String → String → String → CgroupError ⊎ List String
unfolding candidates_in
candidates root uid qos =
    if str_eq qos "Guaranteed"
    then inr (candidates_in root [] "kubepods-pod" [] uid)
    else if str_eq qos "Burstable"
    then inr (
        candidates_in root ("kubepods-burstable.slice" ∷ []) "kubepods-burstable-pod"
          ("burstable" ∷ []) uid)
    else if str_eq qos "BestEffort"
    then inr (
        candidates_in root ("kubepods-besteffort.slice" ∷ []) "kubepods-besteffort-pod"
          ("besteffort" ∷ []) uid)
    else inl (unknown_qos qos)

-- The loop over the candidates; `exists` is os.Stat without an error.
unfoldable pub first_existing : (String → Bool) → String → List String → CgroupError ⊎ String
first_existing exists uid [] = inl (no_slice uid)
first_existing exists uid (p ∷ ps) =
    let rest = first_existing exists uid ps in if exists p then inr p else rest

-- PodPath of a Resolver with the given root.
unfoldable pub pod_path : (String → Bool) → String → String → String → CgroupError ⊎ String
unfolding candidates first_existing
pod_path exists root uid qos =
    elim (candidates (if is_empty root then default_root else root) uid qos) [
      | inl e ↦ inl e
      | inr ps ↦ first_existing exists uid ps
    ]

unfoldable pub psi_file : String → String → String
psi_file slice_path resource = join (slice_path ∷ text_append resource ".pressure" ∷ [])

unfoldable pub memory_events_file : String → String
memory_events_file slice_path = join (slice_path ∷ "memory.events" ∷ [])
