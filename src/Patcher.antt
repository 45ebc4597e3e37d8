-- ===== src/Patcher.antt =====
-- internal/nodeagent/patcher/patcher.go: pending resize patches, drained in order of impact, and
-- drainPatches of internal/nodeagent/agent.go. The mutex of Queue serialises the calls.
pub mod Queue
pub mod Bag
pub mod Drain
pub mod Tests
use pp_vpa.Prelude.{
  ℕ, zero, suc, ◌≡◌, Bool, true, false, not, ◌&&◌, ◌||◌, List, [], ◌∷◌, Option, none, some, String,
  length, ltb, ◌==◌, if◌then◌else◌,
}
use pp_vpa.Float.{Float, nought, ltf}
use pp_vpa.Kube.{Quantities, ResourceList, ResourceRequirements, ApiError, is_forbidden, is_invalid}
use pp_vpa.Heap.{heap_push, heap_pop}

pub record PendingPatch (F Q : Type 0) : Type 0 where
  pub namespace : String
  pub pod : String
  pub container : String
  pub new_cpu : Q
  pub new_memory : Q
  pub node_total_cpu : F
  pub node_total_memory : F
  pub delta_cpu : F
  pub delta_memory : F

-- The body of the resize request.
pub record ContainerPatch (Q : Type 0) : Type 0 where
  pub name : String
  pub resources : ResourceRequirements Q

pub record PodPatch (Q : Type 0) : Type 0 where
  pub containers : List (ContainerPatch Q)

-- The API server as Submit sees it: `marshal` is json.Marshal, and `patch` sends a strategic merge
-- patch of a pod's resize subresource as the field manager given last.
pub record Kubelet (Q W : Type 0) : Type 0 where
  pub marshal : PodPatch Q → Option (List ℕ)
  pub patch : W → String → String → List ℕ → String → W × Option ApiError

pub data SubmitError : Type 0 where
  marshal_failed : SubmitError
  rejected : ApiError → SubmitError
  failed : ApiError → SubmitError

abbrev pub field_manager : String
field_manager = "pp-vpa-node-agent"

submit_error : Option ApiError → Option SubmitError
submit_error none = none
submit_error (some e) = some (if is_forbidden e || is_invalid e then rejected e else failed e)

module _ {Q : Type 0} where
  unfoldable pub body_of : String → Q → Q → PodPatch Q
  body_of container cpu memory =
      let amounts : ResourceList Q = record { cpu = some cpu; memory = some memory } in
      record {
        containers =
            record { name = container; resources = record { requests = amounts; limits = amounts } }
            ∷ [];
      }

module _ {F Q : Type 0} where
  -- `none` is the nil error.
  unfoldable pub submit : {W : Type 0} → Kubelet Q W → W → PendingPatch F Q → W × Option SubmitError
  unfolding body_of submit_error
  submit kubelet w p = elim (kubelet.marshal (body_of p.container p.new_cpu p.new_memory)) [
    | none ↦ (w, some marshal_failed)
    | some body ↦
        let (w', e) = kubelet.patch w p.namespace p.pod body field_manager in (w', submit_error e)
  ]

module _ {F : Type 0} ⦃float : Float F⦄ where
  open float use {neg}

  unfoldable pub absf : F → F
  absf x = if ltf x nought then neg x else x

module _ {F Q : Type 0} ⦃float : Float F⦄ where
  open float use {add, div}

  -- |ΔCPU / NodeTotalCPU| + |ΔMemory / NodeTotalMemory|
  unfoldable pub priority : PendingPatch F Q → F
  priority p =
      let cpu =
        if ltf nought p.node_total_cpu
        then add nought (div (absf p.delta_cpu) p.node_total_cpu)
        else nought in
      if ltf nought p.node_total_memory
      then add cpu (div (absf p.delta_memory) p.node_total_memory)
      else cpu

  -- Less of patchHeap: the higher priority comes first.
  abbrev pub less : PendingPatch F Q → PendingPatch F Q → Bool
  less x y = ltf (priority y) (priority x)

module _ {F Q : Type 0} where
  -- NewQueue
  abbrev pub new_queue : List (PendingPatch F Q)
  new_queue = []

  abbrev pub queue_len : List (PendingPatch F Q) → ℕ
  queue_len q = length q

module _ {F Q : Type 0} ⦃float : Float F⦄ (quantities : Quantities Q) where
  -- PendingPatch{}
  abbrev pub no_patch : PendingPatch F Q
  no_patch = record {
    namespace = "";
    pod = "";
    container = "";
    new_cpu = quantities.zero_quantity;
    new_memory = quantities.zero_quantity;
    node_total_cpu = nought;
    node_total_memory = nought;
    delta_cpu = nought;
    delta_memory = nought;
  }

  unfoldable pub push : List (PendingPatch F Q) → PendingPatch F Q → List (PendingPatch F Q)
  push q p = heap_push no_patch less q p

  unfoldable pub pop : List (PendingPatch F Q) → (PendingPatch F Q × Bool) × List (PendingPatch F Q)
  pop q =
      let (x, rest) = heap_pop no_patch less q in
      if queue_len q == 0 then ((no_patch, false), q) else ((x, true), rest)

  -- What a round of drainPatches does with the answer to a submission: go on, or requeue and stop.
  unfoldable pub settle :
      {W : Type 0}
      → (W → List (PendingPatch F Q) → W × List (PendingPatch F Q))
      → PendingPatch F Q
      → List (PendingPatch F Q)
      → W × Option SubmitError
      → W × List (PendingPatch F Q)
  settle more p rest (w, none) = more w rest
  settle more p rest (w, some _) = (w, push rest p)

  unfoldable pub drain_round :
      {W : Type 0}
      → Kubelet Q W
      → (W → List (PendingPatch F Q) → W × List (PendingPatch F Q))
      → W
      → (PendingPatch F Q × Bool) × List (PendingPatch F Q)
      → W × List (PendingPatch F Q)
  unfolding settle
  drain_round kubelet more w ((p, false), q) = (w, q)
  drain_round kubelet more w ((p, true), rest) = settle more p rest (submit kubelet w p)

  -- Each round that goes on takes one patch off, so the length and one are fuel enough.
  unfoldable pub drain_loop :
      {W : Type 0} → Kubelet Q W → ℕ → W → List (PendingPatch F Q) → W × List (PendingPatch F Q)
  drain_loop kubelet zero w q = (w, q)
  drain_loop kubelet (suc fuel) w q = drain_round kubelet (drain_loop kubelet fuel) w (pop q)

  -- drainPatches
  unfoldable pub drain_patches :
      {W : Type 0} → Kubelet Q W → W → List (PendingPatch F Q) → W × List (PendingPatch F Q)
  drain_patches kubelet w q = drain_loop kubelet (suc (length q)) w q
