-- ===== src/Patcher/Tests.antt =====
-- Three patches on a node of 4 cores, and an API server that takes a given number of requests.
use mathlib.Core.List.Perm
use pp_vpa.Prelude.{
  ℕ, zero, suc, ◌*◌, ◌≡◌, refl, true, List, [], ◌∷◌, arith, none, some, String, map,
}
use pp_vpa.Prelude.Int.{pos}
use pp_vpa.Float.Fixed.{Fixed, fixed_float, Fixed-Ieee}
use pp_vpa.Kube.{Quantities, too_many_requests}
use pp_vpa.Heap.{heap_push, heap_pop, up, down, first_child}
use pp_vpa.Heap.Slice.{at, swap}
use pp_vpa.Patcher.{
  PendingPatch, Kubelet, submit, priority, push, pop, drain_patches, drain_loop, drain_round, absf,
}
use pp_vpa.Patcher.Bag.{bag, add_all, push_all, push_all-refines}
use pp_vpa.Patcher.Queue.{IsQueue, IsRanked, push-Pushed, Taken, pop-Taken}
use pp_vpa.Patcher.Drain.{Drained, drain_patches-Drained}

abbrev pub amounts : Quantities ℕ
amounts = record {
  zero_quantity = 0;
  of_milli = λ n. 0;
  of_whole = λ n. 0;
  value = λ q. pos q;
  milli_value = λ q. pos (q * 1000);
  parse_quantity = λ s. none;
}

abbrev patch_of : String → ℕ → PendingPatch Fixed ℕ
patch_of pod delta = record {
  namespace = "default";
  pod = pod;
  container = "app";
  new_cpu = 1;
  new_memory = 2;
  node_total_cpu = 4000;
  node_total_memory = 0;
  delta_cpu = delta;
  delta_memory = 0;
}

abbrev pub light : PendingPatch Fixed ℕ
light = patch_of "light" 1000

abbrev heavy : PendingPatch Fixed ℕ
heavy = patch_of "heavy" 3000

abbrev middling : PendingPatch Fixed ℕ
middling = patch_of "middling" 2000

-- The world is the number of requests that the server still takes.
abbrev pub limited : Kubelet ℕ ℕ
limited = record {
  marshal = λ b. some [];
  patch = λ w namespace pod body manager. elim w [
    | zero ↦ (0, some too_many_requests)
    | suc n ↦ (n, none)
  ];
}

queue_of : List (PendingPatch Fixed ℕ) → List (PendingPatch Fixed ℕ)
queue_of [] = []
queue_of (p ∷ ps) = push amounts (queue_of ps) p

pub ranked : (p : PendingPatch Fixed ℕ) → IsRanked p
ranked p = ground arith

queue_of-IsQueue : (ps : List (PendingPatch Fixed ℕ)) → IsQueue amounts (queue_of ps)
unfolding queue_of
queue_of-IsQueue [] = record { heap = λ c p q. absurd (omega arith); ranked = λ p m. ranked p }
queue_of-IsQueue (p ∷ ps) =
    (push-Pushed amounts Fixed-Ieee (queue_of ps) p (queue_of-IsQueue ps) (ranked p)).valid

abbrev three : List (PendingPatch Fixed ℕ)
three = queue_of (light ∷ heavy ∷ middling ∷ [])

priorities : (priority heavy ≡ 750) × (priority light ≡ 250)
unfolding priority absf
priorities = (refl, refl)

two_accepted :
    map (λ (p : PendingPatch Fixed ℕ). p.pod) (drain_patches amounts limited 2 three).1
    ≡ "light" ∷ []
unfolding drain_patches drain_loop drain_round submit push pop heap_push heap_pop up down
    first_child at swap priority absf queue_of
two_accepted = refl

pop-Taken_example :
    (p : PendingPatch Fixed ℕ) × (r : List (PendingPatch Fixed ℕ)) × (pop amounts three
      ≡ ((p, true), r))
    × Taken amounts three p r
unfolding queue_of push heap_push up at swap priority absf
pop-Taken_example =
    pop-Taken amounts Fixed-Ieee three (queue_of-IsQueue (light ∷ heavy ∷ middling ∷ []))
      (omega arith)

drain_patches-Drained_example :
    Drained amounts limited Fixed-Ieee 2 three
      (drain_patches amounts limited 2 three).0
      (drain_patches amounts limited 2 three).1
drain_patches-Drained_example =
    drain_patches-Drained amounts limited Fixed-Ieee 2 three
      (queue_of-IsQueue (light ∷ heavy ∷ middling ∷ []))

push_all-refines_example :
    IsQueue amounts (push_all amounts three (light ∷ heavy ∷ []))
    × (bag (push_all amounts three (light ∷ heavy ∷ [])) ≡ add_all (light ∷ heavy ∷ []) (bag three))
    × (bag (push_all amounts three (heavy ∷ light ∷ []))
        ≡ bag (push_all amounts three (light ∷ heavy ∷ [])))
push_all-refines_example =
    push_all-refines amounts Fixed-Ieee three (light ∷ heavy ∷ []) (heavy ∷ light ∷ [])
      (queue_of-IsQueue (light ∷ heavy ∷ middling ∷ [])) (ranked light, (ranked heavy, tt))
      (ranked heavy, (ranked light, tt)) (Perm.swap heavy light [])
