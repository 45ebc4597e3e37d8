-- ===== src/Patcher/Queue.antt =====
-- The queue of patches: Push and Pop keep a max-heap by priority, lose nothing, and Pop takes a patch
-- of the highest priority.
use mathlib.Core.Bool.{Bool-set}
use mathlib.Core.List.{Perm, Mem, mem-cons_self, mem-cons_of_mem, forall_mem-cons}
use mathlib.Core.List.Perm
use pp_vpa.Prelude.{◌<◌, ◌≡◌, refl, true, false, List, [], ◌∷◌, arith, length}
use pp_vpa.Float.{Float, Ieee, IsNum, ◌≼◌, le_of_not-lt}
use pp_vpa.Kube.{Quantities}
use pp_vpa.Heap.{IsHeap, IsOrder, heap_pop}
use pp_vpa.Heap.Laws.{heap_push_lem, heap_pop_lem}
use pp_vpa.Patcher.{PendingPatch, priority, less, no_patch, push, pop}

module _ {F Q : Type 0} ⦃float : Float F⦄ where
  -- A patch whose priority is not NaN.
  abbrev pub IsRanked : PendingPatch F Q → Type 0
  IsRanked p = IsNum (priority p)

  IsRanked-prop : (p : PendingPatch F Q) → IsProp (IsRanked p)
  IsRanked-prop p = Bool-set _ _

  pub less-IsOrder : Ieee F → IsOrder (less {F = F} {Q = Q}) IsRanked
  less-IsOrder laws = record {
    asym = λ x y h. ground arith;
    trans = λ x y z n h k. ground (
      arith,
      laws.le_total (priority y) (priority x),
      laws.le_total (priority y) (priority z),
      laws.le_total (priority x) (priority y),
      laws.num_of_le (priority x) (priority z),
      laws.le_trans (priority z) (priority y) (priority x),
    );
  }

module _ {F Q : Type 0} ⦃float : Float F⦄ (quantities : Quantities Q) where
  -- A queue of ranked patches in heap order.
  pub record IsQueue (q : List (PendingPatch F Q)) : Type 0 where
    pub heap : IsHeap (no_patch quantities) less q
    pub ranked : (p : PendingPatch F Q) → Mem p q → IsRanked p

  pub record Pushed (q : List (PendingPatch F Q)) (p : PendingPatch F Q)
      (r : List (PendingPatch F Q)) : Type 0 where
    pub valid : IsQueue r
    pub same : Perm r (p ∷ q)

  -- Push on a valid queue of a patch whose priority is no NaN leaves a valid queue that holds the
  -- patch and what was queued, each as often.
  pub push-Pushed :
      Ieee F
      → (q : List (PendingPatch F Q)) (p : PendingPatch F Q) → IsQueue q
      → IsRanked p
      → Pushed q p (push quantities q p)
  unfolding push
  push-Pushed laws q p v n =
      let all = (forall_mem-cons λ x. IsRanked-prop x).1 (n, v.ranked) in
      let (heap, same) =
        heap_push_lem (no_patch quantities) less IsRanked (less-IsOrder laws) q p v.heap all in
      record {
        valid = record { heap = heap; ranked = λ x m. all x ((Perm.mem_iff same).0 m) };
        same = same;
      }

  -- `p` is taken off the queue `q`, which leaves `r`: no patch of `q` has a higher priority.
  pub record Taken (q : List (PendingPatch F Q)) (p : PendingPatch F Q)
      (r : List (PendingPatch F Q)) : Type 0 where
    pub valid : IsQueue r
    pub same : Perm (p ∷ r) q
    pub highest : (x : PendingPatch F Q) → Mem x q → priority x ≼ priority p

  pub pop-empty : pop {F = F} quantities [] ≡ ((no_patch quantities, false), [])
  unfolding pop
  pop-empty = refl

  -- Pop of a valid queue that is not empty takes off a patch than which none of the queue has a
  -- higher priority, and leaves a valid queue with the others.
  pub pop-Taken :
      Ieee F
      → (q : List (PendingPatch F Q)) → IsQueue q
      → 0 < length q
      → (p : PendingPatch F Q) × (r : List (PendingPatch F Q)) × (pop quantities q ≡ ((p, true), r))
        × Taken q p r
  unfolding pop
  pop-Taken laws q v pos =
      let t =
        heap_pop_lem (no_patch quantities) less IsRanked (less-IsOrder laws) q v.heap v.ranked
          pos in
      let (p, r) = heap_pop (no_patch quantities) less q in
      let ranked_p : IsRanked p = v.ranked p ((Perm.mem_iff t.same).0 mem-cons_self) in
      (
        p,
        r,
        ground arith,
        record {
          valid = record {
            heap = t.heap;
            ranked = λ x m. v.ranked x ((Perm.mem_iff t.same).0 (mem-cons_of_mem p m));
          };
          same = t.same;
          highest = λ x m.
              le_of_not-lt laws (priority p) (priority x) ranked_p (v.ranked x m) (t.first x m);
        },
      )
