-- ===== src/Patcher/Drain.antt =====
-- drainPatches submits in order of falling priority, stops at the first failure, and loses nothing.
use mathlib.Core.List.{Perm, Mem, Pairwise, mem-cons_self, mem-cons_of_mem, mem-append_left}
use mathlib.Core.List.Perm
use pp_vpa.Prelude.{
  ℕ, zero, suc, ◌<◌, ◌≡◌, refl, List, [], ◌∷◌, ◌++◌, arith, Option, none, some, length, inl, inr,
  ◌⊎◌,
}
use pp_vpa.Float.{Float, Ieee, ◌≼◌}
use pp_vpa.Kube.{Quantities}
use pp_vpa.Heap.Slice.{length-perm}
use pp_vpa.Patcher.{
  PendingPatch, Kubelet, SubmitError, submit, priority, push, drain_loop, drain_round, settle,
  drain_patches,
}
use pp_vpa.Patcher.Queue.{IsQueue, Taken, pop-Taken, pop-empty, push-Pushed}

module _ {F Q : Type 0} ⦃float : Float F⦄ where
  -- The patches are submitted one after the other, and each submission succeeds.
  pub data Submits {W : Type 0} (kubelet : Kubelet Q W)
      : W → List (PendingPatch F Q) → W → Type 0 where
    done : {w : W} → Submits kubelet w [] w
    sent :
        {w w' w'' : W} {p : PendingPatch F Q} {ps : List (PendingPatch F Q)}
        → submit kubelet w p ≡ (w', none)
        → Submits kubelet w' ps w''
        → Submits kubelet w (p ∷ ps) w''

  abbrev pub IsDescending : List (PendingPatch F Q) → Type 0
  IsDescending = Pairwise (λ x y. priority y ≼ priority x)

  abbrev pub IsAtMost : PendingPatch F Q → PendingPatch F Q → Type 0
  IsAtMost p x = priority x ≼ priority p

module _ {F Q W : Type 0} ⦃float : Float F⦄ (quantities : Quantities Q) (kubelet : Kubelet Q W)
    (laws : Ieee F) where
  -- Draining `q` from the world `w` ends in `w'` with `left` in the queue.
  pub record Drained (w : W) (q : List (PendingPatch F Q)) (w' : W) (left : List (PendingPatch F Q))
      : Type 0 where
    pub submitted : List (PendingPatch F Q)
    pub reached : W
    pub submits : Submits kubelet w submitted reached
    pub descending : IsDescending submitted
    pub same : Perm (submitted ++ left) q
    pub valid : IsQueue quantities left
    pub stopped :
        ((left ≡ []) × (reached ≡ w'))
        ⊎ ((p : PendingPatch F Q) × (e : SubmitError) × (submit kubelet reached p ≡ (w', some e))
            × Mem p left
            × ((x : PendingPatch F Q) → Mem x left → priority x ≼ priority p))

  one_more :
      (w w₁ w' : W) (q r left : List (PendingPatch F Q)) (p : PendingPatch F Q)
      → Taken quantities q p r
      → submit kubelet w p ≡ (w₁, none)
      → Drained w₁ r w' left
      → Drained w q w' left
  one_more w w₁ w' q r left p t e d = record {
    submitted = p ∷ d.submitted;
    reached = d.reached;
    submits = sent e d.submits;
    descending =
        Pairwise.cons
          (λ x m. t.highest x (
            (Perm.mem_iff t.same).0
              (mem-cons_of_mem p ((Perm.mem_iff d.same).0 (mem-append_left left m)))))
          d.descending;
    same = Perm.trans (Perm.cons p d.same) t.same;
    valid = d.valid;
    stopped = d.stopped;
  }

  put_back :
      (w w' : W) (q r : List (PendingPatch F Q)) (p : PendingPatch F Q) (e : SubmitError)
      → IsQueue quantities q
      → Taken quantities q p r
      → submit kubelet w p ≡ (w', some e)
      → Drained w q w' (push quantities r p)
  put_back w w' q r p e v t h =
      let pushed =
        push-Pushed quantities laws r p t.valid
          (v.ranked p ((Perm.mem_iff t.same).0 mem-cons_self)) in
      let same = Perm.trans pushed.same t.same in
      record {
        submitted = [];
        reached = w;
        submits = done;
        descending = Pairwise.nil;
        same = same;
        valid = pushed.valid;
        stopped = inr (
          p,
          e,
          h,
          (Perm.mem_iff pushed.same).1 mem-cons_self,
          λ x m. t.highest x ((Perm.mem_iff same).0 m),
        );
      }

  -- One round, given that the rounds to come drain the queue that is left.
  settle-Drained :
      (more : W → List (PendingPatch F Q) → W × List (PendingPatch F Q)) (w : W)
      (q r : List (PendingPatch F Q)) (p : PendingPatch F Q)
      → IsQueue quantities q
      → Taken quantities q p r
      → ((w₁ : W) → Drained w₁ r (more w₁ r).0 (more w₁ r).1)
      → (answer : W × Option SubmitError) → submit kubelet w p ≡ answer
      → Drained w q (settle quantities more p r answer).0 (settle quantities more p r answer).1
  unfolding settle
  settle-Drained more w q r p v t ih (w₁, none) e = one_more w w₁ _ q r _ p t e (ih w₁)
  settle-Drained more w q r p v t ih (w₁, some x) e = put_back w w₁ q r p x v t e

  drain_loop-Drained :
      (fuel : ℕ) (w : W) (q : List (PendingPatch F Q))
      → length q < fuel
      → IsQueue quantities q
      → let (w', left) = drain_loop quantities kubelet fuel w q in Drained w q w' left
  unfolding drain_loop drain_round
  drain_loop-Drained zero w q f v = absurd (omega arith)
  drain_loop-Drained (suc fuel) w [] f v = rw (pop-empty {F = F} quantities) (record {
    submitted = [];
    reached = w;
    submits = done;
    descending = Pairwise.nil;
    same = Perm.nil;
    valid = v;
    stopped = inl (refl, refl);
  })
  drain_loop-Drained (suc fuel) w (x ∷ xs) f v =
      let (p, r, e, t) = pop-Taken quantities laws (x ∷ xs) v (omega arith) in
      let short : length r < fuel = omega (arith, length-perm p t.same) in
      rw e (
        settle-Drained (drain_loop quantities kubelet fuel) w (x ∷ xs) r p v t
          (λ w₁. drain_loop-Drained fuel w₁ r short t.valid) (submit kubelet w p) refl)

  -- drainPatches on a valid queue submits patches in order of falling priority, each successfully,
  -- until the queue is empty or a submission fails; in that case it stops, and the patch that
  -- failed is back in the queue, in which none has a higher priority. Every patch has been
  -- submitted or is still queued, once, and the queue stays valid.
  pub drain_patches-Drained :
      (w : W) (q : List (PendingPatch F Q))
      → IsQueue quantities q
      → let (w', left) = drain_patches quantities kubelet w q in Drained w q w' left
  unfolding drain_patches
  drain_patches-Drained w q v = drain_loop-Drained (suc (length q)) w q (omega arith) v
