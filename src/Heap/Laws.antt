-- ===== src/Heap/Laws.antt =====
-- What heap.Push and heap.Pop promise: a heap of the same entries, and the entry that comes first.
use mathlib.Core.List.{Perm, Mem}
use mathlib.Core.List.Perm
use mathlib.Core.Bool.{Bool-set}
use pp_vpa.Prelude.{
  ℕ, zero, suc, ◌-◌, ◌<◌, ◌≡◌, Bool, false, List, [], ◌∷◌, ◌++◌, arith, length, Bool-cases, inl,
  inr, take, length-append, subst, sym,
}
use pp_vpa.Heap.Slice.{
  at, swap, at-swap, length-swap, swap-perm, swap-all, at-append, at-take, take-last, length-take,
  append-perm, mem-at, all_members, length-perm,
}
use pp_vpa.Heap.{parent, down, heap_push, heap_pop, IsHeap, IsOrder}
use pp_vpa.Heap.Up.{UpInv, up_restores}
use pp_vpa.Heap.Down.{DownInv, down_restores}

module _ {A : Type 0} (default : A) (less : A → A → Bool) (IsComparable : A → Type 0)
    (order : IsOrder less IsComparable) where
  open order use {asym, trans}

  abbrev get : List A → ℕ → A
  get = at default

  abbrev pub AllComparable : List A → Type 0
  AllComparable xs = (x : A) → Mem x xs → IsComparable x

  comparable_at :
      (xs : List A) → AllComparable xs → (k : ℕ) → k < length xs → IsComparable (get xs k)
  comparable_at xs all k h = all (get xs k) (mem-at default xs k h)

  -- The root of a heap comes before every other element.
  root_first_below :
      (fuel : ℕ) (xs : List A) (i : ℕ)
      → IsHeap default less xs
      → AllComparable xs
      → i < fuel
      → i < length xs
      → less (get xs i) (get xs 0) ≡ false
  root_first_below zero xs i h all f p = absurd (omega arith)
  root_first_below (suc fuel) xs zero h all f p = elim (Bool-cases (less (get xs 0) (get xs 0))) [
    | inl e ↦ asym (get xs 0) (get xs 0) e
    | inr e ↦ e
  ]
  root_first_below (suc fuel) xs (suc i) h all f p =
      trans (get xs 0) (get xs (parent (suc i))) (get xs (suc i))
        (comparable_at xs all (parent (suc i)) (omega arith))
        (root_first_below fuel xs (parent (suc i)) h all (omega arith) (omega arith))
        (h (suc i) (omega arith) p)

  pub heap_push_lem :
      (xs : List A) (x : A)
      → IsHeap default less xs
      → AllComparable (x ∷ xs)
      → IsHeap default less (heap_push default less xs x)
        × Perm (heap_push default less xs x) (x ∷ xs)
  unfolding heap_push
  heap_push_lem xs x h all =
      let ys = xs ++ x ∷ [] in
      let size : length ys ≡ suc (length xs) = omega (arith, length-append xs (x ∷ [])) in
      let same = append-perm default xs x in
      let all' : AllComparable ys = λ y m. all y ((Perm.mem_iff same).0 m) in
      let inv : UpInv default less IsComparable order ys (length xs) = record {
        inside = omega arith;
        edges = λ c p q ne. ground (
          arith,
          h c p,
          at-append default xs (x ∷ []) c,
          at-append default xs (x ∷ []) (parent c),
        );
        bridged = λ c p q e r. absurd (omega arith);
        comparable = comparable_at ys all';
      } in
      let (heap, perm) =
        up_restores default less IsComparable order (suc (length xs)) ys (length xs) (omega arith)
          inv in
      (heap, Perm.trans perm same)

  -- The entry `x` with the slice `rest` left: none of the entries of `xs` comes before `x`.
  pub record Popped (xs : List A) (x : A) (rest : List A) : Type 0 where
    pub heap : IsHeap default less rest
    pub same : Perm (x ∷ rest) xs
    pub first : (y : A) → Mem y xs → less y x ≡ false

  pub heap_pop_lem :
      (xs : List A)
      → IsHeap default less xs
      → AllComparable xs
      → 0 < length xs
      → Popped xs (heap_pop default less xs).0 (heap_pop default less xs).1
  unfolding heap_pop
  heap_pop_lem xs h all pos =
      let n = length xs - 1 in
      let s = swap default xs 0 n in
      let look = λ (k : ℕ). at-swap default xs 0 n k pos (omega arith) in
      let size = length-swap default xs 0 n in
      let inv : DownInv default less IsComparable order n s 0 = record {
        fits = omega arith;
        edges = λ c p q ne. ground (arith, look c, look (parent c), h c p);
        bridged = λ c p q e r. absurd (omega arith);
        comparable = swap-all default IsComparable xs 0 n pos (omega arith) (comparable_at xs all);
      } in
      let ys = down default less (suc n) s 0 n in
      let (heap, perm, kept) =
        down_restores default less IsComparable order (suc n) n s 0 (omega arith) inv in
      let whole = Perm.trans perm (swap-perm default xs 0 n pos (omega arith)) in
      let long : length ys ≡ suc n = omega (arith, length-perm default whole) in
      let short = length-take default n ys (omega arith) in
      let top : at default ys n ≡ get xs 0 = ground (arith, kept n, look n) in
      record {
        heap = λ c p q.
            ground (arith, heap c p, at-take default n ys c, at-take default n ys (parent c));
        same =
            Perm.trans (Perm.symm (append-perm default (take n ys) (at default ys n)))
              (subst (λ zs. Perm zs xs) (sym (take-last default n ys long)) whole);
        first = λ y m.
            subst (λ x. less y x ≡ false) (sym top)
              (all_members default (λ z. less z (get xs 0) ≡ false) (λ z. Bool-set _ _) xs
                (λ i p. root_first_below (suc i) xs i h all (omega arith) p) y m);
      }
