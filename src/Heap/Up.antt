-- ===== src/Heap/Up.antt =====
-- `up` mends a slice in which one entry may come before its ancestors.
use mathlib.Core.List.{Perm}
use mathlib.Core.List.Perm
use pp_vpa.Prelude.{
  ℕ, zero, suc, ◌<◌, ◌≡◌, ◌≢◌, Bool, true, false, not, ◌||◌, List, arith, length, ◌==◌, Bool-cases,
  inl, inr,
}
use pp_vpa.Heap.Slice.{at, swap, at-swap, length-swap, swap-perm, swap-all}
use pp_vpa.Heap.{parent, up, IsHeap, IsOrder}

module _ {A : Type 0} (default : A) (less : A → A → Bool) (IsComparable : A → Type 0)
    (order : IsOrder less IsComparable) where
  open order use {asym, trans}

  abbrev get : List A → ℕ → A
  get = at default

  -- Only `j` may come before its parent.
  pub record UpInv (xs : List A) (j : ℕ) : Type 0 where
    pub inside : j < length xs
    pub edges :
        (c : ℕ) → 0 < c → c < length xs → c ≢ j → less (get xs c) (get xs (parent c)) ≡ false
    pub bridged :
        (c : ℕ)
        → 0 < c
        → c < length xs
        → parent c ≡ j
        → 0 < j
        → less (get xs c) (get xs (parent j)) ≡ false
    pub comparable : (c : ℕ) → c < length xs → IsComparable (get xs c)

  swap-UpInv :
      (xs : List A) (j : ℕ)
      → UpInv xs j
      → 0 < j
      → less (get xs j) (get xs (parent j)) ≡ true
      → UpInv (swap default xs (parent j) j) (parent j)
  swap-UpInv xs j v pos rises =
      let i = parent j in
      let hi : i < length xs = omega (arith, v.inside) in
      let look = λ (k : ℕ). at-swap default xs i j k hi v.inside in
      let size = length-swap default xs i j in
      let turned = asym (get xs j) (get xs i) rises in
      record {
        inside = omega arith;
        edges = λ c p q ne. ground (
          arith,
          look c,
          look (parent c),
          turned,
          v.edges c p,
          v.bridged c p,
          trans (get xs j) (get xs i) (get xs c) (v.comparable i hi),
        );
        bridged = λ c p q e r. ground (
          arith,
          look c,
          look (parent i),
          v.edges c p,
          v.edges i r hi,
          trans (get xs (parent i)) (get xs i) (get xs c) (v.comparable i hi),
        );
        comparable = swap-all default IsComparable xs i j hi v.inside v.comparable;
      }

  pub up_restores :
      (fuel : ℕ) (xs : List A) (j : ℕ)
      → j < fuel
      → UpInv xs j
      → IsHeap default less (up default less fuel xs j) × Perm (up default less fuel xs j) xs
  unfolding up
  up_restores zero xs j f v = absurd (omega arith)
  up_restores (suc fuel) xs j f v =
      elim (Bool-cases (parent j == j || not (less (get xs j) (get xs (parent j))))) [
        | inl done ↦ rw done ((λ c p q. ground (arith, v.edges c p q)), Perm.refl xs)
        | inr more ↦
            let pos : 0 < j = ground arith in
            let hi : parent j < length xs = omega (arith, v.inside) in
            let (heap, same) =
              up_restores fuel (swap default xs (parent j) j) (parent j) (omega arith)
                (swap-UpInv xs j v pos (ground arith)) in
            rw more (heap, Perm.trans same (swap-perm default xs (parent j) j hi v.inside))
      ]
