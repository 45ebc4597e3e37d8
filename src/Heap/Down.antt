-- ===== src/Heap/Down.antt =====
-- `down` mends a slice whose first `n` entries have one entry that may come after its children.
use mathlib.Core.List.{Perm}
use mathlib.Core.List.Perm
use pp_vpa.Prelude.{
  ℕ, zero, suc, ◌+◌, ◌*◌, ◌≤◌, ◌<◌, ◌≡◌, ◌≢◌, refl, Bool, true, false, ◌&&◌, List, arith, length,
  ltb, leb, Bool-cases, inl, inr, ◌⊎◌,
}
use pp_vpa.Heap.Slice.{at, swap, at-swap, length-swap, swap-perm, swap-all}
use pp_vpa.Heap.{parent, down, first_child, IsHeapTo, IsOrder}

module _ {A : Type 0} (default : A) (less : A → A → Bool) (IsComparable : A → Type 0)
    (order : IsOrder less IsComparable) where
  open order use {asym, trans}

  abbrev get : List A → ℕ → A
  get = at default

  -- Only `i` may come after its children.
  pub record DownInv (n : ℕ) (xs : List A) (i : ℕ) : Type 0 where
    pub fits : n ≤ length xs
    pub edges : (c : ℕ) → 0 < c → c < n → parent c ≢ i → less (get xs c) (get xs (parent c)) ≡ false
    pub bridged :
        (c : ℕ) → 0 < c → c < n → parent c ≡ i → 0 < i → less (get xs c) (get xs (parent i)) ≡ false
    pub comparable : (c : ℕ) → c < length xs → IsComparable (get xs c)

  -- `j` is a child of `i`, and no child of `i` comes before it.
  pub record IsFirst (n : ℕ) (xs : List A) (i j : ℕ) : Type 0 where
    pub inside : j < n
    pub child : (j ≡ 2 * i + 1) ⊎ (j ≡ 2 * i + 2)
    pub first : (c : ℕ) → 0 < c → c < n → parent c ≡ i → c ≢ j → less (get xs c) (get xs j) ≡ false

  first_child-IsFirst :
      (n : ℕ) (xs : List A) (i : ℕ)
      → 2 * i + 1 < n
      → IsFirst n xs i (first_child default less xs i n)
  unfolding first_child
  first_child-IsFirst n xs i h =
      elim (Bool-cases
        (ltb (2 * i + 1 + 1) n && less (get xs (2 * i + 1 + 1)) (get xs (2 * i + 1)))) [
          | inl right ↦ rw right (record {
            inside = ground arith;
            child = omega arith;
            first =
                λ c p q e ne. ground (arith, asym (get xs (2 * i + 1 + 1)) (get xs (2 * i + 1)));
          })
          | inr left ↦ rw left (record {
            inside = omega arith;
            child = omega arith;
            first = λ c p q e ne. ground arith;
          })
        ]

  swap-DownInv :
      (n : ℕ) (xs : List A) (i j : ℕ)
      → DownInv n xs i
      → IsFirst n xs i j
      → less (get xs j) (get xs i) ≡ true
      → DownInv n (swap default xs i j) j
  swap-DownInv n xs i j v f sinks =
      let hj : j < length xs = omega (arith, v.fits, f.inside) in
      let hi : i < length xs = omega (arith, f.child) in
      let look = λ (k : ℕ). at-swap default xs i j k hi hj in
      let turned = asym (get xs j) (get xs i) sinks in
      record {
        fits = omega (arith, length-swap default xs i j, v.fits);
        edges = λ c p q ne. ground (
          arith,
          look c,
          look (parent c),
          turned,
          v.edges c p q,
          v.bridged j,
          f.first c p q,
          f.child,
        );
        bridged = λ c p q e r. ground (arith, look c, look (parent j), v.edges c p q, f.child);
        comparable = swap-all default IsComparable xs i j hi hj v.comparable;
      }

  pub down_restores :
      (fuel n : ℕ) (xs : List A) (i : ℕ)
      → n < fuel + i
      → DownInv n xs i
      → let ys = down default less fuel xs i n in
        IsHeapTo default less n ys × Perm ys xs × ((k : ℕ) → n ≤ k → get ys k ≡ get xs k)
  unfolding down
  down_restores zero n xs i f v = (λ c p q. v.edges c p q (omega arith), Perm.refl xs, λ k q. refl)
  down_restores (suc fuel) n xs i f v = elim (Bool-cases (leb n (2 * i + 1))) [
    | inl leaf ↦ rw leaf ((λ c p q. v.edges c p q (ground arith), Perm.refl xs, λ k q. refl))
    | inr inner ↦
        let j = first_child default less xs i n in
        let f' = first_child-IsFirst n xs i (ground arith) in
        elim (Bool-cases (less (get xs j) (get xs i))) [
          | inl sinks ↦
              let hj : j < length xs = omega (arith, v.fits, f'.inside) in
              let hi : i < length xs = omega (arith, f'.child) in
              let (heap, same, kept) =
                down_restores fuel n (swap default xs i j) j (omega (arith, f'.child))
                  (swap-DownInv n xs i j v f' sinks) in
              rw (inner, sinks)
                ((
                  heap,
                  Perm.trans same (swap-perm default xs i j hi hj),
                  λ k q.
                      ground (arith, kept k q, at-swap default xs i j k hi hj, f'.inside, f'.child),
                ))
          | inr settled ↦
              rw (inner, settled)
                ((
                  λ c p q. ground (
                    arith,
                    v.edges c p q,
                    f'.first c p q,
                    trans (get xs i) (get xs j) (get xs c)
                        (v.comparable j (omega (arith, v.fits, f'.inside))),
                  ),
                  Perm.refl xs,
                  λ k q. refl,
                ))
        ]
  ]
