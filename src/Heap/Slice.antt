-- ===== src/Heap/Slice.antt =====
-- A slice as a list: reading, exchanging two entries, and what that does to the entries as a bag.
use mathlib.Core.Logic.{∥∥₁_elim}
use mathlib.Core.List.{
  Perm, Permᴰ, append-nil, perm_middle, Mem, mem-cons_self, mem-cons_of_mem, not-mem-nil,
  forall_mem-cons,
}
use mathlib.Core.List.Perm
use native.Mathlib.Nat.{ℕ_set}
use pp_vpa.Prelude.{
  ℕ, zero, suc, ◌<◌, ◌≡◌, refl, ap, ◌∙◌, subst, sym, Bool-cases, inl, inr, List, [], ◌∷◌, ◌++◌,
  arith, length, take, set, length-set, ◌==◌, if◌then◌else◌,
}

module _ {A : Type 0} (default : A) where
  unfoldable pub at : List A → ℕ → A
  at [] i = default
  at (x ∷ xs) zero = x
  at (x ∷ xs) (suc i) = at xs i

  unfoldable pub swap : List A → ℕ → ℕ → List A
  swap xs i j = set (set xs i (at xs j)) j (at xs i)

  pub length-swap : (xs : List A) (i j : ℕ) → length (swap xs i j) ≡ length xs
  unfolding swap
  length-swap xs i j = length-set (set xs i (at xs j)) j (at xs i) ∙ length-set xs i (at xs j)

  at-set :
      (xs : List A) (i k : ℕ) (v : A)
      → i < length xs
      → at (set xs i v) k ≡ (if k == i then v else at xs k)
  unfolding at
  at-set [] i k v h = absurd (omega arith)
  at-set (x ∷ xs) zero zero v h = refl
  at-set (x ∷ xs) zero (suc k) v h = ground arith
  at-set (x ∷ xs) (suc i) zero v h = ground arith
  at-set (x ∷ xs) (suc i) (suc k) v h = ground (arith, at-set xs i k v)

  pub at-swap :
      (xs : List A) (i j k : ℕ)
      → i < length xs
      → j < length xs
      → at (swap xs i j) k ≡ (if k == j then at xs i else if k == i then at xs j else at xs k)
  unfolding swap
  at-swap xs i j k p q = ground (
    arith,
    at-set (set xs i (at xs j)) j k (at xs i),
    at-set xs i k (at xs j),
    length-set xs i (at xs j),
  )

  pub at-append : (xs ys : List A) (k : ℕ) → k < length xs → at (xs ++ ys) k ≡ at xs k
  unfolding at
  at-append [] ys k h = absurd (omega arith)
  at-append (x ∷ xs) ys zero h = refl
  at-append (x ∷ xs) ys (suc k) h = at-append xs ys k (omega arith)

  pub at-append_last : (xs : List A) (x : A) → at (xs ++ x ∷ []) (length xs) ≡ x
  unfolding at
  at-append_last [] x = refl
  at-append_last (y ∷ xs) x = at-append_last xs x

  pub at-take : (n : ℕ) (xs : List A) (k : ℕ) → k < n → at (take n xs) k ≡ at xs k
  unfolding at
  at-take zero xs k h = absurd (omega arith)
  at-take (suc n) [] k h = refl
  at-take (suc n) (x ∷ xs) zero h = refl
  at-take (suc n) (x ∷ xs) (suc k) h = at-take n xs k (omega arith)

  -- Cutting off the last entry.
  pub take-last : (n : ℕ) (xs : List A) → length xs ≡ suc n → take n xs ++ at xs n ∷ [] ≡ xs
  unfolding at
  take-last n [] h = absurd (omega arith)
  take-last zero (x ∷ []) h = refl
  take-last zero (x ∷ y ∷ xs) h = absurd (omega arith)
  take-last (suc n) (x ∷ xs) h = ap (◌∷◌ x) (take-last n xs (omega arith))

  pub length-take : (n : ℕ) (xs : List A) → n < length xs → length (take n xs) ≡ n
  length-take zero xs h = refl
  length-take (suc n) [] h = absurd (omega arith)
  length-take (suc n) (x ∷ xs) h = ap suc (length-take n xs (omega arith))

  -- Writing `v` at `i` exchanges it for the old entry.
  exchange : (xs : List A) (i : ℕ) (v : A) → i < length xs → Perm (at xs i ∷ set xs i v) (v ∷ xs)
  unfolding at
  exchange [] i v h = absurd (omega arith)
  exchange (x ∷ xs) zero v h = Perm.swap v x xs
  exchange (x ∷ xs) (suc i) v h =
      Perm.trans
        (Perm.trans (Perm.swap x (at xs i) (set xs i v))
          (Perm.cons x (exchange xs i v (omega arith))))
        (Perm.swap v x xs)

  pub swap-perm : (xs : List A) (i j : ℕ) → i < length xs → j < length xs → Perm (swap xs i j) xs
  unfolding swap
  swap-perm xs i j p q =
      let ys = set xs i (at xs j) in
      let inner : j < length ys = omega (arith, length-set xs i (at xs j)) in
      let here : at ys j ≡ at xs j = ground (arith, at-set xs i j (at xs j)) in
      Perm.cons_inv (
        Perm.trans
          (subst (λ x. Perm (x ∷ set ys j (at xs i)) (at xs i ∷ ys)) here
            (exchange ys j (at xs i) inner))
          (exchange xs i (at xs j) p))

  pub append-perm : (xs : List A) (x : A) → Perm (xs ++ x ∷ []) (x ∷ xs)
  append-perm xs x =
      subst (λ ys. Perm (xs ++ x ∷ []) (x ∷ ys)) (append-nil xs) (perm_middle {a = x} xs [])

  -- What holds of every entry still does after an exchange.
  pub swap-all :
      (P : A → Type 0) (xs : List A) (i j : ℕ)
      → i < length xs
      → j < length xs
      → ((k : ℕ) → k < length xs → P (at xs k))
      → (k : ℕ) → k < length (swap xs i j)
      → P (at (swap xs i j) k)
  swap-all P xs i j p q all k h = subst P (sym (at-swap xs i j k p q)) (elim (Bool-cases (k == j)) [
    | inl e ↦ rw e (all i p)
    | inr ne ↦ elim (Bool-cases (k == i)) [
      | inl e ↦ rw (ne, e) (all j q)
      | inr ne' ↦ rw (ne, ne') (all k (omega (arith, length-swap xs i j)))
    ]
  ])

  pub mem-at : (xs : List A) (i : ℕ) → i < length xs → Mem (at xs i) xs
  unfolding at
  mem-at [] i h = absurd (omega arith)
  mem-at (x ∷ xs) zero h = mem-cons_self
  mem-at (x ∷ xs) (suc i) h = mem-cons_of_mem x (mem-at xs i (omega arith))

  -- What holds of the entry at every index holds of every member.
  pub all_members :
      (P : A → Type 0) (prop : (x : A) → IsProp (P x)) (xs : List A)
      → ((i : ℕ) → i < length xs → P (at xs i))
      → (x : A) → Mem x xs
      → P x
  unfolding at
  all_members P prop [] h = λ x m. absurd (not-mem-nil m)
  all_members P prop (y ∷ xs) h =
      (forall_mem-cons λ x. prop x).1
        (h 0 (omega arith), all_members P prop xs λ i p. h (suc i) (omega arith))

  entries-Permᴰ : {xs ys : List A} → Permᴰ xs ys → length xs ≡ length ys
  entries-Permᴰ Permᴰ.nil = refl
  entries-Permᴰ (Permᴰ.cons x p) = ap suc (entries-Permᴰ p)
  entries-Permᴰ (Permᴰ.swap x y) = refl
  entries-Permᴰ (Permᴰ.trans p q) = entries-Permᴰ p ∙ entries-Permᴰ q

  pub length-perm : {xs ys : List A} → Perm xs ys → length xs ≡ length ys
  length-perm p = ∥∥₁_elim p (ℕ_set _ _) entries-Permᴰ
