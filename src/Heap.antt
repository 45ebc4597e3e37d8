-- ===== src/Heap.antt =====
-- container/heap of the Go standard library over a slice, as internal/nodeagent/patcher uses it.
-- `less x y` is h.Less at the positions of x and y. The loops test their indices against the length,
-- so no access panics; `at` reads a zero value there. Indices stay below twice the length plus three.
pub mod Slice
pub mod Up
pub mod Down
pub mod Laws
use pp_vpa.Prelude.{
  ℕ, zero, suc, ◌+◌, ◌-◌, ◌*◌, ◌/◌, ◌<◌, ◌≡◌, Bool, true, false, not, ◌&&◌, ◌||◌, List, [], ◌∷◌,
  ◌++◌, length, take, ltb, leb, ◌==◌, if◌then◌else◌,
}
use Slice.{at, swap}

abbrev pub parent : ℕ → ℕ
parent j = (j - 1) / 2

-- What the heap needs of `less`. Only between comparable entries is "not less" transitive: for
-- priorities that are floats, `IsComparable` excludes NaN.
pub record IsOrder {A : Type 0} (less : A → A → Bool) (IsComparable : A → Type 0) : Type 0 where
  pub asym : (x y : A) → less x y ≡ true → less y x ≡ false
  pub trans : (x y z : A) → IsComparable y → less y x ≡ false → less z y ≡ false → less z x ≡ false

module _ {A : Type 0} (default : A) (less : A → A → Bool) where
  -- `for { i := (j - 1) / 2; if i == j || !h.Less(j, i) { break }; h.Swap(i, j); j = i }`
  unfoldable pub up : ℕ → List A → ℕ → List A
  up zero xs j = xs
  up (suc fuel) xs j =
      let i = parent j in
      let rest = up fuel (swap default xs i j) i in
      if i == j || not (less (at default xs j) (at default xs i)) then xs else rest

  -- The child of `i` that comes first, among the first `n` entries.
  unfoldable pub first_child : List A → ℕ → ℕ → ℕ
  first_child xs i n =
      let j = 2 * i + 1 in
      if ltb (j + 1) n && less (at default xs (j + 1)) (at default xs j) then j + 1 else j

  unfoldable pub down : ℕ → List A → ℕ → ℕ → List A
  down zero xs i n = xs
  down (suc fuel) xs i n =
      let j = first_child xs i n in
      let rest = down fuel (swap default xs i j) j n in
      if leb n (2 * i + 1)
      then xs
      else if not (less (at default xs j) (at default xs i))
      then xs
      else rest

  -- The Push of the interface, which appends an entry.
  abbrev pub append_entry : List A → A → List A
  append_entry xs x = xs ++ x ∷ []

  -- The Pop of the interface on a slice of n + 1 entries: the last one, and the slice without it.
  abbrev pub pop_last : ℕ → List A → A × List A
  pop_last n ys = (at default ys n, take n ys)

  unfoldable pub heap_push : List A → A → List A
  heap_push xs x = up (suc (length xs)) (append_entry xs x) (length xs)

  -- heap.Pop on a slice of n + 1 entries: the entry removed, and the slice left.
  unfoldable pub heap_pop : List A → A × List A
  heap_pop xs = let n = length xs - 1 in pop_last n (down (suc n) (swap default xs 0 n) 0 n)

  -- No entry comes before its parent, among the first `n`.
  abbrev pub IsHeapTo : ℕ → List A → Type 0
  IsHeapTo n xs =
      (c : ℕ) → 0 < c → c < n → less (at default xs c) (at default xs (parent c)) ≡ false

  abbrev pub IsHeap : List A → Type 0
  IsHeap xs = IsHeapTo (length xs) xs
