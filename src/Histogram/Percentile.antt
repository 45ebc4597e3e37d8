-- ===== src/Histogram/Percentile.antt =====
-- Percentile reads the upper edge of the first bucket at which the running weight reaches its target.
use pp_vpa.Prelude.{
  ℕ, zero, suc, ◌+◌, ◌≤◌, ◌<◌, ◌≡◌, false, List, [], ◌∷◌, arith, length, leb, if◌then◌else◌, inl,
  inr, Bool-cases,
}
use native.Mathlib.Nat.{zero-add}
use native.Mathlib.Decide.{dec_lt}
use pp_vpa.Float.{Float, Ieee, ◌≼◌, IsNum, nought}
use pp_vpa.Histogram.{
  Histogram, IsValid, bucket_start, clip_percent, percentile_loop, target_weight, percentile,
}

module _ {F : Type 0} ⦃float : Float F⦄ where
  open float use {le, add, lit}

  -- The weight of the first k + 1 buckets over `cum`, added from the left.
  abbrev pub running : F → List F → ℕ → F
  running cum [] k = cum
  running cum (w ∷ ws) zero = add cum w
  running cum (w ∷ ws) (suc k) = running (add cum w) ws k

  -- The value that Percentile returns for bucket `k`.
  abbrev pub upper_edge : Histogram F → ℕ → F
  upper_edge h k = if leb h.n (suc k) then h.opts.max_value else bucket_start h (suc k)

  -- `k` is the first bucket whose running weight reaches the target, or the end if none does.
  pub record IsRank (target cum : F) (ws : List F) (k : ℕ) : Type 0 where
    pub before : (j : ℕ) → j < k → le target (running cum ws j) ≡ false
    pub reached : k < length ws → target ≼ running cum ws k
    pub inside : k ≤ length ws

  loop-IsRank :
      (h : Histogram F) (target cum : F) (i : ℕ) (ws : List F)
      → i + length ws ≡ h.n
      → (k : ℕ) × IsRank target cum ws k
        × (percentile_loop h target cum i ws ≡ upper_edge h (i + k))
  unfolding percentile_loop
  loop-IsRank h target cum i [] e = (
    0,
    record {
      before = λ j p. absurd (omega arith);
      reached = λ p. absurd (omega arith);
      inside = omega arith;
    },
    ground arith,
  )
  loop-IsRank h target cum i (w ∷ ws) e = elim (Bool-cases (le target (add cum w))) [
    | inl hit ↦ (
      0,
      record { before = λ j p. absurd (omega arith); reached = λ p. hit; inside = omega arith },
      ground arith,
    )
    | inr miss ↦
        let (k, r, q) = loop-IsRank h target (add cum w) (suc i) ws (omega arith) in
        (
          suc k,
          record {
            before = first miss r.before;
            reached = λ p. r.reached (omega arith);
            inside = omega (arith, r.inside);
          },
          ground arith,
        )
  ]
    where
      first :
          le target (add cum w) ≡ false
          → {k : ℕ} → ((j : ℕ) → j < k → le target (running (add cum w) ws j) ≡ false)
          → (j : ℕ) → j < suc k
          → le target (running cum (w ∷ ws) j) ≡ false
      first miss r zero p = miss
      first miss r (suc j) p = r j (omega arith)

  -- On a valid histogram whose total weight is not `<= 0`, Percentile returns the upper edge of
  -- the first bucket at which the running weight reaches the target weight, or of the end where
  -- none does.
  pub percentile-IsRank :
      (h : Histogram F) (p : F)
      → IsValid h
      → le h.total_weight nought ≡ false
      → (k : ℕ) × IsRank (target_weight h p) nought h.buckets k × (percentile h p ≡ upper_edge h k)
  unfolding percentile
  percentile-IsRank h p v e =
      let (k, r, q) =
        loop-IsRank h (target_weight h p) nought 0 h.buckets (omega (arith, v.sized)) in
      (k, r, ground (arith, q, zero-add k))

  -- p ≼ q makes the clipped p ≼ clipped q
  module _ (laws : Ieee F) where
    open laws use {
      le_trans, le_total, num_of_le, lit_le, div_le_div, div_lit_num, lit_pos, mul_le_mul, mul_comm,
    }

    clip_percent_mono : (p q : F) → p ≼ q → clip_percent p ≼ clip_percent q
    unfolding clip_percent
    clip_percent_mono p q h = ground (
      arith,
      num_of_le p q h,
      le_trans p q nought h,
      le_trans nought p q,
      lit_le 0 100 0 (omega arith),
      lit_le 0 0 0 (omega arith),
      lit_le 100 100 0 (omega arith),
      le_trans (lit 100 0) p q,
      le_total q (lit 100 0),
      le_total p (lit 0 0),
      le_total q (lit 0 0),
      le_total p (lit 100 0),
    )

    target_weight_mono :
        (h : Histogram F) (p q : F)
        → p ≼ q
        → nought ≼ h.total_weight
        → IsNum (target_weight h p)
        → IsNum (target_weight h q)
        → target_weight h p ≼ target_weight h q
    unfolding target_weight
    target_weight_mono h p q le pos np nq =
        let c = clip_percent_mono p q le in
        let (cp, cq) = num_of_le _ _ c in
        let d =
          div_le_div _ _ (lit 100 0) (lit_pos 99) c (div_lit_num _ 99 (omega arith) cp)
            (div_lit_num _ 99 (omega arith) cq) in
        rw
          (
            mul_comm h.total_weight (float.div (clip_percent p) (lit 100 0)),
            mul_comm h.total_weight (float.div (clip_percent q) (lit 100 0)),
          )
          (mul_le_mul _ _ h.total_weight pos d (rw mul_comm np) (rw mul_comm nq))

    rank_mono :
        (t u cum : F) (ws : List F) (j k : ℕ)
        → t ≼ u
        → IsRank t cum ws j
        → IsRank u cum ws k
        → j ≤ k
    rank_mono t u cum ws j k h r s = elim (dec_lt k j) [
      | yes p ↦ ground (
        arith,
        r.before k p,
        s.reached (omega (arith, r.inside)),
        le_trans t u (running cum ws k) h,
      )
      | no p ↦ omega arith
    ]

    -- On a valid histogram with positive total weight, where neither target weight is NaN, a
    -- higher percentile reads the upper edge of the same or of a later bucket.
    pub percentile_mono :
        (h : Histogram F) (p q : F)
        → IsValid h
        → le h.total_weight nought ≡ false
        → nought ≼ h.total_weight
        → IsNum (target_weight h p)
        → IsNum (target_weight h q)
        → p ≼ q
        → (j : ℕ) × (k : ℕ) × (j ≤ k)
          × (percentile h p ≡ upper_edge h j)
          × (percentile h q ≡ upper_edge h k)
    percentile_mono h p q v e pos np nq le =
        let (j, r, a) = percentile-IsRank h p v e in
        let (k, s, b) = percentile-IsRank h q v e in
        (j, k, rank_mono _ _ nought h.buckets j k (target_weight_mono h p q le pos np nq) r s, a, b)
