-- ===== src/Recommender/Chain.antt =====
-- The bounds through the stages of Recommend before the clamping: percentiles, confidence, margin.
use pp_vpa.Prelude.{
  ℕ, zero, suc, ◌+◌, ◌-◌, ◌≤◌, ◌≡◌, refl, true, Bool-cases, inl, inr, arith, subst, sym, ◌∙◌,
}
use pp_vpa.Float.{Float, Ieee, ◌≼◌, IsNum, nought}
use pp_vpa.Clock.{Duration, hours}
use pp_vpa.Api.{RecommenderPolicy}
use pp_vpa.Histogram.{Histogram, IsValid, percentile, target_weight}
use pp_vpa.Histogram.Percentile.{upper_edge, percentile_mono}
use pp_vpa.Recommender.Aggregate.{WorkloadHistograms}
use pp_vpa.Recommender.Bounds.{
  Range, parse_percentile, range_of, compute_bounds, confidence_multipliers, apply_confidence,
  margin_factor, pad, apply_margin,
}
use pp_vpa.Recommender.Ordering.{
  IsOrdered, IsNumeric, confidence_multipliers_bounds, apply_confidence-IsOrdered, apply_margin_lem,
}

module _ {F : Type 0} ⦃float : Float F⦄ where
  open float use {le, mul, lit}

  -- The values that Percentile returns for the buckets rise with the bucket, from nought.
  abbrev pub EdgesRise : Histogram F → Type 0
  EdgesRise h = (nought ≼ upper_edge h 0) × ((k : ℕ) → upper_edge h k ≼ upper_edge h (suc k))

  -- A histogram whose percentiles at `lower`, `target` and `upper` mean something.
  pub record IsReadable (lower target upper : F) (h : Histogram F) : Type 0 where
    pub valid : IsValid h
    pub weighed : nought ≼ h.total_weight
    pub rising : EdgesRise h
    pub lower_num : IsNum (target_weight h lower)
    pub target_num : IsNum (target_weight h target)
    pub upper_num : IsNum (target_weight h upper)

  -- The percentiles of a policy, with the defaults of ComputeBounds.
  abbrev pub lower_percent : RecommenderPolicy → F
  lower_percent p = parse_percentile p.lower_bound_percentile (lit 50 0)

  abbrev pub target_percent : RecommenderPolicy → F
  target_percent p = parse_percentile p.target_percentile (lit 90 0)

  abbrev pub upper_percent : RecommenderPolicy → F
  upper_percent p = parse_percentile p.upper_bound_percentile (lit 95 0)

  empty_percentile :
      (h : Histogram F) (q : F) → le h.total_weight nought ≡ true → percentile h q ≡ nought
  unfolding percentile
  empty_percentile h q e = rw e refl

  module _ (laws : Ieee F) where
    open laws use {le_trans, num_of_le, num_of_mul, lit_le}

    upper_edge_add :
        (h : Histogram F) (j d : ℕ) → EdgesRise h → upper_edge h j ≼ upper_edge h (j + d)
    upper_edge_add h j zero r =
        subst (λ k. upper_edge h j ≼ upper_edge h k) (omega arith) (num_of_le _ _ (r.1 j)).0
    upper_edge_add h j (suc d) r =
        subst (λ k. upper_edge h j ≼ upper_edge h k) (omega arith)
          (le_trans _ _ _ (upper_edge_add h j d r) (r.1 (j + d)))

    upper_edge_mono :
        (h : Histogram F) (j k : ℕ) → EdgesRise h → j ≤ k → upper_edge h j ≼ upper_edge h k
    upper_edge_mono h j k r e =
        subst (λ z. upper_edge h j ≼ upper_edge h z) (omega arith) (upper_edge_add h j (k - j) r)

    percentile_le :
        (h : Histogram F) (p q : F)
        → IsValid h
        → nought ≼ h.total_weight
        → EdgesRise h
        → IsNum (target_weight h p)
        → IsNum (target_weight h q)
        → p ≼ q
        → (nought ≼ percentile h p) × (percentile h p ≼ percentile h q)
    percentile_le h p q v w r np nq e = elim (Bool-cases (le h.total_weight nought)) [
      | inl z ↦ (
        nothing p z,
        subst (λ x. percentile h p ≼ x) (zero_at p z ∙ sym (zero_at q z))
            (num_of_le nought _ (nothing p z)).1,
      )
      | inr z ↦
          (let (j, k, o, a, b) = percentile_mono laws h p q v z w np nq e in
            (
              subst (λ x. nought ≼ x) (sym a)
                  (le_trans _ _ _ r.0 (upper_edge_mono h 0 j r (omega arith))),
              subst (λ x. x ≼ percentile h q) (sym a)
                  (subst (λ x. upper_edge h j ≼ x) (sym b) (upper_edge_mono h j k r o)),
            ))
    ]
      where
        zero_at : (x : F) → le h.total_weight nought ≡ true → percentile h x ≡ nought
        zero_at x z = empty_percentile h x z

        nothing : (x : F) → le h.total_weight nought ≡ true → nought ≼ percentile h x
        nothing x z = subst (λ y. nought ≼ y) (sym (zero_at x z)) (lit_le 0 0 0 (omega arith))

    range_of-IsOrdered :
        (h : Histogram F) (lower target upper : F)
        → IsReadable lower target upper h
        → lower ≼ target
        → target ≼ upper
        → (nought ≼ (range_of h lower target upper).lower)
          × IsOrdered (range_of h lower target upper)
    range_of-IsOrdered h lower target upper i l u =
        let a =
          percentile_le h lower target i.valid i.weighed i.rising i.lower_num i.target_num l in
        let b =
          percentile_le h target upper i.valid i.weighed i.rising i.target_num i.upper_num u in
        (a.0, (a.1, b.1))

    -- Padded values are numbers only where the values are.
    unpad-IsNumeric : (x : F) (r : Range F) → IsNumeric (pad x r) → IsNumeric r
    unpad-IsNumeric x r (l, t, u) =
        ((num_of_mul _ _ l).0, (num_of_mul _ _ t).0, (num_of_mul _ _ u).0)

    -- For valid histograms whose bucket edges rise and whose weight is not negative, percentiles in
    -- order, a margin factor that is not negative, and no NaN on the way: the bounds that
    -- ComputeBounds, ApplyConfidence and ApplyMargin make one after the other, as Recommend calls
    -- them, keep lower ≼ target ≼ upper for cpu and for memory.
    pub stages-IsOrdered :
        (wh : WorkloadHistograms F) (p : RecommenderPolicy) (age : Duration) (peak : F)
        → let c = confidence_multipliers {F = F} age in
          let widened = apply_confidence (compute_bounds wh p) c in
          let factor = margin_factor {F = F} p in
          IsReadable (lower_percent p) (target_percent p) (upper_percent p) wh.cpu
          → IsReadable (lower_percent p) (target_percent p) (upper_percent p) wh.memory
          → lower_percent p ≼ target_percent p
          → target_percent p ≼ upper_percent p
          → IsNum (hours {F = F} age)
          → IsNum c.upper_multiplier
          → nought ≼ factor
          → IsNumeric (pad factor widened.cpu)
          → IsNumeric (pad factor widened.memory)
          → IsNum (mul peak factor)
          → let b = apply_margin widened p peak in IsOrdered b.cpu × IsOrdered b.memory
    unfolding compute_bounds
    stages-IsOrdered wh p age peak rc rm l u nh nu f nc nm np =
        let b = compute_bounds wh p in
        let c = confidence_multipliers {F = F} age in
        let x = margin_factor {F = F} p in
        let (below, above) = confidence_multipliers_bounds laws age nh nu in
        let (pc, oc) = range_of-IsOrdered wh.cpu _ _ _ rc l u in
        let (pm, om) = range_of-IsOrdered wh.memory _ _ _ rm l u in
        let (wc, wm) =
          apply_confidence-IsOrdered laws b c below above pc pm
            (unpad-IsNumeric x (apply_confidence b c).cpu nc)
            (unpad-IsNumeric x (apply_confidence b c).memory nm) oc om in
        let m = apply_margin_lem laws (apply_confidence b c) p peak f nc nm np wc wm in (m.0, m.1)
