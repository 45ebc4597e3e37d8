-- ===== src/Recommender/Totality.antt =====
-- What Aggregate and Recommend return, on every list of resources.
use pp_vpa.Prelude.{
  ℕ, zero, suc, ◌+◌, ◌^◌, ◌<◌, ◌≤◌, ◌≡◌, refl, subst, ap, false, none, List, [], ◌∷◌, map, String,
  Returns, Returns-bind, Bool-cases, inl, inr, ◌⊎◌, ◌∙◌, arith, All, true, leb,
}
use pp_vpa.Float.{terms, Float, Ieee, ◌≼◌, nought, one, ltf}
use pp_vpa.Prelude.Int.{ℤ, pos, negsuc, leb_ℤ}
use pp_vpa.Clock.{Duration}
use pp_vpa.Histogram.{
  Histogram, Options, new, merge, validate, default_cpu_options, default_memory_options, IsValid,
  same_options, num_buckets, at_least_one,
}
use pp_vpa.Histogram.Index.{validate_iff}
use pp_vpa.Histogram.Methods.{new_lem}
use pp_vpa.Histogram.Merging.{merge-Merged, merge_incompatible}
use pp_vpa.Histogram.Codec.{Codec, Checkpoint, IsExcessive, decode_moderate}
use pp_vpa.Kube.{Quantities}
use pp_vpa.Api.{Prr, PpvpaSpec, Recommendation}
use pp_vpa.Recommender.Aggregate.{
  WorkloadHistograms, new_workload_histograms, kept, merge_into, merge_decoded, aggregate_prr,
  aggregate_loop, aggregate,
}
use pp_vpa.Recommender.Recommend.{
  recommend, recommendation_of, unique_container_names, container_of, pod_level_of,
}
use pp_vpa.Recommender.Bounds.{Bounds}

short_count : (z : ℤ) → leb_ℤ z (pos 1000) ≡ true → at_least_one z ≤ 1000
unfolding at_least_one
short_count (pos zero) h = omega arith
short_count (pos (suc k)) h = ground arith
short_count (negsuc k) h = omega arith

module _ {F Q : Type 0} ⦃float : Float F⦄ (codec : Codec (Checkpoint F)) where
  -- No payload is excessive.
  abbrev pub IsModerate : List (Prr Q) → Type 0
  IsModerate prrs = All (λ p. ¬ IsExcessive codec p.status.histogram_checkpoint) prrs

module _ {F : Type 0} ⦃float : Float F⦄ (laws : Ieee F) where
  open laws use {lit_pos, lit_lt, lit_le, lit_whole, num_of_le}

  le_of_lit :
      (m n d : ℕ) → m < n → n ≤ 1000000 → d ≤ 3 → float.le (float.lit n d) (float.lit m d) ≡ false
  le_of_lit m n d h k l = ground (arith, lit_lt m n d h k l)

  epsilon_not-lt : ltf (float.lit 1 6) nought ≡ false
  epsilon_not-lt =
      ground (arith, subst (λ z. z ≼ float.lit 1 6) (lit_whole 0 6) (lit_le 0 1 6 (omega arith)))

  size_positive : float.le (float.lit 1 2) nought ≡ false
  size_positive =
      subst (λ z. float.le (float.lit 1 2) z ≡ false) (lit_whole 0 2)
        (le_of_lit 0 1 2 (omega arith) (omega arith) (omega arith))

  ratio_above_one : float.le (float.lit 105 2) one ≡ false
  ratio_above_one =
      subst (λ z. float.le (float.lit 105 2) z ≡ false) (lit_whole 1 2)
        (le_of_lit 100 105 2 (omega arith) (omega arith) (omega arith))

  positive : (m : ℕ) → float.le (float.lit (m + 1) 0) nought ≡ false
  positive m = ground (arith, lit_pos m)

  pub default_cpu_options-valid : validate {F = F} default_cpu_options ≡ none
  default_cpu_options-valid =
      (validate_iff default_cpu_options).1
        (positive 999, size_positive, ratio_above_one, refl, epsilon_not-lt)

  pub default_memory_options-valid : validate {F = F} default_memory_options ≡ none
  default_memory_options-valid =
      (validate_iff default_memory_options).1
        (positive 1099511627775, positive 1048575, ratio_above_one, refl, epsilon_not-lt)

  pub default_cpu_options-short :
      leb (num_buckets {F = F} default_cpu_options) float.slice_limit ≡ true
  unfolding num_buckets
  default_cpu_options-short = ground (
    arith,
    short_count (terms (float.lit 1000 0) (float.lit 1 2)) laws.short_cpu,
    laws.makes_short,
  )

  pub default_memory_options-short :
      leb (num_buckets {F = F} default_memory_options) float.slice_limit ≡ true
  unfolding num_buckets
  default_memory_options-short = ground (
    arith,
    short_count (terms (float.lit (2 ^ 40) 0) (float.lit (2 ^ 20) 0)) laws.short_memory,
    laws.makes_short,
  )

  new-Returns :
      (o : Options F)
      → validate o ≡ none
      → leb (num_buckets o) float.slice_limit ≡ true
      → Returns (λ h. IsValid h × (h.opts ≡ o)) (new o)
  new-Returns o e l = elim (new_lem o) [
    | inl (x, f, g) ↦ absurd (cc (e, f))
    | inr (inl (x, f, g)) ↦ absurd (cc (l, f))
    | inr (inr (h, p, (v, q, t))) ↦ (h, p, (v, q))
  ]

  pub new_cpu-Returns :
      Returns (λ h. IsValid h × (h.opts ≡ default_cpu_options)) (new {F = F} default_cpu_options)
  new_cpu-Returns = new-Returns _ default_cpu_options-valid default_cpu_options-short

  pub new_memory-Returns :
      Returns
        (λ h. IsValid h × (h.opts ≡ default_memory_options))
        (new {F = F} default_memory_options)
  new_memory-Returns = new-Returns _ default_memory_options-valid default_memory_options-short

  -- Valid histograms with the default options.
  pub record IsWorkload (wh : WorkloadHistograms F) : Type 0 where
    pub cpu : IsValid wh.cpu × (wh.cpu.opts ≡ default_cpu_options)
    pub memory : IsValid wh.memory × (wh.memory.opts ≡ default_memory_options)

  pub new_workload_histograms-IsWorkload : Returns IsWorkload new_workload_histograms
  unfolding new_workload_histograms
  new_workload_histograms-IsWorkload = Returns-bind _ _ new_cpu-Returns (λ c p.
      Returns-bind _ _ new_memory-Returns
        (λ m q. (record { cpu = c; memory = m }, refl, record { cpu = p; memory = q })))

  pub kept-merge :
      (h other : Histogram F)
      → IsValid h
      → IsValid other
      → Returns (λ r. IsValid r × (r.opts ≡ h.opts)) (kept h (merge h other))
  kept-merge h other v w = elim (Bool-cases (same_options h.opts other.opts)) [
    | inl e ↦ (let (r, p, m) = merge-Merged laws h other v w e in (r, rw p, (m.valid, m.same_opts)))
    | inr e ↦ (h, rw (merge_incompatible h other e), (v, refl))
  ]

  merge_into-IsWorkload :
      (wh : WorkloadHistograms F) (h : Histogram F)
      → IsWorkload wh
      → IsValid h
      → Returns IsWorkload (merge_into wh h)
  unfolding merge_into
  merge_into-IsWorkload wh h v w =
      let (r, p, (i, o)) = kept-merge wh.memory h v.memory.0 w in
      let (c, q, (j, l)) = kept-merge wh.cpu h v.cpu.0 w in
      elim (Bool-cases (float.le (float.lit (2 ^ 30) 0) h.opts.max_value)) [
        | inl e ↦ (
          record wh { memory = r },
          rw (e, p),
          record { cpu = v.cpu; memory = (i, o ∙ v.memory.1) },
        )
        | inr e ↦
            (record wh { cpu = c }, rw (e, q), record { cpu = (j, l ∙ v.cpu.1); memory = v.memory })
      ]

module _ {F Q : Type 0} ⦃float : Float F⦄ (laws : Ieee F) (codec : Codec (Checkpoint F)) where
  aggregate_prr-IsWorkload :
      (wh : WorkloadHistograms F) (prr : Prr Q)
      → ¬ IsExcessive codec prr.status.histogram_checkpoint
      → IsWorkload laws wh
      → Returns (IsWorkload laws) (aggregate_prr codec wh prr)
  unfolding aggregate_prr merge_decoded
  aggregate_prr-IsWorkload wh prr m v = elim (payload prr.status.histogram_checkpoint) [
    | inl e ↦ (wh, rw e, v)
    | inr (b, bs, e) ↦
        elim (decode_moderate codec (b ∷ bs) (subst (λ z. ¬ IsExcessive codec z) e m)) [
          | inl (h, f, w) ↦ rw (e, f) (merge_into-IsWorkload laws wh h v w)
          | inr (x, f) ↦ (wh, rw (e, f), v)
        ]
  ]
    where
      payload : {A : Type 0} (xs : List A) → (xs ≡ []) ⊎ ((y : A) × (ys : List A) × (xs ≡ y ∷ ys))
      payload [] = inl refl
      payload (y ∷ ys) = inr (y, ys, refl)

  aggregate_loop-IsWorkload :
      (wh : WorkloadHistograms F) (prrs : List (Prr Q))
      → IsModerate codec prrs
      → IsWorkload laws wh
      → Returns (IsWorkload laws) (aggregate_loop codec wh prrs)
  unfolding aggregate_loop
  aggregate_loop-IsWorkload wh [] m v = (wh, refl, v)
  aggregate_loop-IsWorkload wh (p ∷ ps) (m, ms) v =
      Returns-bind _ _ (aggregate_prr-IsWorkload wh p m v)
        (λ w i. aggregate_loop-IsWorkload w ps ms i)

  -- On every list of PRRs without an excessive payload, Aggregate returns two valid histograms with
  -- the default options for cpu and memory.
  pub aggregate-IsWorkload :
      (prrs : List (Prr Q))
      → IsModerate codec prrs
      → Returns (IsWorkload laws) (aggregate codec prrs)
  unfolding aggregate
  aggregate-IsWorkload prrs m =
      Returns-bind _ _ (new_workload_histograms-IsWorkload laws)
        (λ w i. aggregate_loop-IsWorkload w prrs m i)

-- One recommendation for the pod level and for each name of `names`.
pub record IsUniform {Q : Type 0} (names : List String) (r : Recommendation Q) : Type 0 where
  pub targets : r.pod_level_target ≡ r.pod_level.target
  pub names_in_order : map (λ c. c.container_name) r.container_recommendations ≡ names
  pub containers :
      All
        (λ c.
          (c.target ≡ r.pod_level.target)
          × (c.lower_bound ≡ r.pod_level.lower_bound)
          × (c.upper_bound ≡ r.pod_level.upper_bound)
          × (c.uncapped_target ≡ r.pod_level.uncapped_target))
        r.container_recommendations

module _ {F Q : Type 0} ⦃float : Float F⦄ (laws : Ieee F) (codec : Codec (Checkpoint F))
    (quantities : Quantities Q) where
  recommendation_of-IsUniform :
      (b : Bounds F) (names : List String) → IsUniform names (recommendation_of quantities b names)
  unfolding recommendation_of container_of pod_level_of
  recommendation_of-IsUniform b names = record {
    targets = refl;
    names_in_order = same names;
    containers = each names;
  }
    where
      same :
          (xs : List String) → map (λ c. c.container_name) (map (container_of quantities b) xs) ≡ xs
      same [] = refl
      same (x ∷ xs) = ap (λ ys. x ∷ ys) (same xs)

      each :
          (xs : List String)
          → All
              (λ c.
                (c.target ≡ (pod_level_of quantities b).target)
                × (c.lower_bound ≡ (pod_level_of quantities b).lower_bound)
                × (c.upper_bound ≡ (pod_level_of quantities b).upper_bound)
                × (c.uncapped_target ≡ (pod_level_of quantities b).uncapped_target))
              (map (container_of quantities b) xs)
      each [] = tt
      each (x ∷ xs) = ((refl, refl, refl, refl), each xs)

  -- On every list of PRRs none of whose payloads has options that pass the checks and ask for more
  -- buckets than make yields, Recommend returns a recommendation: one entry for each unique
  -- container name, in their order, each with the bounds and targets of the pod level.
  pub recommend_lem :
      (prrs : List (Prr Q)) (spec : PpvpaSpec Q) (workload_age : Duration)
      → IsModerate codec prrs
      → Returns
          (IsUniform (unique_container_names prrs))
          (recommend codec quantities prrs spec workload_age)
  unfolding recommend
  recommend_lem prrs spec workload_age m =
      Returns-bind _ _ (aggregate-IsWorkload laws codec prrs m)
        (λ wh i. (_, refl, recommendation_of-IsUniform _ _))
