-- ===== src/Recommender/ChainTests.antt =====
-- The stages of the recommender on a small histogram, one after the other.
use pp_vpa.Prelude.{ℕ, zero, suc, ◌≡◌, refl, subst, arith}
use pp_vpa.Prelude.Int.{pos}
use pp_vpa.Float.{◌≼◌}
use pp_vpa.Float.Fixed.{Fixed, fixed_float, Fixed-Ieee, power}
use pp_vpa.Clock.{in_units}
use pp_vpa.Histogram.{bucket_start, percentile, percentile_loop, target_weight, clip_percent}
use pp_vpa.Histogram.Percentile.{upper_edge}
use pp_vpa.Histogram.Tests.{loaded, loaded-IsValid}
use pp_vpa.Cluster.Samples.{sample_spec}
use pp_vpa.Recommender.Aggregate.{WorkloadHistograms}
use pp_vpa.Recommender.Bounds.{
  Bounds, parse_percentile, compute_bounds, confidence_multipliers, apply_confidence, margin_factor,
  apply_margin,
}
use pp_vpa.Recommender.Ordering.{IsOrdered}
use pp_vpa.Recommender.Chain.{IsReadable, stages-IsOrdered}

-- From bucket 2 on Percentile returns the maximum.
last : (k : ℕ) → 7000 ≡ upper_edge loaded (suc (suc k))
unfolding bucket_start
last k = ground arith

edges : (k : ℕ) → upper_edge loaded k ≼ upper_edge loaded (suc k)
unfolding bucket_start power
edges zero = refl
edges (suc zero) = refl
edges (suc (suc k)) =
    subst (λ z. upper_edge loaded (suc (suc k)) ≼ z) (last (suc k))
      (subst (λ z. z ≼ upper_edge loaded 2) (last k) refl)

loaded-IsReadable : IsReadable 50000 90000 95000 loaded
unfolding target_weight clip_percent bucket_start power
loaded-IsReadable = record {
  valid = loaded-IsValid;
  weighed = refl;
  rising = (refl, edges);
  lower_num = refl;
  target_num = refl;
  upper_num = refl;
}

abbrev workload : WorkloadHistograms Fixed
workload = record { cpu = loaded; memory = loaded }

abbrev recommended : Bounds Fixed
recommended =
    apply_margin
      (apply_confidence (compute_bounds workload sample_spec.recommender_policy)
        (confidence_multipliers (pos 86400000000000)))
      sample_spec.recommender_policy 2500

stages-IsOrdered_example : IsOrdered recommended.cpu × IsOrdered recommended.memory
unfolding parse_percentile compute_bounds confidence_multipliers apply_confidence margin_factor
    percentile percentile_loop target_weight clip_percent bucket_start power in_units
stages-IsOrdered_example =
    stages-IsOrdered Fixed-Ieee workload sample_spec.recommender_policy (pos 86400000000000) 2500
      loaded-IsReadable loaded-IsReadable refl refl refl refl refl (refl, refl, refl)
      (refl, refl, refl) refl
