-- ===== src/Recommender/Tests.antt =====
-- The recommender's stages on numbers in thousandths, and the whole of it on the sample PRRs.
use pp_vpa.Prelude.{ℕ, ◌≡◌, refl, true, some, List, [], ◌∷◌, String, contains, Returns}
use pp_vpa.Prelude.Int.{pos}
use pp_vpa.Float.{◌≼◌, nought, ltf}
use pp_vpa.Float.Fixed.{Fixed, fixed_float, Fixed-Ieee}
use pp_vpa.Histogram.Tests.{unread, listing}
use pp_vpa.Patcher.Tests.{amounts}
use pp_vpa.Api.{Prr}
use pp_vpa.Cluster.Samples.{sample_prr, sample_spec}
use pp_vpa.Recommender.Bounds.{
  Range, Bounds, Confidence, apply_margin, margin_factor, clamp_max, clamp_min,
}
use pp_vpa.Recommender.Recommend.{recommend, unique_container_names, names_loop, add_names}
use pp_vpa.Recommender.Ordering.{IsOrdered, Within, apply_margin_lem, clamp-Within}
use pp_vpa.Recommender.Names.{Distinct, mentioned, unique_container_names_lem}
use pp_vpa.Recommender.Totality.{IsUniform, recommend_lem}

abbrev range : Range Fixed
range = record { lower = 1000; target = 2000; uncapped = 2000; upper = 3000 }

abbrev both : Bounds Fixed
both = record { cpu = range; memory = range }

abbrev spread : Confidence Fixed
spread = record { lower_multiplier = 500; upper_multiplier = 2000 }

-- A peak of 2.5 with a margin of 15 %: the floor is 2.875.
raised : (apply_margin both sample_spec.recommender_policy 2500).memory.lower ≡ 2875
unfolding apply_margin margin_factor
raised = refl

apply_margin_lem_example :
    let out = apply_margin both sample_spec.recommender_policy 2500 in
    IsOrdered out.cpu
    × IsOrdered out.memory
    × (ltf {F = Fixed} nought 2500 ≡ true
        → (fixed_float.mul 2500 (margin_factor sample_spec.recommender_policy) ≼ out.memory.lower)
          × (fixed_float.mul 2500 (margin_factor sample_spec.recommender_policy)
              ≼ out.memory.target)
          × (fixed_float.mul 2500 (margin_factor sample_spec.recommender_policy)
              ≼ out.memory.upper))
unfolding margin_factor
apply_margin_lem_example =
    apply_margin_lem Fixed-Ieee both sample_spec.recommender_policy 2500 refl (refl, refl, refl)
      (refl, refl, refl) refl (refl, refl) (refl, refl)

clamp-Within_example :
    Within Fixed-Ieee (some 1500) (some 1800) (clamp_max (some 1800) (clamp_min (some 1500) range))
clamp-Within_example =
    clamp-Within Fixed-Ieee (some 1500) (some 1800) range refl refl (refl, refl, refl)

abbrev prrs : List (Prr ℕ)
prrs = sample_prr "a" ∷ sample_prr "b" ∷ []

named : unique_container_names prrs ≡ "app" ∷ []
unfolding names_loop add_names
named = refl

unique_container_names_lem_example :
    Distinct (unique_container_names prrs)
    × ((s : String) → contains (unique_container_names prrs) s ≡ mentioned prrs s)
unique_container_names_lem_example = unique_container_names_lem prrs

recommend_lem_example :
    Returns
      (IsUniform (unique_container_names prrs))
      (recommend listing amounts prrs sample_spec (pos 86400000000000))
recommend_lem_example =
    recommend_lem Fixed-Ieee listing amounts prrs sample_spec (pos 86400000000000)
      (unread, (unread, tt))
