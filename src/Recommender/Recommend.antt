-- ===== src/Recommender/Recommend.antt =====
-- internal/recommender/recommend.go
use pp_vpa.Prelude.{
  Option, none, some, List, [], ◌∷◌, ◌++◌, map, String, str_eq, if◌then◌else◌, Outcome, ok, ◌>>=◌,
  contains,
}
use pp_vpa.Float.{Float, nought, ltf}
use pp_vpa.Clock.{Duration}
use pp_vpa.Histogram.{HistogramError}
use pp_vpa.Histogram.Codec.{Codec, Checkpoint}
use pp_vpa.Kube.{Quantities, ResourceList}
use pp_vpa.Api.{
  Prr, PpvpaSpec, ContainerRecommendation, PodLevelRecommendation, Recommendation, ObservedPeak,
}
use pp_vpa.Recommender.Aggregate.{aggregate}
use pp_vpa.Recommender.Bounds.{
  Bounds, compute_bounds, confidence_multipliers, apply_confidence, apply_margin, clamp_to_policy,
}

-- The map `seen` holds the names that `out` holds.
abbrev pub add_name : List String → String → List String
add_name out name = if contains out name then out else out ++ name ∷ []

-- The pod-level memory peak of a PRR, where there is one that parses.
unfoldable pub peak_text : Option ObservedPeak → Option String
peak_text none = none
peak_text (some op) = elim op.pod_level [
  | none ↦ none
  | some level ↦ if str_eq level.memory "" then none else some level.memory
]

module _ {Q : Type 0} where
  unfoldable pub add_names : List String → List (ContainerRecommendation Q) → List String
  add_names out [] = out
  add_names out (c ∷ cs) = add_names (add_name out c.container_name) cs

  unfoldable pub names_loop : List String → List (Prr Q) → List String
  names_loop out [] = out
  names_loop out (prr ∷ prrs) = names_loop (add_names out prr.status.container_recommendations) prrs

  abbrev pub unique_container_names : List (Prr Q) → List String
  unique_container_names = names_loop []

module _ {F Q : Type 0} ⦃float : Float F⦄ (quantities : Quantities Q) where
  open float use {mul, ceil, lit, of_int, to_int}

  abbrev pub raised_to : F → Option Q → F
  raised_to peak none = peak
  raised_to peak (some q) = let v = of_int (quantities.value q) in if ltf peak v then v else peak

  unfoldable pub raise_peak : F → Prr Q → F
  raise_peak peak prr = elim (peak_text prr.status.observed_peak) [
    | none ↦ peak
    | some s ↦ raised_to peak (quantities.parse_quantity s)
  ]

  unfoldable pub peak_loop : F → List (Prr Q) → F
  peak_loop peak [] = peak
  peak_loop peak (prr ∷ prrs) = peak_loop (raise_peak peak prr) prrs

  abbrev pub max_observed_memory_peak : List (Prr Q) → F
  max_observed_memory_peak = peak_loop nought

  abbrev not_negative : F → F
  not_negative v = if ltf v nought then nought else v

  unfoldable pub resource_list : F → F → ResourceList Q
  resource_list cpu_cores mem_bytes = record {
    cpu = some (quantities.of_milli (to_int (ceil (mul (not_negative cpu_cores) (lit 1000 0)))));
    memory = some (quantities.of_whole (to_int (ceil (not_negative mem_bytes))));
  }

  unfoldable pub pod_level_of : Bounds F → PodLevelRecommendation Q
  pod_level_of b = record {
    lower_bound = resource_list b.cpu.lower b.memory.lower;
    target = resource_list b.cpu.target b.memory.target;
    uncapped_target = resource_list b.cpu.uncapped b.memory.uncapped;
    upper_bound = resource_list b.cpu.upper b.memory.upper;
  }

  unfoldable pub container_of : Bounds F → String → ContainerRecommendation Q
  container_of b name = record {
    container_name = name;
    lower_bound = resource_list b.cpu.lower b.memory.lower;
    target = resource_list b.cpu.target b.memory.target;
    uncapped_target = resource_list b.cpu.uncapped b.memory.uncapped;
    upper_bound = resource_list b.cpu.upper b.memory.upper;
  }

  -- The recommendation for bounds and container names.
  unfoldable pub recommendation_of : Bounds F → List String → Recommendation Q
  recommendation_of b names = record {
    pod_level_target = resource_list b.cpu.target b.memory.target;
    pod_level = pod_level_of b;
    container_recommendations = map (container_of b) names;
  }

module _ {F Q : Type 0} ⦃float : Float F⦄ (codec : Codec (Checkpoint F))
    (quantities : Quantities Q) where
  unfoldable pub recommend :
      List (Prr Q) → PpvpaSpec Q → Duration → Outcome HistogramError (Recommendation Q)
  recommend prrs spec workload_age = do
    wh ← aggregate codec prrs
    let b₀ = compute_bounds wh spec.recommender_policy
    let b₁ = apply_confidence b₀ (confidence_multipliers workload_age)
    let b₂ = apply_margin b₁ spec.recommender_policy (max_observed_memory_peak quantities prrs)
    let b = clamp_to_policy quantities b₂ spec.resource_policy
    ok (recommendation_of quantities b (unique_container_names prrs))
