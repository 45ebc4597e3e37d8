-- ===== src/Recommender/Bounds.antt =====
-- percentile.go, confidence.go and margin.go of internal/recommender, and clampToPolicy of recommend.go.
use pp_vpa.Prelude.{Option, none, some, List, [], ◌∷◌, String, str_eq, if◌then◌else◌}
use pp_vpa.Float.{Float, nought, one, ltf}
use pp_vpa.Clock.{Duration, hours}
use pp_vpa.Histogram.{Histogram, percentile}
use pp_vpa.Kube.{Quantities}
use pp_vpa.Api.{RecommenderPolicy, PodLevelPolicy, ResourcePolicy}
use pp_vpa.Recommender.Aggregate.{WorkloadHistograms}

-- The four values of one resource, and both resources.
pub record Range (F : Type 0) : Type 0 where
  pub lower : F
  pub target : F
  pub uncapped : F
  pub upper : F

pub record Bounds (F : Type 0) : Type 0 where
  pub cpu : Range F
  pub memory : Range F

pub record Confidence (F : Type 0) : Type 0 where
  pub lower_multiplier : F
  pub upper_multiplier : F

module _ {F : Type 0} ⦃float : Float F⦄ where
  open float use {add, mul, div, neg, pow, lit, of_int}

  abbrev or_fallback : Option F → F → F
  or_fallback none fallback = fallback
  or_fallback (some v) fallback = v

  unfoldable pub parse_percentile : String → F → F
  parse_percentile s fallback =
      if str_eq s "" then fallback else or_fallback (float.parse_float s) fallback

  abbrev pub range_of : Histogram F → F → F → F → Range F
  range_of h lower target upper = record {
    lower = percentile h lower;
    target = percentile h target;
    uncapped = percentile h target;
    upper = percentile h upper;
  }

  unfoldable pub compute_bounds : WorkloadHistograms F → RecommenderPolicy → Bounds F
  compute_bounds wh p =
      let lower = parse_percentile p.lower_bound_percentile (lit 50 0) in
      let target = parse_percentile p.target_percentile (lit 90 0) in
      let upper = parse_percentile p.upper_bound_percentile (lit 95 0) in
      record {
        cpu = range_of wh.cpu lower target upper;
        memory = range_of wh.memory lower target upper;
      }

  unfoldable pub confidence_multipliers : Duration → Confidence F
  confidence_multipliers lifetime =
      let minute = div one (lit 60 0) in
      let t = div (if ltf (hours lifetime) minute then minute else hours lifetime) (lit 24 0) in
      record {
        lower_multiplier = pow (add one (div one t)) (neg (lit 5 1));
        upper_multiplier = pow (add one (div one t)) one;
      }

  abbrev pub widen : Confidence F → Range F → Range F
  widen c r = record r {
    lower = mul r.lower c.lower_multiplier;
    upper = mul r.upper c.upper_multiplier;
  }

  unfoldable pub apply_confidence : Bounds F → Confidence F → Bounds F
  apply_confidence b c = record { cpu = widen c b.cpu; memory = widen c b.memory }

  -- 1 + margin, where a negative percentage counts as 0.
  unfoldable pub margin_factor : RecommenderPolicy → F
  margin_factor p =
      let pct = of_int p.safety_margin_percentage in
      add one (div (if ltf pct nought then nought else pct) (lit 100 0))

  abbrev pub pad : F → Range F → Range F
  pad factor r = record r {
    lower = mul r.lower factor;
    target = mul r.target factor;
    upper = mul r.upper factor;
  }

  abbrev pub at_least : F → F → F
  at_least floor v = if ltf v floor then floor else v

  abbrev pub raise : F → Range F → Range F
  raise floor r = record r {
    lower = at_least floor r.lower;
    target = at_least floor r.target;
    upper = at_least floor r.upper;
  }

  unfoldable pub apply_margin : Bounds F → RecommenderPolicy → F → Bounds F
  apply_margin b p observed_memory_peak =
      let factor = margin_factor p in
      let out = pad factor b.memory in
      record {
        cpu = pad factor b.cpu;
        memory =
            if ltf nought observed_memory_peak
            then raise (mul observed_memory_peak factor) out
            else out;
      }

  abbrev pub at_most : F → F → F
  at_most ceiling v = if ltf ceiling v then ceiling else v

  -- MinAllowed raises the target and the lower bound; MaxAllowed then cuts the upper bound and the target.
  abbrev pub clamp_min : Option F → Range F → Range F
  clamp_min none r = r
  clamp_min (some v) r = record r { target = at_least v r.target; lower = at_least v r.lower }

  abbrev pub clamp_max : Option F → Range F → Range F
  clamp_max none r = r
  clamp_max (some v) r = record r { upper = at_most v r.upper; target = at_most v r.target }

module _ {F Q : Type 0} ⦃float : Float F⦄ (quantities : Quantities Q) where
  open float use {div, lit, of_int}

  -- A limit in bytes, and one in cores.
  abbrev pub in_bytes : Option Q → Option F
  in_bytes none = none
  in_bytes (some q) = some (of_int (quantities.value q))

  abbrev pub in_cores : Option Q → Option F
  in_cores none = none
  in_cores (some q) = some (div (of_int (quantities.milli_value q)) (lit 1000 0))

  -- One round of the loop of clampToPolicy.
  unfoldable pub clamp_one : Bounds F → PodLevelPolicy Q → Bounds F
  clamp_one b p =
      if str_eq p.resource_name "memory"
      then record b {
        memory = clamp_max (in_bytes p.max_allowed) (clamp_min (in_bytes p.min_allowed) b.memory);
      }
      else if str_eq p.resource_name "cpu"
      then record b {
        cpu = clamp_max (in_cores p.max_allowed) (clamp_min (in_cores p.min_allowed) b.cpu);
      }
      else b

  unfoldable pub clamp_all : Bounds F → List (PodLevelPolicy Q) → Bounds F
  clamp_all b [] = b
  clamp_all b (p ∷ ps) = clamp_all (clamp_one b p) ps

  abbrev pub clamp_to_policy : Bounds F → ResourcePolicy Q → Bounds F
  clamp_to_policy b policy = clamp_all b policy.pod_level_policies
