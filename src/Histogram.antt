-- ===== src/Histogram.antt =====
-- internal/recommender/histogram/histogram.go: the decaying histogram and its methods. The slice
-- lengths and indices are checked as Go checks them: an access out of range is a panic.
pub mod Index
pub mod Methods
pub mod Percentile
pub mod Merging
pub mod Codec
pub mod Tests
use pp_vpa.Prelude.{
  ℕ, suc, ◌-◌, ◌*◌, ◌^◌, ◌<◌, ◌≤◌, ◌≡◌, Bool, not, ◌&&◌, Option, none, some, List, [], ◌∷◌, map,
  length, get_elem?, set, replicate, leb, ◌==◌, if◌then◌else◌, Outcome, ok, err, panic, ◌>>=◌,
  or_panic,
}
use pp_vpa.Prelude.Int.{ℤ, pos, negsuc, leb_ℤ, eqb_ℤ}
use pp_vpa.Float.{Float, nought, one, ltf, eqf}
use pp_vpa.Clock.{Time, Duration, is_zero, after, sub, seconds}

pub record Options (F : Type 0) : Type 0 where
  pub max_value : F
  pub first_bucket_size : F
  pub bucket_ratio : F
  pub half_life : Duration
  pub epsilon : F

-- The errors of the package, one for each message; `decoding` stands for those of base64 and gob.
pub data HistogramError : Type 0 where
  max_value_not_positive first_bucket_size_not_positive bucket_ratio_not_above_one : HistogramError
  half_life_not_positive epsilon_negative : HistogramError
  incompatible_options bucket_count_mismatch : HistogramError
  encoding decoding : HistogramError

pub record Histogram (F : Type 0) : Type 0 where
  pub opts : Options F
  pub n : ℕ
  pub buckets : List F
  pub total_weight : F
  pub reference_time : Time

-- At least one bucket.
unfoldable pub at_least_one : ℤ → ℕ
at_least_one (pos (suc k)) = suc k
at_least_one _ = 1

-- An index clipped to the buckets 0 to n - 1.
unfoldable pub clip : ℕ → ℤ → ℕ
clip n (pos k) = if leb n k then n - 1 else k
clip n (negsuc _) = 0

abbrev pub later : Time → Time → Time
later t u = if after u t then u else t

abbrev pub day : Duration
day = pos (24 * 3600 * 10 ^ 9)

module _ {F : Type 0} ⦃float : Float F⦄ where
  open float use {le, add, mul, div, pow, log, ceil, floor, lit, to_int}

  -- `none` is the nil error.
  unfoldable pub validate : Options F → Option HistogramError
  validate o =
      if le o.max_value nought
      then some max_value_not_positive
      else if le o.first_bucket_size nought
      then some first_bucket_size_not_positive
      else if le o.bucket_ratio one
      then some bucket_ratio_not_above_one
      else if leb_ℤ o.half_life (pos 0)
      then some half_life_not_positive
      else if ltf o.epsilon nought
      then some epsilon_negative
      else none

  unfoldable pub num_buckets : Options F → ℕ
  unfolding at_least_one
  num_buckets o =
      let r = o.bucket_ratio in
      let cap = div (mul o.max_value (float.sub r one)) o.first_bucket_size in
      at_least_one (to_int (ceil (div (log (add cap one)) (log r))))

  -- What `new` establishes and every method keeps: checked options, and as many buckets as they
  -- ask for, which make could yield.
  pub record IsValid (h : Histogram F) : Type 0 where
    pub checked : validate h.opts ≡ none
    pub counted : h.n ≡ num_buckets h.opts
    pub sized : length h.buckets ≡ h.n
    pub fits : h.n ≤ float.slice_limit

  -- The histogram of New once make has yielded the buckets.
  abbrev pub empty : Options F → Histogram F
  empty o = record {
    opts = o;
    n = num_buckets o;
    buckets = replicate (num_buckets o) nought;
    total_weight = nought;
    reference_time = 0;
  }

  -- make([]float64, n) panics where n is too large for a slice.
  unfoldable pub new : Options F → Outcome HistogramError (Histogram F)
  new o = elim (validate o) [
    | some e ↦ err e
    | none ↦ if leb (num_buckets o) float.slice_limit then ok (empty o) else panic
  ]

  -- The bucket of a positive value before it is clipped.
  unfoldable pub raw_index : Options F → F → ℤ
  raw_index o value =
      let r = o.bucket_ratio in
      let grown = add (div (mul value (float.sub r one)) o.first_bucket_size) one in
      to_int (floor (div (log grown) (log r)))

  unfoldable pub bucket_index : Histogram F → F → ℕ
  unfolding clip
  bucket_index h value = if le value nought then 0 else clip h.n (raw_index h.opts value)

  unfoldable pub bucket_start : Histogram F → ℕ → F
  bucket_start h k =
      let o = h.opts in
      let r = o.bucket_ratio in
      let growth = float.sub (pow r (float.of_int (pos k))) one in
      if k == 0 then nought else div (mul o.first_bucket_size growth) (float.sub r one)

  -- Every bucket and the total, aged by one factor to the time `t`.
  abbrev aged : Histogram F → F → Time → Histogram F
  aged h factor t = record h {
    buckets = map (λ w. mul w factor) h.buckets;
    total_weight = mul h.total_weight factor;
    reference_time = t;
  }

  unfoldable pub decay_factor : Histogram F → Time → F
  decay_factor h t =
      pow (lit 5 1) (div (seconds (sub t h.reference_time)) (seconds h.opts.half_life))

  unfoldable pub shift_reference : Histogram F → Time → Histogram F
  shift_reference h t =
      if is_zero h.reference_time
      then record h { reference_time = t }
      else if not (after t h.reference_time)
      then h
      else if le (seconds h.opts.half_life) nought
      then h
      else aged h (decay_factor h t) t

  -- buckets[i] += w
  unfoldable pub add_at : List F → ℕ → F → Outcome HistogramError (List F)
  add_at buckets i w = do x ← or_panic (get_elem? buckets i); ok (set buckets i (add x w))

  unfoldable pub add_sample : Histogram F → F → F → Time → Outcome HistogramError (Histogram F)
  add_sample h value weight sample_time =
      let shifted = shift_reference h sample_time in
      let added : Outcome HistogramError (Histogram F) = do
        buckets ← add_at shifted.buckets (bucket_index shifted value) weight
        ok (record shifted { buckets = buckets; total_weight = add shifted.total_weight weight })
      in if le weight nought then ok h else added

  abbrev pub decay : Histogram F → Time → Histogram F
  decay = shift_reference

  -- p clipped to [0, 100].
  unfoldable pub clip_percent : F → F
  clip_percent p = if ltf p nought then nought else if ltf (lit 100 0) p then lit 100 0 else p

  -- The loop of Percentile from bucket `i` on, with the weight `cum` below it.
  unfoldable pub percentile_loop : Histogram F → F → F → ℕ → List F → F
  percentile_loop h target cum i [] = h.opts.max_value
  percentile_loop h target cum i (w ∷ ws) =
      if le target (add cum w)
      then if suc i == h.n then h.opts.max_value else bucket_start h (suc i)
      else percentile_loop h target (add cum w) (suc i) ws

  -- The weight that the percentile has to reach.
  unfoldable pub target_weight : Histogram F → F → F
  target_weight h p = mul h.total_weight (div (clip_percent p) (lit 100 0))

  unfoldable pub percentile : Histogram F → F → F
  percentile h p =
      if le h.total_weight nought
      then nought
      else percentile_loop h (target_weight h p) nought 0 h.buckets

  abbrev pub is_empty : Histogram F → Bool
  is_empty h = le h.total_weight nought

  -- h.opts == other.opts
  unfoldable pub same_options : Options F → Options F → Bool
  same_options a b =
      eqf a.max_value b.max_value
      && eqf a.first_bucket_size b.first_bucket_size
      && eqf a.bucket_ratio b.bucket_ratio
      && eqb_ℤ a.half_life b.half_life
      && eqf a.epsilon b.epsilon

  -- The loop of Merge over the buckets of the receiver.
  unfoldable pub add_buckets : List F → List F → Outcome HistogramError (List F)
  add_buckets [] ys = ok []
  add_buckets (x ∷ xs) [] = panic
  add_buckets (x ∷ xs) (y ∷ ys) = do zs ← add_buckets xs ys; ok (add x y ∷ zs)

  unfoldable pub merge : Histogram F → Histogram F → Outcome HistogramError (Histogram F)
  merge h other =
      let t = later h.reference_time other.reference_time in
      let mine = shift_reference h t in
      let cp = shift_reference other t in
      let merged : Outcome HistogramError (Histogram F) = do
        buckets ← add_buckets mine.buckets cp.buckets
        ok (record mine { buckets = buckets; total_weight = add mine.total_weight cp.total_weight })
      in if not (same_options h.opts other.opts) then err incompatible_options else merged

  unfoldable pub load_buckets :
      Histogram F → List F → F → Time → Outcome HistogramError (Histogram F)
  load_buckets h b total_weight ref =
      if not (length b == h.n)
      then err bucket_count_mismatch
      else ok (record h { buckets = b; total_weight = total_weight; reference_time = ref })

  abbrev pub default_cpu_options : Options F
  default_cpu_options = record {
    max_value = lit 1000 0;
    first_bucket_size = lit 1 2;
    bucket_ratio = lit 105 2;
    half_life = day;
    epsilon = lit 1 6;
  }

  abbrev pub default_memory_options : Options F
  default_memory_options = record {
    max_value = lit (2 ^ 40) 0;
    first_bucket_size = lit (2 ^ 20) 0;
    bucket_ratio = lit 105 2;
    half_life = day;
    epsilon = lit 1 6;
  }
