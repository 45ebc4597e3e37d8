-- ===== src/Histogram/Tests.antt =====
-- A small histogram over thousandths, a codec for it, and the theorems at these inputs.
use mathlib.Core.Option.{some-injective}
use pp_vpa.Prelude.{
  ℕ, zero, suc, ◌+◌, ◌*◌, ◌^◌, ◌≡◌, refl, List, [], ◌∷◌, arith, ok, err, panic, Returns, some, none,
  Option, ◌⊎◌, ◌++◌, subst,
}
use pp_vpa.Prelude.Int.{ℤ, pos, negsuc}
use pp_vpa.Float.{nought}
use pp_vpa.Float.Fixed.{Fixed, fixed_float, Fixed-Ieee, log_loop, power}
use pp_vpa.Clock
use pp_vpa.Clock.{Time, epoch, unix_nano, in_units}
use pp_vpa.Histogram.{
  Options, Histogram, HistogramError, IsValid, num_buckets, validate, percentile, bucket_index,
  add_sample, decay, merge, target_weight, same_options, shift_reference, decay_factor, raw_index,
  new, at_least_one,
}
use pp_vpa.Histogram.Methods.{add_sample-Sampled, Sampled}
use pp_vpa.Histogram.Percentile.{upper_edge, IsRank, percentile-IsRank}
use pp_vpa.Histogram.Merging.{merge-Merged, Merged}
use pp_vpa.Histogram.Codec.{
  Bytes, Codec, IsLossless, Checkpoint, checkpoint_of, encode, decode, decode-encode, decode_safe,
  IsExcessive,
}

abbrev second : ℤ
second = pos (10 ^ 9)

-- Buckets up to 1.0, 3.0 and 7.0.
abbrev small : Options Fixed
small = record {
  max_value = 7000;
  first_bucket_size = 1000;
  bucket_ratio = 2000;
  half_life = second;
  epsilon = 0;
}

abbrev now : Time
now = epoch + 5 * 10 ^ 9

abbrev pub loaded : Histogram Fixed
loaded = record {
  opts = small;
  n = 3;
  buckets = 1000 ∷ 0 ∷ 3000 ∷ [];
  total_weight = 4000;
  reference_time = now;
}

pub loaded-IsValid : IsValid loaded
unfolding validate num_buckets log_loop
loaded-IsValid = record { checked = refl; counted = refl; sized = refl; fits = omega arith }

three_buckets : num_buckets small ≡ 3
unfolding num_buckets log_loop
three_buckets = refl

indices :
    (bucket_index loaded 500 ≡ 0) × (bucket_index loaded 2500 ≡ 1) × (bucket_index loaded 90000 ≡ 2)
unfolding bucket_index raw_index log_loop
indices = (refl, refl, refl)

halved : (decay loaded (now + 10 ^ 9)).buckets ≡ 500 ∷ 0 ∷ 1500 ∷ []
unfolding shift_reference decay_factor Clock.sub in_units power
halved = refl

add_sample-Sampled_example :
    Returns (Sampled loaded 2500 1000 (now + 10 ^ 9)) (add_sample loaded 2500 1000 (now + 10 ^ 9))
add_sample-Sampled_example = add_sample-Sampled loaded 2500 1000 (now + 10 ^ 9) loaded-IsValid refl

percentile-IsRank_example :
    (k : ℕ) × IsRank (target_weight loaded 20000) nought loaded.buckets k
    × (percentile loaded 20000 ≡ upper_edge loaded k)
percentile-IsRank_example = percentile-IsRank loaded 20000 loaded-IsValid refl

merge-Merged_example : Returns (Merged loaded loaded) (merge loaded loaded)
unfolding same_options
merge-Merged_example = merge-Merged Fixed-Ieee loaded loaded loaded-IsValid loaded-IsValid refl

-- A lossless codec: the fields one after the other, each integer after a mark for its sign.
abbrev sign_of : ℤ → List ℕ
sign_of (pos n) = 0 ∷ n ∷ []
sign_of (negsuc n) = 1 ∷ n ∷ []

abbrev signed : ℕ → ℕ → ℤ
signed zero n = pos n
signed (suc _) n = negsuc n

abbrev listed : Checkpoint Fixed → Bytes
listed c =
    c.max_value
    ∷ c.first_bucket_size
    ∷ c.bucket_ratio
    ∷ c.epsilon
    ∷ c.total_weight
    ∷ (sign_of c.half_life_ns ++ (sign_of c.reference_unix_ns ++ c.buckets))

abbrev read : Bytes → Option (Checkpoint Fixed)
read (m ∷ f ∷ r ∷ e ∷ t ∷ hs ∷ h ∷ us ∷ u ∷ b) = some (record {
  max_value = m;
  first_bucket_size = f;
  bucket_ratio = r;
  half_life_ns = signed hs h;
  epsilon = e;
  buckets = b;
  total_weight = t;
  reference_unix_ns = signed us u;
})
read _ = none

abbrev pub listing : Codec (Checkpoint Fixed)
listing = record { marshal = λ c. some (listed c); unmarshal = read }

pub unread : ¬ IsExcessive listing []
unread (cp, e, v, l) = cc

read-listed :
    (h u : ℤ) (c : Checkpoint Fixed)
    → c.half_life_ns ≡ h
    → c.reference_unix_ns ≡ u
    → read (listed c) ≡ some c
read-listed (pos h) (pos u) c p q = ground arith
read-listed (pos h) (negsuc u) c p q = ground arith
read-listed (negsuc h) (pos u) c p q = ground arith
read-listed (negsuc h) (negsuc u) c p q = ground arith

pub listing-IsLossless : IsLossless listing
listing-IsLossless = record {
  restores =
      λ c s e. subst (λ t. read t ≡ some c) (some-injective _ _ e) (read-listed _ _ c refl refl);
}

decode-encode_example : decode listing (listed (checkpoint_of loaded)) ≡ ok loaded
unfolding encode unix_nano
decode-encode_example =
    decode-encode listing listing-IsLossless loaded (listed (checkpoint_of loaded)) loaded-IsValid
      (omega arith) refl

-- Valid options with far more buckets than fit, and a payload of none.
abbrev excess : Codec (Checkpoint Fixed)
excess = record {
  marshal = λ c. none;
  unmarshal = λ s. some (record {
    max_value = 2 ^ 60;
    first_bucket_size = 1;
    bucket_ratio = 1002;
    half_life_ns = pos 1;
    epsilon = 0;
    buckets = [];
    total_weight = 0;
    reference_unix_ns = pos 0;
  });
}

excess_panics : decode excess (0 ∷ []) ≡ panic
unfolding decode new validate num_buckets at_least_one log_loop
excess_panics = refl

decode_safe_example :
    (Returns IsValid (decode excess (0 ∷ []))
      ⊎ ((e : HistogramError) × (decode excess (0 ∷ []) ≡ err e))
      ⊎ (decode excess (0 ∷ []) ≡ panic))
    × (decode excess (0 ∷ []) ≡ panic → IsExcessive excess (0 ∷ []))
    × (IsExcessive excess (0 ∷ []) → decode excess (0 ∷ []) ≡ panic)
decode_safe_example = decode_safe excess (0 ∷ [])
