-- ===== src/Histogram/Index.antt =====
-- BucketIndex and the number of buckets.
use pp_vpa.Prelude.{ℕ, zero, suc, ◌≤◌, ◌<◌, ◌≡◌, ◌↔◌, false, none, arith}
use pp_vpa.Prelude.Int.{ℤ, pos, negsuc, leb_ℤ}
use pp_vpa.Float.{Float, nought, one, ltf}
use pp_vpa.Histogram.{
  Options, Histogram, at_least_one, num_buckets, clip, raw_index, bucket_index, validate, IsValid,
}

at_least_one-pos : (k : ℤ) → 1 ≤ at_least_one k
unfolding at_least_one
at_least_one-pos (pos zero) = omega arith
at_least_one-pos (pos (suc k)) = omega arith
at_least_one-pos (negsuc k) = omega arith

clip-lt : (n : ℕ) (k : ℤ) → 0 < n → clip n k < n
unfolding clip
clip-lt n (pos k) h = ground arith
clip-lt n (negsuc k) h = h

module _ {F : Type 0} ⦃float : Float F⦄ where
  pub num_buckets-pos : (o : Options F) → 1 ≤ num_buckets o
  unfolding num_buckets
  num_buckets-pos o = at_least_one-pos _

  pub bucket_index-lt : (h : Histogram F) (v : F) → 0 < h.n → bucket_index h v < h.n
  unfolding bucket_index
  bucket_index-lt h v p = ground (arith, clip-lt h.n (raw_index h.opts v) p)

  pub IsValid-pos : {h : Histogram F} → IsValid h → 0 < h.n
  IsValid-pos {h} v = omega (arith, v.counted, num_buckets-pos h.opts)

  -- Options pass the checks exactly when each field does.
  pub validate_iff :
      (o : Options F)
      → (validate o ≡ none) ↔ (
          (float.le o.max_value nought ≡ false)
          × (float.le o.first_bucket_size nought ≡ false)
          × (float.le o.bucket_ratio one ≡ false)
          × (leb_ℤ o.half_life (pos 0) ≡ false)
          × (ltf o.epsilon nought ≡ false))
  unfolding validate
  validate_iff o = ground arith
