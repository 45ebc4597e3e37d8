-- ===== src/Ingest/Safety.antt =====
-- Recording memory never panics, and the absolute peak is the highest sample seen.
use pp_vpa.Prelude.{
  ℕ, ◌≤◌, ◌≡◌, refl, false, List, [], ◌∷◌, max, arith, ltb, Returns, Bool-cases, inl, inr, ◌∙◌, ap,
}
use pp_vpa.Prelude.Int.{pos, leb_ℤ}
use pp_vpa.Float.{Float, Ieee, one, nought}
use pp_vpa.Clock
use pp_vpa.Clock.{Time, Duration, is_zero}
use pp_vpa.Histogram.{IsValid}
use pp_vpa.Histogram.Methods.{add_sample-Sampled}
use pp_vpa.Ingest.{MemoryPeakExtractor, flush, close, observe, record_memory, record_all}
use pp_vpa.Ingest.Peaks.{highest}

module _ {F : Type 0} ⦃float : Float F⦄ (laws : Ieee F) where
  -- A valid histogram, and an absolute peak not below the current one.
  pub record IsExtractor (m : MemoryPeakExtractor F) : Type 0 where
    pub valid : IsValid m.h
    pub ordered : m.cur_peak ≤ m.abs_peak

  pub record Closed (m r : MemoryPeakExtractor F) : Type 0 where
    pub extractor : IsExtractor r
    pub abs_kept : r.abs_peak ≡ m.abs_peak

  one-pos : float.le one nought ≡ false
  one-pos = ground (arith, laws.lit_pos 0)

  flush-Closed :
      (m : MemoryPeakExtractor F) (t : Time) → IsExtractor m → Returns (Closed m) (flush m t)
  unfolding flush
  flush-Closed m t v = elim (Bool-cases (ltb 0 m.cur_peak)) [
    | inr idle ↦ rw idle (
        (
          record m { cur_peak = 0; cur_start = t },
          refl,
          record { extractor = record { valid = v.valid; ordered = omega arith }; abs_kept = refl },
        ))
    | inl counts ↦
        let (h, e, s) =
          add_sample-Sampled m.h (float.of_int (pos m.cur_peak)) one t v.valid one-pos in
        rw (counts, e)
          ((
            record m { h = h; cur_peak = 0; cur_start = t },
            refl,
            record {
              extractor = record { valid = s.valid; ordered = omega arith };
              abs_kept = refl;
            },
          ))
  ]

  close-Closed :
      (m : MemoryPeakExtractor F) (t : Time) → IsExtractor m → Returns (Closed m) (close m t)
  unfolding close
  close-Closed m t v = elim (Bool-cases (leb_ℤ m.interval (Clock.sub t m.cur_start))) [
    | inl over ↦ rw over (flush-Closed m t v)
    | inr waits ↦ rw waits ((m, refl, record { extractor = v; abs_kept = refl }))
  ]

  observe-IsExtractor :
      (m : MemoryPeakExtractor F) (b : ℕ) (t : Time)
      → IsExtractor m
      → IsExtractor (observe m b t) × ((observe m b t).abs_peak ≡ max m.abs_peak b)
  unfolding observe
  observe-IsExtractor m b t v =
      (record { valid = v.valid; ordered = ground (arith, v.ordered) }, ground arith)

  -- One sample: the absolute peak is the higher of the former one and the sample.
  pub record_memory-Returns :
      (m : MemoryPeakExtractor F) (b : ℕ) (t : Time)
      → IsExtractor m
      → Returns (λ r. IsExtractor r × (r.abs_peak ≡ max m.abs_peak b)) (record_memory m b t)
  unfolding record_memory
  record_memory-Returns m b t v =
      let (seen, top) = observe-IsExtractor m b t v in
      let (m', e, c) = close-Closed (observe m b t) t seen in
      (m', e, (c.extractor, c.abs_kept ∙ top))

  pub record Recorded (m : MemoryPeakExtractor F) (samples : List (ℕ × Time))
      (r : MemoryPeakExtractor F) : Type 0 where
    pub extractor : IsExtractor r
    pub peak : r.abs_peak ≡ highest m.abs_peak samples

  -- On a well-formed extractor, recording any run of samples does not panic and leaves a well-
  -- formed extractor, whose absolute peak is the highest of the former one and the samples.
  pub record_all-Recorded :
      (samples : List (ℕ × Time)) (m : MemoryPeakExtractor F)
      → IsExtractor m
      → Returns (Recorded m samples) (record_all m samples)
  unfolding record_all
  record_all-Recorded [] m v = (m, refl, record { extractor = v; peak = refl })
  record_all-Recorded ((b, t) ∷ samples) m v =
      let (m', e, (seen, top)) = record_memory-Returns m b t v in
      let (r, e', d) = record_all-Recorded samples m' seen in
      (
        r,
        rw e e',
        record { extractor = d.extractor; peak = d.peak ∙ ap (λ p. highest p samples) top },
      )
