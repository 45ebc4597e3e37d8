-- ===== src/Ingest/Peaks.antt =====
-- What the memory peak extractor does with a run of samples, and its specification by intervals.
use pp_vpa.Prelude.{
  ℕ, ◌≡◌, refl, List, [], ◌∷◌, max, arith, ltb, if◌then◌else◌, Outcome, ok, err, panic, ◌>>=◌,
  Bool-cases, inl, inr, subst,
}
use pp_vpa.Prelude.Int.{pos, leb_ℤ}
use pp_vpa.Float.{Float, one}
use pp_vpa.Clock
use pp_vpa.Clock.{Time, Duration, is_zero}
use pp_vpa.Histogram.{Histogram, HistogramError, add_sample}
use pp_vpa.Ingest.{MemoryPeakExtractor, flush, close, observe, record_memory, record_all}

-- The peaks from a sample at `t` on: that of the interval it ends, if it ends one, and those after.
abbrev pub ending : Duration → Time → ℕ → Time → List (ℕ × Time) → List (ℕ × Time) → List (ℕ × Time)
ending interval start peak t closed_rest open_rest =
    if leb_ℤ interval (Clock.sub t start)
    then if ltb 0 peak then (peak, t) ∷ closed_rest else closed_rest
    else open_rest

-- The specification: the peaks of the intervals that end within the samples. An interval begins at
-- its first sample or where the one before ended, and ends at the first sample that is `interval`
-- or more after its beginning; an interval whose samples are all 0 has no peak.
abbrev pub interval_peaks : Duration → Time → ℕ → List (ℕ × Time) → List (ℕ × Time)
interval_peaks interval start peak [] = []
interval_peaks interval start peak ((b, t) ∷ samples) =
    let begun = if is_zero start then t else start in
    ending interval begun (max peak b) t (interval_peaks interval t 0 samples)
      (interval_peaks interval begun (max peak b) samples)

abbrev pub highest : ℕ → List (ℕ × Time) → ℕ
highest peak [] = peak
highest peak ((b, t) ∷ samples) = highest (max peak b) samples

module _ {F : Type 0} ⦃float : Float F⦄ where
  -- The histogram with one sample of weight 1 for each peak.
  unfoldable pub add_peaks : Histogram F → List (ℕ × Time) → Outcome HistogramError (Histogram F)
  add_peaks h [] = ok h
  add_peaks h ((peak, t) ∷ peaks) = do
    h' ← add_sample h (float.of_int (pos peak)) one t
    add_peaks h' peaks

  -- The histogram of a call's result.
  abbrev pub histogram_of :
      Outcome HistogramError (MemoryPeakExtractor F) → Outcome HistogramError (Histogram F)
  histogram_of r = r >>= λ m. ok m.h

  seen_peak :
      (m : MemoryPeakExtractor F) (b : ℕ) (t : Time) → (observe m b t).cur_peak ≡ max m.cur_peak b
  unfolding observe
  seen_peak m b t = ground arith

  IsRefined : List (ℕ × Time) → MemoryPeakExtractor F → Type 0
  IsRefined samples m =
      histogram_of (record_all m samples)
      ≡ add_peaks m.h (interval_peaks m.interval m.cur_start m.cur_peak samples)

  close-ending :
      (samples : List (ℕ × Time)) (t : Time)
      → ((m : MemoryPeakExtractor F) → IsRefined samples m)
      → (m : MemoryPeakExtractor F)
      → histogram_of (close m t >>= λ m'. record_all m' samples)
        ≡ add_peaks m.h (
            ending m.interval m.cur_start m.cur_peak t
              (interval_peaks m.interval t 0 samples)
              (interval_peaks m.interval m.cur_start m.cur_peak samples))
  unfolding close flush add_peaks IsRefined
  close-ending samples t ih m = elim (Bool-cases (leb_ℤ m.interval (Clock.sub t m.cur_start))) [
    | inr waits ↦ rw waits (ih m)
    | inl over ↦ elim (Bool-cases (ltb 0 m.cur_peak)) [
      | inl counts ↦
          rw (over, counts) (flushed (add_sample m.h (float.of_int (pos m.cur_peak)) one t))
      | inr idle ↦ rw (over, idle) (ih (record m { cur_peak = 0; cur_start = t }))
    ]
  ]
    where
      flushed :
          (r : Outcome HistogramError (Histogram F))
          → histogram_of (
              (r >>= λ h. ok (record m { h = h; cur_peak = 0; cur_start = t })) >>= λ m'.
              record_all m' samples)
            ≡ (r >>= λ h. add_peaks h (interval_peaks m.interval t 0 samples))
      flushed (ok h) = ih (record m { h = h; cur_peak = 0; cur_start = t })
      flushed (err e) = refl
      flushed panic = refl

  -- Recording a run of samples leaves in the histogram (or ends in the panic or error) what adding
  -- one sample of weight 1 for each peak does, with the peaks of the intervals as `interval_peaks`
  -- defines them.
  pub record_all-interval_peaks :
      (samples : List (ℕ × Time)) (m : MemoryPeakExtractor F)
      → histogram_of (record_all m samples)
        ≡ add_peaks m.h (interval_peaks m.interval m.cur_start m.cur_peak samples)
  unfolding record_all record_memory observe IsRefined add_peaks
  record_all-interval_peaks [] m = refl
  record_all-interval_peaks ((b, t) ∷ samples) m =
      let begun = if is_zero m.cur_start then t else m.cur_start in
      subst
        (λ p.
          histogram_of (close (observe m b t) t >>= λ m'. record_all m' samples)
          ≡ add_peaks m.h (
              ending m.interval begun p t (interval_peaks m.interval t 0 samples)
                (interval_peaks m.interval begun p samples)))
        (seen_peak m b t)
        (close-ending samples t (record_all-interval_peaks samples) (observe m b t))
