-- ===== src/Ingest/Tests.antt =====
-- An extractor with intervals of 60 nanoseconds over a small histogram.
use pp_vpa.Prelude.{ℕ, ◌≡◌, refl, List, [], ◌∷◌, arith, Returns}
use pp_vpa.Prelude.Int.{pos}
use pp_vpa.Float.Fixed.{Fixed, fixed_float, Fixed-Ieee, log_loop}
use pp_vpa.Clock
use pp_vpa.Clock.{Time}
use pp_vpa.Histogram.{Options, validate, num_buckets}
use pp_vpa.Ingest.{MemoryPeakExtractor, record_all}
use pp_vpa.Ingest.Peaks.{interval_peaks, add_peaks, histogram_of, record_all-interval_peaks}
use pp_vpa.Ingest.Safety.{IsExtractor, Recorded, record_all-Recorded}

abbrev small : Options Fixed
small = record {
  max_value = 7000;
  first_bucket_size = 1000;
  bucket_ratio = 2000;
  half_life = pos 1000000000;
  epsilon = 0;
}

abbrev fresh : MemoryPeakExtractor Fixed
fresh = record {
  h = record {
    opts = small;
    n = 3;
    buckets = 0 ∷ 0 ∷ 0 ∷ [];
    total_weight = 0;
    reference_time = 0;
  };
  interval = pos 60;
  cur_start = 0;
  cur_peak = 0;
  abs_peak = 0;
}

abbrev run : List (ℕ × Time)
run = (2, 100) ∷ (5, 130) ∷ (3, 160) ∷ (1, 170) ∷ (4, 230) ∷ (9, 240) ∷ []

peaks_of_run : interval_peaks (pos 60) 0 0 run ≡ (5, 160) ∷ (4, 230) ∷ []
unfolding Clock.sub
peaks_of_run = refl

record_all-interval_peaks_example :
    histogram_of (record_all fresh run) ≡ add_peaks fresh.h (interval_peaks (pos 60) 0 0 run)
record_all-interval_peaks_example = record_all-interval_peaks run fresh

fresh-IsExtractor : IsExtractor Fixed-Ieee fresh
unfolding validate num_buckets log_loop
fresh-IsExtractor = record {
  valid = record { checked = refl; counted = refl; sized = refl; fits = omega arith };
  ordered = omega arith;
}

record_all-Recorded_example : Returns (Recorded Fixed-Ieee fresh run) (record_all fresh run)
record_all-Recorded_example = record_all-Recorded Fixed-Ieee run fresh fresh-IsExtractor
