-- ===== src/Ingest.antt =====
-- internal/nodeagent/ingest: the CPU stream and the memory peak extractor, each over a histogram.
-- A uint64 is a number below 2^64; the program only compares and converts these. The mutexes
-- serialise the calls.
pub mod Peaks
pub mod Safety
mod Tests
use pp_vpa.Prelude.{ℕ, ◌≡◌, Bool, List, [], ◌∷◌, ltb, if◌then◌else◌, Outcome, ok, ◌>>=◌}
use pp_vpa.Prelude.Int.{pos, leb_ℤ}
use pp_vpa.Float.{Float, one}
use pp_vpa.Clock.{Time, Duration, is_zero, sub}
use pp_vpa.Histogram.{
  Histogram, HistogramError, new, add_sample, default_cpu_options, default_memory_options,
}

pub record CpuStream (F : Type 0) : Type 0 where
  pub h : Histogram F

pub record MemoryPeakExtractor (F : Type 0) : Type 0 where
  pub h : Histogram F
  pub interval : Duration
  pub cur_start : Time
  pub cur_peak : ℕ
  pub abs_peak : ℕ

module _ {F : Type 0} ⦃float : Float F⦄ where
  unfoldable pub new_cpu_stream : Outcome HistogramError (CpuStream F)
  new_cpu_stream = do h ← new default_cpu_options; ok (record { h = h })

  -- The histogram itself, not a copy.
  abbrev pub snapshot : CpuStream F → Histogram F
  snapshot s = s.h

  unfoldable pub record_cpu : CpuStream F → F → Time → Outcome HistogramError (CpuStream F)
  record_cpu s cores_used t = do h ← add_sample s.h cores_used one t; ok (record { h = h })

  unfoldable pub new_memory_peak_extractor :
      Duration → Outcome HistogramError (MemoryPeakExtractor F)
  new_memory_peak_extractor interval = do
    h ← new default_memory_options
    ok (record { h = h; interval = interval; cur_start = 0; cur_peak = 0; abs_peak = 0 })

  -- flushLocked, and Flush.
  unfoldable pub flush :
      MemoryPeakExtractor F → Time → Outcome HistogramError (MemoryPeakExtractor F)
  flush m t =
      let sample = add_sample m.h (float.of_int (pos m.cur_peak)) one t in
      do
        h ← if ltb 0 m.cur_peak then sample else ok m.h
        ok (record m { h = h; cur_peak = 0; cur_start = t })

  -- Record up to its flush: the peaks, and the start of the first interval.
  unfoldable pub observe : MemoryPeakExtractor F → ℕ → Time → MemoryPeakExtractor F
  observe m bytes_used t = record m {
    cur_start = if is_zero m.cur_start then t else m.cur_start;
    cur_peak = if ltb m.cur_peak bytes_used then bytes_used else m.cur_peak;
    abs_peak = if ltb m.abs_peak bytes_used then bytes_used else m.abs_peak;
  }

  -- The end of Record: an interval that is over is flushed.
  unfoldable pub close :
      MemoryPeakExtractor F → Time → Outcome HistogramError (MemoryPeakExtractor F)
  close m t = if leb_ℤ m.interval (sub t m.cur_start) then flush m t else ok m

  -- Record
  unfoldable pub record_memory :
      MemoryPeakExtractor F → ℕ → Time → Outcome HistogramError (MemoryPeakExtractor F)
  record_memory m bytes_used t = close (observe m bytes_used t) t

  -- A run of Record, one call after the other.
  unfoldable pub record_all :
      MemoryPeakExtractor F → List (ℕ × Time) → Outcome HistogramError (MemoryPeakExtractor F)
  record_all m [] = ok m
  record_all m ((bytes_used, t) ∷ samples) = do
    m' ← record_memory m bytes_used t
    record_all m' samples
