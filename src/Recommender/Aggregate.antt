-- ===== src/Recommender/Aggregate.antt =====
-- internal/recommender/aggregate.go
use pp_vpa.Prelude.{◌^◌, List, [], ◌∷◌, if◌then◌else◌, Outcome, ok, err, panic, ◌>>=◌}
use pp_vpa.Float.{Float}
use pp_vpa.Histogram.{
  Histogram, HistogramError, new, merge, default_cpu_options, default_memory_options,
}
use pp_vpa.Histogram.Codec.{Codec, Checkpoint, decode}
use pp_vpa.Api.{Prr}

pub record WorkloadHistograms (F : Type 0) : Type 0 where
  pub cpu : Histogram F
  pub memory : Histogram F

module _ {F : Type 0} ⦃float : Float F⦄ where
  unfoldable pub new_workload_histograms : Outcome HistogramError (WorkloadHistograms F)
  new_workload_histograms = do
    cpu ← new default_cpu_options
    mem ← new default_memory_options
    ok (record { cpu = cpu; memory = mem })

  -- `_ = h.Merge(other)`: a merge that fails leaves the histogram as it was.
  abbrev pub kept :
      Histogram F → Outcome HistogramError (Histogram F) → Outcome HistogramError (Histogram F)
  kept h (ok r) = ok r
  kept h (err e) = ok h
  kept h panic = panic

  -- A decoded histogram goes to the aggregate that its largest value points to.
  unfoldable pub merge_into :
      WorkloadHistograms F → Histogram F → Outcome HistogramError (WorkloadHistograms F)
  merge_into wh h =
      let memory : Outcome HistogramError (WorkloadHistograms F) = do
        r ← kept wh.memory (merge wh.memory h)
        ok (record wh { memory = r })
      in let cpu : Outcome HistogramError (WorkloadHistograms F) = do
        r ← kept wh.cpu (merge wh.cpu h)
        ok (record wh { cpu = r })
        in if float.le (float.lit (2 ^ 30) 0) h.opts.max_value then memory else cpu

  -- A payload that does not decode is skipped.
  unfoldable pub merge_decoded :
      WorkloadHistograms F
      → Outcome HistogramError (Histogram F)
      → Outcome HistogramError (WorkloadHistograms F)
  unfolding merge_into
  merge_decoded wh (ok h) = merge_into wh h
  merge_decoded wh (err e) = ok wh
  merge_decoded wh panic = panic

module _ {F Q : Type 0} ⦃float : Float F⦄ (codec : Codec (Checkpoint F)) where
  -- One round of the loop.
  unfoldable pub aggregate_prr :
      WorkloadHistograms F → Prr Q → Outcome HistogramError (WorkloadHistograms F)
  unfolding merge_decoded
  aggregate_prr wh prr = elim prr.status.histogram_checkpoint [
    | [] ↦ ok wh
    | b ∷ bs ↦ merge_decoded wh (decode codec (b ∷ bs))
  ]

  unfoldable pub aggregate_loop :
      WorkloadHistograms F → List (Prr Q) → Outcome HistogramError (WorkloadHistograms F)
  aggregate_loop wh [] = ok wh
  aggregate_loop wh (prr ∷ prrs) = do wh' ← aggregate_prr wh prr; aggregate_loop wh' prrs

  unfoldable pub aggregate : List (Prr Q) → Outcome HistogramError (WorkloadHistograms F)
  aggregate prrs = do wh ← new_workload_histograms; aggregate_loop wh prrs
