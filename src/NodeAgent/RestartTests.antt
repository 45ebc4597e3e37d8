-- ===== src/NodeAgent/RestartTests.antt =====
-- A pod's checkpoint on an agent that has been restarted.
use pp_vpa.Prelude.{
  ℕ, zero, suc, ◌+◌, ◌≡◌, refl, ◌∷◌, some, inl, inr, arith, All, ok, Returns, replicate,
}
use pp_vpa.Float.Fixed.{Fixed, fixed_float, Fixed-Ieee, log_loop}
use pp_vpa.Clock.{epoch, unix_nano}
use pp_vpa.Histogram.{Histogram, IsValid, validate, num_buckets, default_cpu_options}
use pp_vpa.Histogram.Codec.{Bytes, encode}
use pp_vpa.Histogram.Tests.{listing, listing-IsLossless}
use pp_vpa.Cluster.Samples.{sample_prr}
use pp_vpa.Prelude.Tables.{lookup}
use pp_vpa.NodeAgent.{PodState, ensure_pod}
use pp_vpa.NodeAgent.Checkpoints.{with_checkpoint}
use pp_vpa.NodeAgent.Restart.{IsWeight, restart-restores}
use pp_vpa.NodeAgent.Tests.{host, empty_agent, pod, slice, found, fresh}

-- One sample in the first of the 250 buckets.
abbrev saved : Histogram Fixed
saved = record {
  opts = default_cpu_options;
  n = 250;
  buckets = 1000 ∷ replicate 249 0;
  total_weight = 1000;
  reference_time = epoch + 5;
}

saved-IsValid : IsValid saved
unfolding validate num_buckets log_loop
saved-IsValid = record { checked = refl; counted = refl; sized = refl; fits = omega arith }

no_weights : (n : ℕ) → All (IsWeight Fixed-Ieee) (replicate n 0)
no_weights zero = tt
no_weights (suc n) = (inl refl, no_weights n)

abbrev after_first : Bytes
after_first = 10 ∷ 1050 ∷ 0 ∷ 1000 ∷ 0 ∷ 86400000000000 ∷ 0 ∷ 5 ∷ 1000 ∷ replicate 249 0

abbrev state : PodState Fixed
state = record fresh { cpu = record { h = saved } }

encoded : encode listing saved ≡ ok (1000000 ∷ after_first)
unfolding encode unix_nano
encoded = refl

restart-restores_example :
    Returns
      (λ a'.
        (st' : PodState Fixed) × (lookup "a-1" a'.pods ≡ some st')
        × (st'.cpu ≡ record { h = saved }))
      (ensure_pod listing host empty_agent pod
        (with_checkpoint (sample_prr "a-1") (1000000 ∷ after_first)))
restart-restores_example =
    restart-restores Fixed-Ieee listing host empty_agent pod (sample_prr "a-1") slice state 1000000
      after_first listing-IsLossless saved-IsValid refl (omega arith, omega arith)
      (inr refl, no_weights 249) (inr refl) encoded refl found
