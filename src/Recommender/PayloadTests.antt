-- ===== src/Recommender/PayloadTests.antt =====
-- A lossless codec of workload checkpoints, and a payload that goes through it.
use pp_vpa.Prelude.{
  ℕ, zero, suc, ◌≡◌, refl, sym, ap, ◌∙◌, subst, [], ◌∷◌, ◌++◌, Option, none, some, arith, length,
  ok,
}
use mathlib.Core.Option.{some-injective}
use pp_vpa.Prelude.Int.{ℤ, pos, negsuc}
use pp_vpa.Float.Fixed.{Fixed, fixed_float}
use pp_vpa.Clock.{unix_nano}
use pp_vpa.Histogram.Codec.{Bytes, Codec, IsLossless, encode}
use pp_vpa.Histogram.Tests.{listing, listing-IsLossless, loaded, loaded-IsValid}
use pp_vpa.Recommender.Aggregate.{WorkloadHistograms}
use pp_vpa.Recommender.Checkpoint.{
  WorkloadCheckpoint, encode_workload, decode_workload, decode_workload-encode_workload,
}

-- The first `n` elements, and the others.
abbrev split : ℕ → Bytes → Bytes × Bytes
split zero s = ([], s)
split (suc n) [] = ([], [])
split (suc n) (b ∷ s) = let (t, u) = split n s in (b ∷ t, u)

split-append : (s t : Bytes) → split (length s) (s ++ t) ≡ (s, t)
split-append [] t = refl
split-append (b ∷ s) t = ap (λ p. (b ∷ p.0, p.1)) (split-append s t)

abbrev stacked : WorkloadCheckpoint → ℤ → Bytes
stacked c (pos n) = 0 ∷ n ∷ length c.cpu ∷ (c.cpu ++ c.memory)
stacked c (negsuc n) = 1 ∷ n ∷ length c.cpu ∷ (c.cpu ++ c.memory)

abbrev unstacked : ℤ → Bytes × Bytes → Option WorkloadCheckpoint
unstacked t (cpu, memory) = some (record { cpu = cpu; memory = memory; time = t })

abbrev unstack : Bytes → Option WorkloadCheckpoint
unstack (zero ∷ n ∷ k ∷ s) = unstacked (pos n) (split k s)
unstack (suc _ ∷ n ∷ k ∷ s) = unstacked (negsuc n) (split k s)
unstack _ = none

abbrev pub stacking : Codec WorkloadCheckpoint
stacking = record { marshal = λ c. some (stacked c c.time); unmarshal = unstack }

unstack-stacked : (c : WorkloadCheckpoint) (t : ℤ) → c.time ≡ t → unstack (stacked c t) ≡ some c
unstack-stacked c (pos n) e =
    ap (unstacked (pos n)) (split-append c.cpu c.memory)
    ∙ ap (λ t. some (record c { time = t })) (sym e)
unstack-stacked c (negsuc n) e =
    ap (unstacked (negsuc n)) (split-append c.cpu c.memory)
    ∙ ap (λ t. some (record c { time = t })) (sym e)

stacking-IsLossless : IsLossless stacking
stacking-IsLossless = record {
  restores = λ c s e.
      subst (λ t. unstack t ≡ some c) (some-injective _ _ e) (unstack-stacked c c.time refl);
}

abbrev both : WorkloadHistograms Fixed
both = record { cpu = loaded; memory = loaded }

abbrev one : Bytes
one = 7000 ∷ 1000 ∷ 2000 ∷ 0 ∷ 4000 ∷ 0 ∷ 1000000000 ∷ 0 ∷ 5000000000 ∷ 1000 ∷ 0 ∷ 3000 ∷ []

abbrev payload : Bytes
payload = 0 ∷ 5000000000 ∷ 12 ∷ (one ++ one)

decode_workload-encode_workload_example : decode_workload listing stacking payload ≡ ok both
unfolding encode_workload encode unix_nano
decode_workload-encode_workload_example =
    decode_workload-encode_workload listing stacking listing-IsLossless stacking-IsLossless both
      loaded.reference_time payload loaded-IsValid loaded-IsValid (omega arith) (omega arith) refl
