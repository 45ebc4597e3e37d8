-- ===== src/Recommender/Checkpoint.antt =====
-- internal/recommender/checkpoint.go: the workload's two histograms as one payload.
use pp_vpa.Prelude.{◌≡◌, Option, none, some, Outcome, ok, ◌>>=◌, bind-eq-ok}
use pp_vpa.Prelude.Int.{ℤ}
use pp_vpa.Float.{Float}
use pp_vpa.Clock.{Time, unix_nano, IsUnix}
use pp_vpa.Histogram.{HistogramError, encoding, decoding, IsValid}
use pp_vpa.Histogram.Codec.{
  Bytes, Codec, Checkpoint, IsLossless, or_error, encode, decode, decode-encode,
}
use pp_vpa.Recommender.Aggregate.{WorkloadHistograms}

pub record WorkloadCheckpoint : Type 0 where
  pub cpu : Bytes
  pub memory : Bytes
  pub time : ℤ

or_error-eq-ok :
    (o : Option Bytes) (e : HistogramError) (s : Bytes) → or_error o e ≡ ok s → o ≡ some s
or_error-eq-ok none e s h = cc
or_error-eq-ok (some t) e s h = cc

module _ {F : Type 0} ⦃float : Float F⦄ (codec : Codec (Checkpoint F))
    (outer : Codec WorkloadCheckpoint) where
  unfoldable pub encode_workload : WorkloadHistograms F → Time → Outcome HistogramError Bytes
  encode_workload wh now = do
    cpu ← encode codec wh.cpu
    mem ← encode codec wh.memory
    or_error (outer.marshal (record { cpu = cpu; memory = mem; time = unix_nano now })) encoding

  unfoldable pub decode_workload : Bytes → Outcome HistogramError (WorkloadHistograms F)
  decode_workload s = do
    cp ← or_error (outer.unmarshal s) decoding
    cpu ← decode codec cp.cpu
    mem ← decode codec cp.memory
    ok (record { cpu = cpu; memory = mem })

  -- With lossless codecs, where both histograms are valid and their reference times fit UnixNano,
  -- what EncodeWorkload returns for a workload is decoded by DecodeWorkload as the same two
  -- histograms.
  pub decode_workload-encode_workload :
      IsLossless codec
      → IsLossless outer
      → (wh : WorkloadHistograms F) (now : Time) (s : Bytes) → IsValid wh.cpu
      → IsValid wh.memory
      → IsUnix wh.cpu.reference_time
      → IsUnix wh.memory.reference_time
      → encode_workload wh now ≡ ok s
      → decode_workload s ≡ ok wh
  unfolding encode_workload decode_workload
  decode_workload-encode_workload inner whole wh now s v w tv tw e =
      let (cpu, e1, rest) = bind-eq-ok (encode codec wh.cpu) _ e in
      let (mem, e2, e3) = bind-eq-ok (encode codec wh.memory) _ rest in
      let cp : WorkloadCheckpoint = record { cpu = cpu; memory = mem; time = unix_nano now } in
      let sent = or_error-eq-ok (outer.marshal cp) encoding s e3 in
      rw (
        whole.restores cp s sent,
        decode-encode codec inner wh.cpu cpu v tv e1,
        decode-encode codec inner wh.memory mem w tw e2,
      )
