-- ===== src/NodeAgent/Fresh.antt =====
-- The state in which EnsurePod registers a pod is well-formed.
use pp_vpa.Prelude.{◌≡◌, refl, ◌∙◌, [], ◌∷◌, String, inl, inr, arith, Returns, Returns-bind}
use pp_vpa.Float.{Float, Ieee}
use pp_vpa.Histogram.{IsValid, default_cpu_options}
use pp_vpa.Histogram.Codec.{Bytes, Codec, Checkpoint, IsExcessive, decode_moderate}
use pp_vpa.Recommender.Totality.{new_cpu-Returns, new_memory-Returns, kept-merge}
use pp_vpa.Api.{Prr}
use pp_vpa.Cluster.{Pod}
use pp_vpa.Ingest.{CpuStream, new_cpu_stream, new_memory_peak_extractor}
use pp_vpa.Ingest.Safety.{IsExtractor}
use pp_vpa.Clock.{Duration}
use pp_vpa.NodeAgent.{restore, restore_decoded, new_pod_state}
use pp_vpa.NodeAgent.Pods.{IsPod}

module _ {F : Type 0} ⦃float : Float F⦄ (laws : Ieee F) where
  -- A valid histogram with the default options of the cpu stream.
  abbrev IsStream : CpuStream F → Type 0
  IsStream cs = IsValid cs.h × (cs.h.opts ≡ default_cpu_options)

  new_cpu_stream-IsStream : Returns IsStream new_cpu_stream
  unfolding new_cpu_stream
  new_cpu_stream-IsStream =
      Returns-bind _ _ (new_cpu-Returns laws) (λ h v. (record { h = h }, refl, v))

  pub new_memory_peak_extractor-IsExtractor :
      (interval : Duration) → Returns (IsExtractor laws) (new_memory_peak_extractor interval)
  unfolding new_memory_peak_extractor
  new_memory_peak_extractor-IsExtractor interval =
      Returns-bind _ _ (new_memory-Returns laws)
        (λ h v. (_, refl, record { valid = v.0; ordered = omega arith }))

  restore-IsStream :
      (codec : Codec (Checkpoint F)) (cs : CpuStream F) (s : Bytes)
      → ¬ IsExcessive codec s
      → IsStream cs
      → Returns IsStream (restore codec cs s)
  unfolding restore restore_decoded
  restore-IsStream codec cs [] m v = (cs, refl, v)
  restore-IsStream codec cs (b ∷ bs) m (v, o) = elim (decode_moderate codec (b ∷ bs) m) [
    | inl (h, e, w) ↦
        let (r, p, (i, q)) = kept-merge laws cs.h h v w in
        (record { h = r }, rw (e, p) refl, (i, q ∙ o))
    | inr (x, e) ↦ (cs, rw e refl, (v, o))
  ]

  pub new_pod_state-IsPod :
      {Q : Type 0} (codec : Codec (Checkpoint F)) (p : Pod Q) (prr : Prr Q) (slice : String)
      → ¬ IsExcessive codec prr.status.histogram_checkpoint
      → Returns
          (λ st.
            IsPod laws st
            × (st.uid ≡ p.meta.uid)
            × (st.namespace ≡ p.meta.namespace)
            × (st.name ≡ p.meta.name))
          (new_pod_state codec p prr slice)
  unfolding new_pod_state
  new_pod_state-IsPod codec p prr slice m = Returns-bind _ _ new_cpu_stream-IsStream (λ cs v.
      Returns-bind _ _ (new_memory_peak_extractor-IsExtractor _) (λ mp w.
        Returns-bind _ _ (restore-IsStream codec cs prr.status.histogram_checkpoint m v) (λ r i. (
          _,
          refl,
          (record { cpu = i; mem = w; no_limit = refl; no_kills = refl }, refl, refl, refl),
        ))))
