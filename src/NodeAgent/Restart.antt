-- ===== src/NodeAgent/Restart.antt =====
-- The checkpoint of a pod that EnsurePod restores after a restart of the agent.
use pp_vpa.Prelude.{
  eq_iff, ℕ, ◌≡◌, refl, sym, ap, ◌∙◌, subst, ◌⊎◌, inr, true, none, some, List, [], ◌∷◌, String, All,
  arith, length, ok, Returns, replicate,
}
use pp_vpa.Float.{Float, Ieee, nought, ltf}
use pp_vpa.Clock.{Time, IsUnix}
use pp_vpa.Histogram.{
  Histogram, Options, IsValid, new, empty, merge, add_buckets, same_options, shift_reference,
  default_cpu_options, num_buckets, later,
}
use pp_vpa.Histogram.Codec.{Bytes, Codec, Checkpoint, IsLossless, encode, decode-encode}
use pp_vpa.Recommender.Totality.{default_cpu_options-valid, default_cpu_options-short}
use pp_vpa.Api.{Prr}
use pp_vpa.Cluster.{Pod}
use pp_vpa.Ingest.{new_cpu_stream}
use pp_vpa.Prelude.Tables.{lookup, insert, lookup-insert}
use pp_vpa.Cgroup.{pod_path}
use pp_vpa.NodeAgent.{
  Host, Agent, PodState, minute, restore, restore_decoded, new_pod_state, ensure_pod,
}
use pp_vpa.NodeAgent.Fresh.{new_memory_peak_extractor-IsExtractor}
use pp_vpa.NodeAgent.Checkpoints.{with_checkpoint}

lookup_inserted :
    {V : Type 0} (k : String) (v : V) (m : List (String × V)) → lookup k (insert k v m) ≡ some v
lookup_inserted k v m = ground (arith, lookup-insert k k v m, eq_iff k k)

module _ {F : Type 0} ⦃float : Float F⦄ (laws : Ieee F) where
  -- A weight is zero or positive.
  abbrev pub IsWeight : F → Type 0
  IsWeight x = (x ≡ nought) ⊎ (ltf nought x ≡ true)

  add_buckets-nought :
      (ws : List F) → All IsWeight ws → add_buckets (replicate (length ws) nought) ws ≡ ok ws
  unfolding add_buckets
  add_buckets-nought [] h = refl
  add_buckets-nought (w ∷ ws) (p, h) = rw (add_buckets-nought ws h, laws.nought_add w p) refl

  later-zero : (t : Time) → later 0 t ≡ t
  later-zero t = ground arith

  shift_reference_self : (h : Histogram F) → shift_reference h h.reference_time ≡ h
  unfolding shift_reference
  shift_reference_self h = ground arith

  shift_reference-empty :
      (o : Options F) (t : Time)
      → shift_reference (empty o) t ≡ record (empty o) { reference_time = t }
  unfolding shift_reference
  shift_reference-empty o t = refl

  same_options-default : same_options {F = F} default_cpu_options default_cpu_options ≡ true
  unfolding same_options
  same_options-default = ground (
    arith,
    laws.lit_le 1000 1000 0 (omega arith),
    laws.lit_le 1 1 2 (omega arith),
    laws.lit_le 105 105 2 (omega arith),
    laws.lit_le 1 1 6 (omega arith),
  )

  -- A histogram with the default options of a cpu stream.
  abbrev of_parts : ℕ → List F → F → Time → Histogram F
  of_parts n bs w t = record {
    opts = default_cpu_options;
    n = n;
    buckets = bs;
    total_weight = w;
    reference_time = t;
  }

  merge-of_parts :
      (bs : List F) (w : F) (t : Time)
      → All IsWeight bs
      → IsWeight w
      → length bs ≡ num_buckets {F = F} default_cpu_options
      → merge (empty default_cpu_options) (of_parts (length bs) bs w t)
        ≡ ok (of_parts (length bs) bs w t)
  unfolding merge
  merge-of_parts bs w t a p e =
      rw
        (
          same_options-default,
          later-zero t,
          shift_reference_self (of_parts (length bs) bs w t),
          shift_reference-empty default_cpu_options t,
          ← e,
          add_buckets-nought bs a,
          laws.nought_add w p,
        )
        refl

  merge-empty :
      (h : Histogram F)
      → IsValid h
      → h.opts ≡ default_cpu_options
      → All IsWeight h.buckets
      → IsWeight h.total_weight
      → merge (empty default_cpu_options) h ≡ ok h
  merge-empty h v o a w =
      let bs = h.buckets in
      let parts : of_parts (length bs) bs h.total_weight h.reference_time ≡ h = λ i. record {
        opts = sym o i;
        n = v.sized i;
        buckets = bs;
        total_weight = h.total_weight;
        reference_time = h.reference_time;
      } in
      subst (λ z. merge (empty default_cpu_options) z ≡ ok z) parts
        (merge-of_parts bs h.total_weight h.reference_time a w
          (v.sized ∙ v.counted ∙ ap num_buckets o))

  new-default : new {F = F} default_cpu_options ≡ ok (empty default_cpu_options)
  unfolding new
  new-default = rw (default_cpu_options-valid laws, default_cpu_options-short laws, new) refl

  new_cpu_stream-empty : new_cpu_stream {F = F} ≡ ok (record { h = empty default_cpu_options })
  unfolding new_cpu_stream
  new_cpu_stream-empty = rw (new-default, new_cpu_stream) refl

  restore-encoded :
      (codec : Codec (Checkpoint F))
      → IsLossless codec
      → (h : Histogram F) (b : ℕ) (bs : Bytes) → IsValid h
      → h.opts ≡ default_cpu_options
      → IsUnix h.reference_time
      → All IsWeight h.buckets
      → IsWeight h.total_weight
      → encode codec h ≡ ok (b ∷ bs)
      → restore codec (record { h = empty default_cpu_options }) (b ∷ bs) ≡ ok (record { h = h })
  unfolding restore restore_decoded
  restore-encoded codec lossless h b bs v o u a w e =
      rw (decode-encode codec lossless h (b ∷ bs) v u e, merge-empty h v o a w) refl

  -- The histogram of the cpu stream of a pod, encoded for its PRR by a lossless codec: where it is
  -- valid, has the stream's options and a time that fits UnixNano, and its weights are zero or
  -- positive, EnsurePod of an agent that does not know the pod and finds its slice, with a PRR that
  -- carries that payload, registers the pod with this very histogram.
  pub restart-restores :
      {Q : Type 0} (codec : Codec (Checkpoint F)) (host : Host) (a : Agent F Q) (p : Pod Q)
      (prr : Prr Q) (slice : String) (st : PodState F) (b : ℕ) (bs : Bytes)
      → IsLossless codec
      → IsValid st.cpu.h
      → st.cpu.h.opts ≡ default_cpu_options
      → IsUnix st.cpu.h.reference_time
      → All IsWeight st.cpu.h.buckets
      → IsWeight st.cpu.h.total_weight
      → encode codec st.cpu.h ≡ ok (b ∷ bs)
      → lookup p.meta.uid a.pods ≡ none
      → pod_path host.exists a.cfg.cgroup_root p.meta.uid p.qos_class ≡ inr slice
      → Returns
          (λ a'. (st' : PodState F) × (lookup p.meta.uid a'.pods ≡ some st') × (st'.cpu ≡ st.cpu))
          (ensure_pod codec host a p (with_checkpoint prr (b ∷ bs)))
  unfolding ensure_pod new_pod_state
  restart-restores codec host a p prr slice st b bs lossless v o u ws w e unknown found =
      let (mp, f, _) = new_memory_peak_extractor-IsExtractor laws minute in
      let r = restore-encoded codec lossless st.cpu.h b bs v o u ws w e in
      rw (unknown, found, new_cpu_stream-empty, f, r, ensure_pod, new_pod_state)
        (_, refl, (_, lookup_inserted p.meta.uid _ a.pods, refl))
