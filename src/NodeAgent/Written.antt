-- ===== src/NodeAgent/Written.antt =====
-- The writes of a round of checkpoints.
use mathlib.Core.List.{Mem, mem-cons_self, mem-cons_of_mem}
use pp_vpa.Prelude.{◌≡◌, refl, List, [], ◌∷◌, Outcome, ok, err, panic, All}
use pp_vpa.Float.{Float}
use pp_vpa.Histogram.{HistogramError}
use pp_vpa.Histogram.Codec.{Bytes, Codec, Checkpoint, encode}
use pp_vpa.Kube.{ApiError, other_reason}
use pp_vpa.Api.{Prr}
use pp_vpa.Prelude.Tables.{entries}
use pp_vpa.Cluster.{
  Write, Client, Call, patch_prr_status, api_error, read, attempt, issue, continue_with, ◌>>=◌,
}
use pp_vpa.Cluster.Writes.{OnlyWrites, only_nothing, only_read, only_issue, only_attempt, only_bind}
use pp_vpa.NodeAgent.{PodState, Agent}
use pp_vpa.NodeAgent.Checkpoints.{
  with_checkpoint, write, or_continue, write_loop, write_checkpoints,
}

all_of_mem : {A : Type 0} (xs : List A) (P : A → Type 0) → ((x : A) → Mem x xs → P x) → All P xs
all_of_mem [] P h = tt
all_of_mem (x ∷ xs) P h = (h x mem-cons_self, all_of_mem xs P (λ y m. h y (mem-cons_of_mem x m)))

module _ {F W Q : Type 0} ⦃float : Float F⦄ (codec : Codec (Checkpoint F))
    (client : Client W Q) where
  -- The patch of a PRR's status in which only the payload changes, to that of a pod's cpu histogram.
  pub data IsPayload (pods : List (PodState F)) : Write Q → Type 0 where
    payload :
        {prr : Prr Q} {st : PodState F} {enc : Bytes}
        → Mem st pods
        → encode codec st.cpu.h ≡ ok enc
        → IsPayload pods (patch_prr_status (with_checkpoint prr enc) prr)

  abbrev put_payload : PodState F → Bytes → Call W Q (Unit {0})
  put_payload st enc =
      read (λ w. client.get_prr w st.namespace st.prr_name)
      >>= (λ prr. issue client (patch_prr_status (with_checkpoint prr enc) prr))

  encoded-IsPayload :
      (pods : List (PodState F)) (st : PodState F)
      → Mem st pods
      → (r : Outcome HistogramError Bytes) → encode codec st.cpu.h ≡ r
      → OnlyWrites (IsPayload pods) (continue_with (api_error r) (put_payload st))
  encoded-IsPayload pods st m (ok enc) e =
      only_bind (IsPayload pods) (read (λ w. client.get_prr w st.namespace st.prr_name))
        (λ prr. issue client (patch_prr_status (with_checkpoint prr enc) prr))
        (only_read (IsPayload pods) (λ w. client.get_prr w st.namespace st.prr_name))
        (λ prr. only_issue (IsPayload pods) client _ (payload m e))
  encoded-IsPayload pods st m (err x) e =
      only_nothing (IsPayload pods) {A = Unit {0}} (err (other_reason 1))
  encoded-IsPayload pods st m panic e = only_nothing (IsPayload pods) {A = Unit {0}} panic

  write-IsPayload :
      (pods : List (PodState F)) (st : PodState F)
      → Mem st pods
      → OnlyWrites (IsPayload pods) (write codec client st.namespace st.prr_name st.cpu.h)
  unfolding write
  write-IsPayload pods st m = encoded-IsPayload pods st m (encode codec st.cpu.h) refl

  continued-IsPayload :
      (pods : List (PodState F)) (r : Outcome ApiError (Unit {0})) (next : Call W Q (Unit {0}))
      → OnlyWrites (IsPayload pods) next
      → OnlyWrites (IsPayload pods) (or_continue codec client r next)
  continued-IsPayload pods (ok u) next h = h
  continued-IsPayload pods (err e) next h = h
  continued-IsPayload pods panic next h = only_nothing (IsPayload pods) {A = Unit {0}} panic

  write_loop-IsPayload :
      (pods sts : List (PodState F))
      → All (λ st. Mem st pods) sts
      → OnlyWrites (IsPayload pods) (write_loop codec client sts)
  unfolding write_loop
  write_loop-IsPayload pods [] h = only_nothing (IsPayload pods) (ok tt)
  write_loop-IsPayload pods (st ∷ sts) (m, h) =
      let one = write codec client st.namespace st.prr_name st.cpu.h in
      only_bind (IsPayload pods) (attempt one)
        (λ r. or_continue codec client r (write_loop codec client sts))
        (only_attempt (IsPayload pods) one (write-IsPayload pods st m))
        (λ r. continued-IsPayload pods r _ (write_loop-IsPayload pods sts h))

  -- A range visits only what is there.
  abbrev pub IsRange : (List (PodState F) → List (PodState F)) → Type 0
  IsRange range_order =
      (sts : List (PodState F)) (st : PodState F) → Mem st (range_order sts) → Mem st sts

  -- Whatever the client answers, every write of a round of checkpoints is a patch of a PRR's status
  -- that replaces only its payload, by what Encode returns for the cpu histogram of a pod that the
  -- agent holds.
  pub write_checkpoints-IsPayload :
      (range_order : List (PodState F) → List (PodState F)) (a : Agent F Q)
      → IsRange range_order
      → OnlyWrites (IsPayload (entries a.pods)) (write_checkpoints codec client range_order a)
  unfolding write_checkpoints
  write_checkpoints-IsPayload range_order a h =
      write_loop-IsPayload (entries a.pods) (range_order (entries a.pods))
        (all_of_mem (range_order (entries a.pods)) _ (h (entries a.pods)))
