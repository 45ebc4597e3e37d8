-- ===== src/NodeAgent/Checkpoints.antt =====
-- checkpointwriter.go, and writeCheckpoints of agent.go.
use pp_vpa.Prelude.{List, [], ◌∷◌, String, Outcome, ok, err, panic}
use pp_vpa.Prelude.Tables.{entries}
use pp_vpa.Float.{Float}
use pp_vpa.Histogram.{Histogram}
use pp_vpa.Histogram.Codec.{Bytes, Codec, Checkpoint, encode}
use pp_vpa.Ingest.{snapshot}
use pp_vpa.Kube.{ApiError}
use pp_vpa.Api.{Prr}
use pp_vpa.Cluster.{Client, Call, patch_prr_status, api_error, done, read, attempt, issue, ◌>>=◌}
use pp_vpa.NodeAgent.{PodState, Agent}

module _ {Q : Type 0} where
  abbrev pub with_checkpoint : Prr Q → Bytes → Prr Q
  with_checkpoint prr s = record prr { status = record prr.status { histogram_checkpoint = s } }

module _ {F W Q : Type 0} ⦃float : Float F⦄ (codec : Codec (Checkpoint F))
    (client : Client W Q) where
  -- CheckpointWriter.Write
  unfoldable pub write : String → String → Histogram F → Call W Q (Unit {0})
  write ns prr_name h = do
    enc ← (λ s. (s, api_error (encode codec h)))
    prr ← read (λ w. client.get_prr w ns prr_name)
    issue client (patch_prr_status (with_checkpoint prr enc) prr)

  -- An error of a write is passed over.
  abbrev pub or_continue : Outcome ApiError (Unit {0}) → Call W Q (Unit {0}) → Call W Q (Unit {0})
  or_continue (ok u) next = next
  or_continue (err e) next = next
  or_continue panic next = λ s. (s, panic)

  unfoldable pub write_loop : List (PodState F) → Call W Q (Unit {0})
  unfolding write
  write_loop [] = done tt
  write_loop (st ∷ sts) = do
    r ← attempt (write st.namespace st.prr_name (snapshot st.cpu))
    or_continue r (write_loop sts)

  -- writeCheckpoints; Go leaves the order of a range over a map open.
  unfoldable pub write_checkpoints :
      (List (PodState F) → List (PodState F)) → Agent F Q → Call W Q (Unit {0})
  unfolding write_loop
  write_checkpoints range_order a = write_loop (range_order (entries a.pods))
