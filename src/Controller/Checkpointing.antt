-- ===== src/Controller/Checkpointing.antt =====
-- internal/controller/checkpoint_controller.go: the workload's aggregate as a checkpoint object.
use pp_vpa.Prelude.{
  true, none, some, List, [], ◌∷◌, String, text_append, Outcome, ok, err, panic, if◌then◌else◌,
}
use pp_vpa.Float.{Float}
use pp_vpa.Clock.{Time}
use pp_vpa.Histogram.Codec.{Bytes, Codec, Checkpoint}
use pp_vpa.Kube.{ApiError, is_not_found, is_already_exists}
use pp_vpa.Api.{Ppvpa, Prr, PpvpaCheckpoint}
use pp_vpa.Cluster.{
  create_checkpoint, patch_checkpoint_status, Client, Call, api_error, done, fail, read, attempt,
  issue, ◌>>=◌,
}
use pp_vpa.Recommender.Aggregate.{WorkloadHistograms, aggregate}
use pp_vpa.Recommender.Checkpoint.{WorkloadCheckpoint, encode_workload}
use pp_vpa.Controller.{Requeue, no_requeue, after_seconds, is_deleted}
use pp_vpa.Controller.Prrs.{owned_prrs}

module _ {Q : Type 0} where
  -- fmt.Sprintf("%s-checkpoint", ppvpa.Name)
  abbrev pub checkpoint_name : Ppvpa Q → String
  checkpoint_name p = text_append p.meta.name "-checkpoint"

  -- The object that is created; what is not set is Go's zero value.
  unfoldable pub new_checkpoint : Ppvpa Q → PpvpaCheckpoint
  new_checkpoint p = record {
    meta = record {
      namespace = p.meta.namespace;
      name = checkpoint_name p;
      uid = "";
      creation_timestamp = 0;
      deletion_timestamp = none;
      finalizers = [];
      annotations = [];
      owner_references =
          record {
            api_version = "autoscaling.brycemclachlan.me/v1alpha1";
            kind = "PerPodVerticalPodAutoscaler";
            name = p.meta.name;
            uid = p.meta.uid;
            controller = some true;
          }
          ∷ [];
    };
    spec = record { ppvpa_ref = p.meta.name };
    status = record {
      aggregate_histogram_checkpoint = [];
      last_update_time = none;
      conditions = [];
    };
  }

abbrev pub with_payload : PpvpaCheckpoint → Bytes → Time → PpvpaCheckpoint
with_payload cp s now = record cp {
  status = record cp.status { aggregate_histogram_checkpoint = s; last_update_time = some now };
}

module _ {F W Q : Type 0} ⦃float : Float F⦄ (codec : Codec (Checkpoint F))
    (outer : Codec WorkloadCheckpoint) (client : Client W Q) where
  -- The payload of the owned PRRs; the clock is read for it and once more for the object.
  unfoldable pub payload_of : Time → Ppvpa Q → List (Prr Q) → Outcome ApiError Bytes
  payload_of encoded_at p prrs =
      encode_if (api_error (aggregate codec (owned_prrs p.meta.uid prrs)))
    where
      encode_if : Outcome ApiError (WorkloadHistograms F) → Outcome ApiError Bytes
      encode_if (ok wh) = api_error (encode_workload codec outer wh encoded_at)
      encode_if (err e) = err e
      encode_if panic = panic

  -- An object that exists already is no error.
  abbrev pub created_or_there : Outcome ApiError (Unit {0}) → Call W Q (Unit {0})
  created_or_there (ok u) = done tt
  created_or_there (err e) = if is_already_exists e then done tt else fail e
  created_or_there panic = λ s. (s, panic)

  -- The object is read back, and its status patched.
  unfoldable pub finish : Time → Ppvpa Q → Bytes → Call W Q Requeue
  finish now p enc = do
    cp ← read (λ w. client.get_checkpoint w p.meta.namespace (checkpoint_name p))
    _ ← issue client (patch_checkpoint_status (with_payload cp enc now) cp)
    done (after_seconds 300)

  unfoldable pub store : Time → Ppvpa Q → Bytes → Call W Q Requeue
  unfolding finish
  store now p enc = do
    r ← attempt (issue client (create_checkpoint (new_checkpoint p)))
    _ ← created_or_there r
    finish now p enc

  unfoldable pub checkpoint_live : Time → Time → Ppvpa Q → Call W Q Requeue
  unfolding payload_of store
  checkpoint_live encoded_at now p = do
    prrs ← read (λ w. client.list_prrs w p.meta.namespace)
    enc ← (λ s. (s, payload_of encoded_at p prrs))
    store now p enc

  abbrev pub checkpoint_read : Time → Time → Outcome ApiError (Ppvpa Q) → Call W Q Requeue
  checkpoint_read encoded_at now (ok p) =
      if is_deleted p then done no_requeue else checkpoint_live encoded_at now p
  checkpoint_read encoded_at now (err e) = if is_not_found e then done no_requeue else fail e
  checkpoint_read encoded_at now panic = λ s. (s, panic)

  -- CheckpointReconciler.Reconcile
  unfoldable pub reconcile_checkpoint : Time → Time → String → String → Call W Q Requeue
  unfolding checkpoint_live
  reconcile_checkpoint encoded_at now namespace name = do
    p ← attempt (read (λ w. client.get_ppvpa w namespace name))
    checkpoint_read encoded_at now p
