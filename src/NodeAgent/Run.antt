-- ===== src/NodeAgent/Run.antt =====
-- A run of the agent: the work of Run and the calls of its other methods, in any order.
use pp_vpa.Prelude.{List, [], ◌∷◌, String, Outcome, ok, err, panic, ◌>>=◌}
use pp_vpa.Float.{Float}
use pp_vpa.Clock.{Time}
use pp_vpa.Histogram.{HistogramError}
use pp_vpa.Histogram.Codec.{Codec, Checkpoint}
use pp_vpa.Kube.{Quantities, ApiError}
use pp_vpa.Api.{Prr}
use pp_vpa.Cluster.{Pod, Client, Session}
use pp_vpa.Patcher.{PendingPatch, Kubelet, push, drain_patches}
use pp_vpa.NodeAgent.{Host, PodState, Agent, EnsureError, ensure_pod, forget_pod}
use pp_vpa.NodeAgent.Sampling.{sample_all}
use pp_vpa.NodeAgent.Checkpoints.{write_checkpoints}

-- The work of a tick, or a call of EnsurePod, ForgetPod or Enqueue. A tick of the sampling timer is a
-- sample_tick and then a drain_tick, with calls of the methods possibly between the two.
pub data Event (F Q : Type 0) : Type 0 where
  sample_tick : Host → Time → Event F Q
  drain_tick checkpoint_tick : Event F Q
  ensured : Host → Pod Q → Prr Q → Event F Q
  forgotten : String → Event F Q
  enqueued : PendingPatch F Q → Event F Q

-- The agent and the cluster.
pub record System (F W Q : Type 0) : Type 0 where
  pub agent : Agent F Q
  pub session : Session W Q

module _ {F W Q : Type 0} ⦃float : Float F⦄ (quantities : Quantities Q)
    (codec : Codec (Checkpoint F)) (client : Client W Q) (kubelet : Kubelet Q W)
    (range_order : List (PodState F) → List (PodState F)) where
  -- drainPatches, on the agent's queue.
  unfoldable pub drain : System F W Q → System F W Q
  drain y =
      let (w, left) = drain_patches quantities kubelet y.session.world y.agent.queue in
      record { agent = record y.agent { queue = left }; session = record y.session { world = w } }

  -- The error of EnsurePod is its caller's, and the errors of the checkpoint writer are dropped.
  unfoldable pub ensure_answer :
      System F W Q → Outcome EnsureError (Agent F Q) → Outcome HistogramError (System F W Q)
  ensure_answer y (ok a) = ok (record y { agent = a })
  ensure_answer y (err e) = ok y
  ensure_answer y panic = panic

  unfoldable pub write_answer :
      System F W Q
      → Session W Q × Outcome ApiError (Unit {0})
      → Outcome HistogramError (System F W Q)
  write_answer y (s, ok u) = ok (record y { session = s })
  write_answer y (s, err e) = ok (record y { session = s })
  write_answer y (s, panic) = panic

  abbrev pub enqueue : Agent F Q → PendingPatch F Q → Agent F Q
  enqueue a p = record a { queue = push quantities a.queue p }

  unfoldable pub step : Event F Q → System F W Q → Outcome HistogramError (System F W Q)
  unfolding drain ensure_answer write_answer
  step (sample_tick host t) y = do a ← sample_all host t y.agent; ok (record y { agent = a })
  step drain_tick y = ok (drain y)
  step checkpoint_tick y =
      write_answer y (write_checkpoints codec client range_order y.agent y.session)
  step (ensured host p prr) y = ensure_answer y (ensure_pod codec host y.agent p prr)
  step (forgotten uid) y = ok (record y { agent = forget_pod y.agent uid })
  step (enqueued p) y = ok (record y { agent = enqueue y.agent p })

  unfoldable pub run : List (Event F Q) → System F W Q → Outcome HistogramError (System F W Q)
  unfolding step
  run [] y = ok y
  run (e ∷ es) y = do y' ← step e y; run es y'
