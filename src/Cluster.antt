-- ===== src/Cluster.antt =====
-- The Kubernetes API as the controllers and the webhook use it: a client over a cluster `W` that this
-- library leaves open, and the calls of one handler, with the log of the writes that it issued.
pub mod Writes
pub mod Samples
use pp_vpa.Prelude.{
  Bool, Option, none, some, List, [], ◌∷◌, ◌++◌, String, Outcome, ok, err, panic, if◌then◌else◌,
}
use pp_vpa.Prelude.Int.{ℤ}
use pp_vpa.Kube.{
  ObjectMeta, OwnerReference, Condition, ResourceRequirements, ApiError, other_reason,
}
use pp_vpa.Api.{Ppvpa, Prr, PpvpaCheckpoint}

-- corev1.Pod, corev1.Container, appsv1.ReplicaSet and appsv1.Deployment
pub record Container (Q : Type 0) : Type 0 where
  pub container_name : String
  pub resources : ResourceRequirements Q

pub record Pod (Q : Type 0) : Type 0 where
  pub meta : ObjectMeta
  pub qos_class : String
  pub containers : List (Container Q)
  pub conditions : List Condition

pub record ReplicaSet : Type 0 where
  pub meta : ObjectMeta

pub record Deployment : Type 0 where
  pub meta : ObjectMeta
  pub replicas : Option ℤ

-- The calls that change the cluster. A patch holds the new object and the one it is merged from.
pub data Write (Q : Type 0) : Type 0 where
  create_prr delete_prr : Prr Q → Write Q
  update_ppvpa : Ppvpa Q → Write Q
  patch_ppvpa patch_ppvpa_status : Ppvpa Q → Ppvpa Q → Write Q
  patch_deployment : Deployment → Deployment → Write Q
  evict_pod : Pod Q → Write Q
  patch_prr_status : Prr Q → Prr Q → Write Q
  create_checkpoint : PpvpaCheckpoint → Write Q
  patch_checkpoint_status : PpvpaCheckpoint → PpvpaCheckpoint → Write Q

-- controller-runtime's client. A read is named by a namespace and a name, a list by a namespace.
pub record Client (W Q : Type 0) : Type 0 where
  pub get_ppvpa : W → String → String → Outcome ApiError (Ppvpa Q)
  pub get_prr : W → String → String → Outcome ApiError (Prr Q)
  pub get_pod : W → String → String → Outcome ApiError (Pod Q)
  pub get_replica_set : W → String → String → Outcome ApiError ReplicaSet
  pub get_deployment : W → String → String → Outcome ApiError Deployment
  pub get_checkpoint : W → String → String → Outcome ApiError PpvpaCheckpoint
  pub list_ppvpas : W → String → Outcome ApiError (List (Ppvpa Q))
  pub list_prrs : W → String → Outcome ApiError (List (Prr Q))
  pub list_pods : W → String → Outcome ApiError (List (Pod Q))
  pub list_replica_sets : W → String → Outcome ApiError (List ReplicaSet)
  pub write : W → Write Q → W × Option ApiError

-- The cluster, and the writes that the handler issued, the oldest first.
pub record Session (W Q : Type 0) : Type 0 where
  pub world : W
  pub issued : List (Write Q)

abbrev pub Call : Type 0 → Type 0 → Type 0 → Type 0
Call W Q A = Session W Q → Session W Q × Outcome ApiError A

-- A read whose error the caller handles; a panic is passed on.
abbrev pub handled : {A : Type 0} → Outcome ApiError A → Outcome ApiError (Outcome ApiError A)
handled (ok a) = ok (ok a)
handled (err e) = ok (err e)
handled panic = panic

abbrev pub answer : Option ApiError → Outcome ApiError (Unit {0})
answer none = ok tt
answer (some e) = err e

-- An error of another package, as a handler returns it.
abbrev pub api_error : {E A : Type 0} → Outcome E A → Outcome ApiError A
api_error (ok a) = ok a
api_error (err e) = err (other_reason 1)
api_error panic = panic

module _ {W Q : Type 0} where
  abbrev pub done : {A : Type 0} → A → Call W Q A
  done a s = (s, ok a)

  abbrev pub fail : {A : Type 0} → ApiError → Call W Q A
  fail e s = (s, err e)

  abbrev pub continue_with : {A B : Type 0} → Outcome ApiError A → (A → Call W Q B) → Call W Q B
  continue_with (ok a) f s = f a s
  continue_with (err e) f s = (s, err e)
  continue_with panic f s = (s, panic)

  infixl 5 ◌>>=◌
  abbrev pub ◌>>=◌ : {A B : Type 0} → Call W Q A → (A → Call W Q B) → Call W Q B
  ◌>>=◌ m f s = let (t, r) = m s in continue_with r f t

  -- A read of the cluster.
  abbrev pub read : {A : Type 0} → (W → Outcome ApiError A) → Call W Q A
  read f s = (s, f s.world)

  abbrev pub attempt : {A : Type 0} → Call W Q A → Call W Q (Outcome ApiError A)
  attempt m s = let (t, r) = m s in (t, handled r)

  -- A write: it is logged, whether it succeeds or not.
  abbrev pub issue : Client W Q → Write Q → Call W Q (Unit {0})
  issue client w s =
      let (world, e) = client.write s.world w in
      (record { world = world; issued = s.issued ++ w ∷ [] }, answer e)
