-- ===== src/Controller/Flow.antt =====
-- How the stages of a Reconcile follow one another, and what the last two of them write.
use mathlib.Core.List.{append-nil, append_assoc}
use pp_vpa.Prelude.{
  ℕ, ◌≡◌, ◌≢◌, refl, sym, ap, ◌∙◌, ◌⊎◌, inl, inr, List, [], ◌++◌, All, Outcome, ok, err, panic,
  String,
}
use pp_vpa.Float.{Float}
use pp_vpa.Clock.{Time}
use pp_vpa.Histogram.Codec.{Codec, Checkpoint}
use pp_vpa.Kube.{Quantities, ApiError}
use pp_vpa.Api.{Ppvpa, Prr}
use pp_vpa.Cluster.{Pod, Deployment, Write, Client, Session, Call, done, attempt, ◌>>=◌}
use pp_vpa.Controller.Prrs.{owned_prrs, reconcile_prrs}
use pp_vpa.Controller.Garbage.{IsAllowed}
use pp_vpa.Controller.Replicas.{Scaled, reconcile_replicas-Scaled}
use pp_vpa.Controller.Stages.{
  Targeted, Recommended, reconcile_recommendation-Recommended, finalized, finalizer_write,
}
use pp_vpa.Controller.{
  Requeue, after_seconds, or_retry, reconcile_recommendation, reconcile_replicas, targeted_pods,
  ensure_finalizer,
}

module _ {W Q : Type 0} (client : Client W Q) where
  -- The writes of reconcilePRRs in the cluster `v`, for the pods that were targeted.
  abbrev pub PrrWrites : Ppvpa Q → List (Pod Q) → W → List (Write Q) → Type 0
  PrrWrites p pods v ws =
      (ws ≡ [])
      ⊎ ((prrs : List (Prr Q)) × (client.list_prrs v p.meta.namespace ≡ ok prrs)
          × All (IsAllowed p (owned_prrs p.meta.uid prrs) pods) ws)

  -- The writes of reconcileReplicas in the cluster `v`.
  abbrev pub ReplicaWrites : Ppvpa Q → W → List (Write Q) → Type 0
  ReplicaWrites p v ws =
      (ws ≡ [])
      ⊎ ((dep : Deployment) × (client.get_deployment v p.meta.namespace p.spec.target_ref.name
            ≡ ok dep)
          × Scaled p dep ws)

  -- The writes `ws` that come after a stage that ended as `r`: those of the next stage, on its value
  -- and in its session, or none where the stage gave no value.
  abbrev pub After :
      {A : Type 0}
      → Session W Q × Outcome ApiError A
      → (A → Session W Q → List (Write Q) → Type 0)
      → List (Write Q)
      → Type 0
  After {A} r P ws = ((a : A) × (r.1 ≡ ok a) × P a r.0 ws) ⊎ (((a : A) → r.1 ≢ ok a) × (ws ≡ []))

module _ {F W Q : Type 0} ⦃float : Float F⦄ (codec : Codec (Checkpoint F))
    (quantities : Quantities Q) (client : Client W Q)
    (range_order : List (String × Prr Q) → List (String × Prr Q)) where
  -- The stage of reconcileReplicas.
  pub record Rescaled (p : Ppvpa Q) (s : Session W Q) (ws : List (Write Q)) : Type 0 where
    pub run : (reconcile_replicas client p s).0.issued ≡ s.issued ++ ws
    pub of_scaling : ReplicaWrites client p s.world ws

  -- The stage of reconcileRecommendation, and the next one.
  pub record Advised (now : Time) (p : Ppvpa Q) (s : Session W Q) (ws : List (Write Q))
      : Type 0 where
    pub advice : List (Write Q)
    pub scaling : List (Write Q)
    pub in_order : ws ≡ advice ++ scaling
    pub run :
        (reconcile_recommendation codec quantities client now p s).0.issued ≡ s.issued ++ advice
    pub of_advice :
        ((advice ≡ []) × ((reconcile_recommendation codec quantities client now p s).1 ≢ ok tt))
        ⊎ Recommended codec quantities client now p s.world advice
    pub onward :
        After client
          (reconcile_recommendation codec quantities client now p s)
          (λ _ t. Rescaled p t)
          scaling

  -- The stage of reconcilePRRs, and the next ones.
  pub record Collected (now : Time) (p : Ppvpa Q) (pods : List (Pod Q)) (s : Session W Q)
      (ws : List (Write Q)) : Type 0 where
    pub garbage : List (Write Q)
    pub rest : List (Write Q)
    pub in_order : ws ≡ garbage ++ rest
    pub run : (reconcile_prrs client range_order p pods s).0.issued ≡ s.issued ++ garbage
    pub of_garbage : PrrWrites client p pods s.world garbage
    pub onward :
        After client (reconcile_prrs client range_order p pods s) (λ _ t. Advised now p t) rest

  -- The search for the targeted pods, which writes nothing, and the next stages.
  abbrev pub Served : Time → Ppvpa Q → Session W Q → List (Write Q) → Type 0
  Served now p s =
      After client (targeted_pods client p s)
        (λ pods t ws. Targeted client p s.world pods × (t ≡ s) × Collected now p pods t ws)

  -- The writes for a PP-VPA that is not being deleted: the finalizer where it is missing, then the
  -- stages for the PP-VPA with the finalizer in place.
  pub record Reconciled (now : Time) (p : Ppvpa Q) (s : Session W Q) (ws : List (Write Q))
      : Type 0 where
    pub rest : List (Write Q)
    pub in_order : ws ≡ finalizer_write p ++ rest
    pub onward :
        After client
          (ensure_finalizer codec quantities client p s)
          (λ q t vs. (q ≡ finalized p) × Served now q t vs)
          rest

  -- A stage whose call ended as `r`, and the later ones.
  abbrev pub then_stage :
      {A : Type 0}
      → ℕ
      → (A → Call W Q Requeue)
      → Session W Q × Outcome ApiError A
      → Session W Q × Outcome ApiError Requeue
  then_stage seconds next r =
      (attempt (λ (s : Session W Q). r) >>= (λ x. or_retry codec quantities client seconds x next))
        r.0

  abbrev pub Adds : (List (Write Q) → Type 0) → Session W Q → Session W Q → Type 0
  Adds P s t = (ws : List (Write Q)) × (t.issued ≡ s.issued ++ ws) × P ws

  nothing : (s : Session W Q) → s.issued ≡ s.issued ++ []
  nothing s = sym (append-nil s.issued)

  -- The later stages run after a value only.
  pub stage :
      {A : Type 0} (seconds : ℕ) (next : A → Call W Q Requeue)
      (P : A → Session W Q → List (Write Q) → Type 0) (r : Session W Q × Outcome ApiError A)
      → ((a : A) → r.1 ≡ ok a → Adds (P a r.0) r.0 (next a r.0).0)
      → Adds (After client r P) r.0 (then_stage seconds next r).0
  stage seconds next P (t, ok a) h = let (ws, e, p) = h a refl in (ws, e, inl (a, refl, p))
  stage seconds next P (t, err e) h = ([], nothing t, inr (λ a k. cc, refl))
  stage seconds next P (t, panic) h = ([], nothing t, inr (λ a k. cc, refl))

  -- A last answer writes nothing.
  last_stage :
      {A : Type 0} (seconds : ℕ) (q : Requeue) (r : Session W Q × Outcome ApiError A)
      → (then_stage seconds (λ _. done q) r).0 ≡ r.0
  last_stage seconds q (t, ok a) = refl
  last_stage seconds q (t, err e) = refl
  last_stage seconds q (t, panic) = refl

  -- The log after one stage and the later ones.
  pub both :
      (s t u : Session W Q) (ws vs : List (Write Q))
      → t.issued ≡ s.issued ++ ws
      → u.issued ≡ t.issued ++ vs
      → u.issued ≡ s.issued ++ (ws ++ vs)
  both s t u ws vs e f = f ∙ ap (λ z. z ++ vs) e ∙ append_assoc s.issued ws vs

  abbrev pub scale_next : Ppvpa Q → Unit {0} → Call W Q Requeue
  scale_next p u s = then_stage 30 (λ _. done (after_seconds 60)) (reconcile_replicas client p s)

  scale_next-Rescaled :
      (p : Ppvpa Q) (u : Unit {0}) (s : Session W Q) → Adds (Rescaled p s) s (scale_next p u s).0
  scale_next-Rescaled p u s =
      let (ws, e, h) = reconcile_replicas-Scaled client p s in
      (
        ws,
        ap (λ z. z.issued) (last_stage 30 (after_seconds 60) (reconcile_replicas client p s)) ∙ e,
        record { run = e; of_scaling = h },
      )

  abbrev pub advise_next : Time → Ppvpa Q → Unit {0} → Call W Q Requeue
  advise_next now p u s =
      then_stage 60 (scale_next p) (reconcile_recommendation codec quantities client now p s)

  pub advise_next-Advised :
      (now : Time) (p : Ppvpa Q) (u : Unit {0}) (s : Session W Q)
      → Adds (Advised now p s) s (advise_next now p u s).0
  advise_next-Advised now p u s =
      let r = reconcile_recommendation codec quantities client now p s in
      let (ws, e, h) = reconcile_recommendation-Recommended codec quantities client now p s in
      let (vs, f, k) =
        stage 60 (scale_next p) (λ _ t. Rescaled p t) r (λ a _. scale_next-Rescaled p a r.0) in
      (
        ws ++ vs,
        both s r.0 (advise_next now p u s).0 ws vs e f,
        record { advice = ws; scaling = vs; in_order = refl; run = e; of_advice = h; onward = k },
      )
