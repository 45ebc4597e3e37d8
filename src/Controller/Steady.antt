-- ===== src/Controller/Steady.antt =====
-- reconcileReplicas on a cluster that keeps the patch of the Deployment.
use pp_vpa.Prelude.{
  ◌≡◌, refl, ap, sym, ◌∙◌, inl, inr, Bool-cases, true, false, none, some, Option, String, str_eq,
  ok, arith,
}
use pp_vpa.Prelude.Int.{ℤ, pos, negsuc, leb_ℤ, eqb_ℤ, int32, ◌+ℤ◌}
use pp_vpa.Api.{Ppvpa}
use pp_vpa.Cluster.{Deployment, patch_deployment, Client, Session}
use pp_vpa.Controller.{desired_replicas, is_exactly, or_else, scale_deployment, reconcile_replicas}

-- The Deployment of this name can be patched, and is then read as it was patched.
pub record KeepsPatch {W Q : Type 0} (client : Client W Q) (namespace name : String) : Type 0 where
  pub accepts :
      (w : W) (new old : Deployment) → (client.write w (patch_deployment new old)).1 ≡ none
  pub reads :
      (w : W) (new old : Deployment)
      → client.get_deployment w namespace name ≡ ok old
      → client.get_deployment (client.write w (patch_deployment new old)).0 namespace name ≡ ok new

eqb_self : (n : ℤ) → eqb_ℤ n n ≡ true
eqb_self (pos n) = ground arith
eqb_self (negsuc n) = ground arith

eq_of_eqb : (m n : ℤ) → eqb_ℤ m n ≡ true → m ≡ n
eq_of_eqb (pos m) (pos n) h = ground arith
eq_of_eqb (pos m) (negsuc n) h = ground arith
eq_of_eqb (negsuc m) (pos n) h = ground arith
eq_of_eqb (negsuc m) (negsuc n) h = ground arith

exactly : (r : Option ℤ) (n : ℤ) → is_exactly r n ≡ true → r ≡ some n
exactly none n h = cc
exactly (some m) n h = ap some (eq_of_eqb m n h)

module _ {Q : Type 0} (p : Ppvpa Q) where
  -- The target count, 0 where it is not set, and the temporary one, in int32.
  abbrev pub steady_count : ℤ
  steady_count = int32 (or_else p.spec.target_replicas (pos 0) +ℤ p.status.temporary_replicas)

  desired_replicas_lem : desired_replicas p ≡ steady_count
  unfolding desired_replicas
  desired_replicas_lem = refl

module _ {W Q : Type 0} (client : Client W Q) (p : Ppvpa Q) where
  -- The Deployment has the desired number of replicas.
  abbrev pub IsSteady : W → Type 0
  IsSteady w =
      (dep : Deployment) × (client.get_deployment w p.meta.namespace p.spec.target_ref.name
        ≡ ok dep)
      × (dep.replicas ≡ some (steady_count p))

module _ {W Q : Type 0} (client : Client W Q) (p : Ppvpa Q)
    (keeps : KeepsPatch client p.meta.namespace p.spec.target_ref.name)
    (kind : str_eq p.spec.target_ref.kind "Deployment" ≡ true)
    (wanted : leb_ℤ (desired_replicas p) (pos 0) ≡ false) where
  -- A steady cluster is left alone.
  still_again :
      (t : Session W Q) → IsSteady client p t.world → reconcile_replicas client p t ≡ (t, ok tt)
  unfolding reconcile_replicas scale_deployment
  still_again t (dep, e, r) =
      rw
        (kind, e, wanted, r ∙ ap some (sym (desired_replicas_lem p)), eqb_self (desired_replicas p))
        refl

  read_again :
      (s : Session W Q)
      → IsSteady client p s.world
      → let (t, r) = reconcile_replicas client p s in
        (r ≡ ok tt) × IsSteady client p t.world × (reconcile_replicas client p t ≡ (t, ok tt))
  read_again s h = rw (still_again s h) (refl, h, still_again s h)

  patched :
      (dep : Deployment) (s : Session W Q)
      → client.get_deployment s.world p.meta.namespace p.spec.target_ref.name ≡ ok dep
      → is_exactly dep.replicas (desired_replicas p) ≡ false
      → ((reconcile_replicas client p s).1 ≡ ok tt)
        × IsSteady client p (reconcile_replicas client p s).0.world
  unfolding reconcile_replicas scale_deployment
  patched dep s e n =
      let new : Deployment = record dep { replicas = some (desired_replicas p) } in
      rw (kind, e, wanted, n, keeps.accepts s.world new dep)
        (refl, (new, keeps.reads s.world new dep e, ap some (desired_replicas_lem p)))

  -- On a cluster that accepts a patch of the Deployment and then reads it as patched, for a PP-VPA
  -- of an existing Deployment with a positive desired count: reconcileReplicas returns without an
  -- error and leaves the Deployment with the target count and the temporary one together, and its
  -- next run, with no change between, writes nothing.
  pub reconcile_replicas-IsSteady :
      (dep : Deployment) (s : Session W Q)
      → client.get_deployment s.world p.meta.namespace p.spec.target_ref.name ≡ ok dep
      → let (t, r) = reconcile_replicas client p s in
        (r ≡ ok tt) × IsSteady client p t.world × (reconcile_replicas client p t ≡ (t, ok tt))
  reconcile_replicas-IsSteady dep s e =
      elim (Bool-cases (is_exactly dep.replicas (desired_replicas p))) [
        | inl x ↦
            read_again s (
              dep,
              e,
              exactly dep.replicas (desired_replicas p) x ∙ ap some (desired_replicas_lem p),
            )
        | inr n ↦
            (let (r, h) = patched dep s e n in
              (r, h, still_again (reconcile_replicas client p s).0 h))
      ]
