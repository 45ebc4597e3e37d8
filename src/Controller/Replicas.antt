-- ===== src/Controller/Replicas.antt =====
-- What the PP-VPA reconciler does to the Deployment, and to its own finalizer.
use mathlib.Core.List.{append-nil, append_assoc}
use pp_vpa.Prelude.{
  ◌≡◌, refl, sym, ap, ◌⊎◌, inl, inr, true, false, not, ◌&&◌, Bool-cases, some, Option-cases, List,
  [], ◌∷◌, ◌++◌, String, str_eq, eq_iff, contains, ok, Outcome-cases, arith, if◌then◌else◌,
}
use pp_vpa.Prelude.Int.{pos, leb_ℤ}
use pp_vpa.Kube.{is_not_found}
use pp_vpa.Api.{Ppvpa}
use pp_vpa.Cluster.{
  Deployment, Write, update_ppvpa, patch_ppvpa, patch_ppvpa_status, patch_deployment, Client,
  Session,
}
use pp_vpa.Controller.{
  ppvpa_finalizer, remove_string, strip_finalizer, with_finalizers, with_target, with_active,
  desired_replicas, current_replicas, is_unset, is_exactly, seed_replicas, scale_deployment,
  reconcile_replicas, finalize,
}

-- removeString removes the string wherever it stands, and no other.
pub contains-remove_string :
    (xs : List String) (v s : String)
    → contains (remove_string xs v) s ≡ (contains xs s && not (str_eq v s))
unfolding remove_string
contains-remove_string [] v s = ground arith
contains-remove_string (x ∷ xs) v s = ground (arith, contains-remove_string xs v s, same, other)
  where
    same : str_eq x v ≡ true → str_eq x s ≡ str_eq v s
    same h = ap (λ z. str_eq z s) ((eq_iff x v).0 h)

    other : str_eq v s ≡ true → str_eq x s ≡ str_eq x v
    other h = ap (λ z. str_eq x z) (sym ((eq_iff v s).0 h))

module _ {Q : Type 0} where
  -- The writes of reconcileReplicas for the Deployment that it reads.
  pub data Scaled (p : Ppvpa Q) (dep : Deployment) : List (Write Q) → Type 0 where
    in_step :
        leb_ℤ (desired_replicas p) (pos 0) ≡ false
        → is_exactly dep.replicas (desired_replicas p) ≡ true
        → Scaled p dep []
    scaled :
        leb_ℤ (desired_replicas p) (pos 0) ≡ false
        → is_exactly dep.replicas (desired_replicas p) ≡ false
        → Scaled p dep
            (patch_deployment (record dep { replicas = some (desired_replicas p) }) dep ∷ [])
    seeded :
        leb_ℤ (desired_replicas p) (pos 0) ≡ true
        → is_unset p.spec.target_replicas ≡ true
        → (rest : List (Write Q))
        → (rest ≡ []) ⊎ (rest ≡ patch_ppvpa_status (with_active p (current_replicas dep)) p ∷ [])
        → Scaled p dep (patch_ppvpa (with_target p (current_replicas dep)) p ∷ rest)
    counted :
        leb_ℤ (desired_replicas p) (pos 0) ≡ true
        → is_unset p.spec.target_replicas ≡ false
        → Scaled p dep (patch_ppvpa_status (with_active p (current_replicas dep)) p ∷ [])

module _ {W Q : Type 0} (client : Client W Q) where
  scale_deployment-Scaled :
      (p : Ppvpa Q) (dep : Deployment) (s : Session W Q)
      → (ws : List (Write Q)) × ((scale_deployment client p dep s).0.issued ≡ s.issued ++ ws)
        × Scaled p dep ws
  unfolding scale_deployment seed_replicas
  scale_deployment-Scaled p dep s = elim (Bool-cases (leb_ℤ (desired_replicas p) (pos 0))) [
    | inr e ↦ elim (Bool-cases (is_exactly dep.replicas (desired_replicas p))) [
      | inl f ↦ rw (e, f) ([], sym (append-nil s.issued), in_step e f)
      | inr f ↦
          rw (e, f)
            (
              patch_deployment (record dep { replicas = some (desired_replicas p) }) dep ∷ [],
              refl,
              scaled e f,
            )
    ]
    | inl e ↦ elim (Bool-cases (is_unset p.spec.target_replicas)) [
      | inl f ↦ seed e f
      | inr f ↦ rw (e, f) (active ∷ [], refl, counted e f)
    ]
  ]
    where
      active : Write Q
      active = patch_ppvpa_status (with_active p (current_replicas dep)) p

      target : Write Q
      target = patch_ppvpa (with_target p (current_replicas dep)) p

      seed :
          leb_ℤ (desired_replicas p) (pos 0) ≡ true
          → is_unset p.spec.target_replicas ≡ true
          → (ws : List (Write Q)) × ((scale_deployment client p dep s).0.issued ≡ s.issued ++ ws)
            × Scaled p dep ws
      seed e f = elim (Option-cases (client.write s.world target).1) [
        | inl g ↦
            rw (e, f, g)
              (
                target ∷ active ∷ [],
                append_assoc s.issued (target ∷ []) (active ∷ []),
                seeded e f (active ∷ []) (inr refl),
              )
        | inr (x, g) ↦ rw (e, f, g) (target ∷ [], refl, seeded e f [] (inl refl))
      ]

  -- Whatever the client answers, reconcileReplicas writes nothing, or reads the Deployment and
  -- does one of these: with a positive desired count, it sets the Deployment's replicas to that
  -- count exactly where they are not it; otherwise it patches the active count of the status to
  -- the Deployment's replicas (1 where unset), after it has seeded the target where that is unset,
  -- and only if that write succeeded or was not needed.
  pub reconcile_replicas-Scaled :
      (p : Ppvpa Q) (s : Session W Q)
      → (ws : List (Write Q)) × ((reconcile_replicas client p s).0.issued ≡ s.issued ++ ws)
        × ((ws ≡ [])
            ⊎ ((dep : Deployment) × (client.get_deployment s.world p.meta.namespace
                    p.spec.target_ref.name
                  ≡ ok dep)
                × Scaled p dep ws))
  unfolding reconcile_replicas
  reconcile_replicas-Scaled p s = elim (Bool-cases (str_eq p.spec.target_ref.kind "Deployment")) [
    | inr e ↦ rw e ([], sym (append-nil s.issued), inl refl)
    | inl e ↦
        elim (Outcome-cases
          (client.get_deployment s.world p.meta.namespace p.spec.target_ref.name)) [
            | inl (dep, f) ↦
                (let (ws, g, h) = scale_deployment-Scaled p dep s in
                  rw (e, f) (ws, g, inr (dep, refl, h)))
            | inr (inl (x, f)) ↦ elim (Bool-cases (is_not_found x)) [
              | inl g ↦ rw (e, f, g) ([], sym (append-nil s.issued), inl refl)
              | inr g ↦ rw (e, f, g) ([], sym (append-nil s.issued), inl refl)
            ]
            | inr (inr f) ↦ rw (e, f) ([], sym (append-nil s.issued), inl refl)
          ]
  ]

  -- finalize issues one update where the PP-VPA has the finalizer and no write otherwise; the
  -- updated object has every finalizer but that one, and no new one.
  pub finalize_lem :
      (p : Ppvpa Q) (s : Session W Q)
      → let q = strip_finalizer p in
        (ws : List (Write Q)) × ((finalize client p s).0.issued ≡ s.issued ++ ws)
        × (ws ≡ (if contains p.meta.finalizers ppvpa_finalizer then update_ppvpa q ∷ [] else []))
        × ((f : String)
            → contains q.meta.finalizers f
              ≡ (contains p.meta.finalizers f && not (str_eq ppvpa_finalizer f)))
  unfolding finalize strip_finalizer
  finalize_lem p s = elim (Bool-cases (contains p.meta.finalizers ppvpa_finalizer)) [
    | inl e ↦
        elim (Option-cases
          (client.write s.world (
            update_ppvpa
              (with_finalizers p (remove_string p.meta.finalizers ppvpa_finalizer)))).1) [
                | inl f ↦
                    rw (e, f)
                      (
                        _,
                        refl,
                        refl,
                        λ g. contains-remove_string p.meta.finalizers ppvpa_finalizer g,
                      )
                | inr (x, f) ↦
                    rw (e, f)
                      (
                        _,
                        refl,
                        refl,
                        λ g. contains-remove_string p.meta.finalizers ppvpa_finalizer g,
                      )
              ]
    | inr e ↦ rw e (
      [],
      sym (append-nil s.issued),
      refl,
      λ g. contains-remove_string p.meta.finalizers ppvpa_finalizer g,
    )
  ]
