-- ===== src/Controller/Store.antt =====
-- A cluster that keeps what is written, and what the loops of reconcilePRRs leave in it.
use pp_vpa.Prelude.{
  ◌≡◌, ◌≢◌, refl, sym, subst, ap, ◌∙◌, inl, inr, true, false, Bool-cases, none, some, Option-cases,
  List, [], ◌∷◌, String, str_eq, eq_iff, contains, Outcome, ok, err, panic, All, arith,
}
use pp_vpa.Kube.{ApiError, already_exists, is_already_exists, is_not_found}
use pp_vpa.Api.{Ppvpa, Prr}
use pp_vpa.Cluster.{Pod, create_prr, delete_prr, Client, Session, continue_with}
use pp_vpa.Controller.Prrs.{
  is_owned_by, owned_prrs, has_key, new_prr, create_for, create_missing, delete_unless_live,
  delete_orphans,
}
use pp_vpa.Controller.Garbage.{targets}

-- A cluster that answers a list with what was written: `view` is what it holds in the namespace.
-- A create, whatever its answer, loses nothing, and one that succeeds adds the object; a delete
-- loses nothing but that object.
pub record IsStore {W Q : Type 0} (client : Client W Q) (namespace : String)
    (view : W → List (Prr Q)) : Type 0 where
  pub listed : (w : W) → client.list_prrs w namespace ≡ ok (view w)
  pub create_keeps :
      (w : W) (p : Prr Q) (uid name : String)
      → targets (owned_prrs uid (view w)) name ≡ true
      → targets (owned_prrs uid (view (client.write w (create_prr p)).0)) name ≡ true
  pub create_adds :
      (w : W) (p : Prr Q) (uid : String)
      → (client.write w (create_prr p)).1 ≡ none
      → is_owned_by uid p.meta.owner_references ≡ true
      → targets (owned_prrs uid (view (client.write w (create_prr p)).0)) p.spec.target_pod_name
        ≡ true
  pub delete_keeps :
      (w : W) (p : Prr Q) (uid name : String)
      → str_eq p.spec.target_pod_name name ≡ false
      → targets (owned_prrs uid (view w)) name ≡ true
      → targets (owned_prrs uid (view (client.write w (delete_prr p)).0)) name ≡ true

pub both_ways : true ≡ false → ⊥
both_ways h = cc

module _ {Q : Type 0} where
  new_prr-owned :
      (ppvpa : Ppvpa Q) (pod : Pod Q)
      → is_owned_by ppvpa.meta.uid (new_prr ppvpa pod).meta.owner_references ≡ true
  unfolding is_owned_by new_prr
  new_prr-owned ppvpa pod = ground (arith, eq_iff ppvpa.meta.uid ppvpa.meta.uid)

  new_prr-target :
      (ppvpa : Ppvpa Q) (pod : Pod Q) → (new_prr ppvpa pod).spec.target_pod_name ≡ pod.meta.name
  unfolding new_prr
  new_prr-target ppvpa pod = refl

module _ {W Q : Type 0} (ppvpa : Ppvpa Q) (view : W → List (Prr Q)) where
  -- A PRR of the PP-VPA is there for the pod of this name.
  abbrev pub Has : Session W Q → String → Type 0
  Has s name = targets (owned_prrs ppvpa.meta.uid (view s.world)) name ≡ true

module _ {W Q : Type 0} (client : Client W Q) (ppvpa : Ppvpa Q) (view : W → List (Prr Q))
    (store : IsStore client ppvpa.meta.namespace view)
    (fresh : (w : W) (p : Prr Q) → (client.write w (create_prr p)).1 ≢ some already_exists) where
  abbrev pub Keeps : Session W Q → Session W Q → Type 0
  Keeps s t = (name : String) → Has ppvpa view s name → Has ppvpa view t name

  refused : (e : ApiError) → is_already_exists e ≡ true → e ≡ already_exists
  refused already_exists h = refl
  refused _ h = cc

  create_for-Has :
      (m : List (String × Prr Q)) (pod : Pod Q) (s : Session W Q)
      → (has_key m pod.meta.name ≡ true → Has ppvpa view s pod.meta.name)
      → let r = create_for client m ppvpa pod s in
        Keeps s r.0 × (r.1 ≡ ok tt → Has ppvpa view r.0 pod.meta.name)
  unfolding create_for
  create_for-Has m pod s h = elim (Bool-cases (has_key m pod.meta.name)) [
    | inl e ↦ rw e (λ name k. k, λ _. h e)
    | inr e ↦ elim (Option-cases (client.write s.world (create_prr (new_prr ppvpa pod))).1) [
      | inl k ↦
          rw (e, k)
            (
              store.create_keeps s.world (new_prr ppvpa pod) ppvpa.meta.uid,
              λ _.
                  subst
                    (λ z.
                      targets
                        (owned_prrs ppvpa.meta.uid
                          (view (client.write s.world (create_prr (new_prr ppvpa pod))).0))
                        z
                      ≡ true)
                    (new_prr-target ppvpa pod)
                    (store.create_adds s.world (new_prr ppvpa pod) ppvpa.meta.uid k
                      (new_prr-owned ppvpa pod)),
            )
      | inr (x, k) ↦ elim (Bool-cases (is_already_exists x)) [
        | inl l ↦ absurd (fresh s.world (new_prr ppvpa pod) (k ∙ ap some (refused x l)))
        | inr l ↦
            rw (e, k, l) (store.create_keeps s.world (new_prr ppvpa pod) ppvpa.meta.uid, λ q. cc)
      ]
    ]
  ]

  -- A call that keeps what is there, and, if it succeeds, gives what `P` says.
  abbrev pub Goes :
      (Session W Q → Type 0) → Session W Q → Session W Q × Outcome ApiError (Unit {0}) → Type 0
  Goes P s r = Keeps s r.0 × (r.1 ≡ ok tt → P r.0)

  follow_on :
      (P R : Session W Q → Type 0) (s : Session W Q) (r : Session W Q × Outcome ApiError (Unit {0}))
      (f : Session W Q → Session W Q × Outcome ApiError (Unit {0}))
      → Goes P s r
      → ((t : Session W Q) → Keeps s t → P t → Goes R t (f t))
      → Goes R s (continue_with r.1 (λ _. f) r.0)
  follow_on P R s (t, ok u) f (k, p) g =
      let (l, q) = g t k (p refl) in (λ name h. l name (k name h), q)
  follow_on P R s (t, err e) f (k, p) g = (k, λ h. cc)
  follow_on P R s (t, panic) f (k, p) g = (k, λ h. cc)

  pub create_missing-Has :
      (m : List (String × Prr Q)) (pods : List (Pod Q)) (s : Session W Q)
      → ((name : String) → has_key m name ≡ true → Has ppvpa view s name)
      → Goes
          (λ t. All (λ pod. Has ppvpa view t pod.meta.name) pods)
          s
          (create_missing client m ppvpa pods s)
  unfolding create_missing
  create_missing-Has m [] s h = (λ name k. k, λ _. tt)
  create_missing-Has m (pod ∷ pods) s h =
      follow_on (λ t. Has ppvpa view t pod.meta.name)
        (λ t. All (λ p. Has ppvpa view t p.meta.name) (pod ∷ pods)) s
        (create_for client m ppvpa pod s) (create_missing client m ppvpa pods)
        (create_for-Has m pod s (h pod.meta.name))
        (λ t k p.
          let (l, q) = create_missing-Has m pods t (λ name x. k name (h name x)) in
          (l, λ e. (l pod.meta.name p, q e)))

  delete_unless_live-Has :
      (live : List String) (e : String × Prr Q) (s : Session W Q) (name : String)
      → str_eq e.1.spec.target_pod_name e.0 ≡ true
      → contains live name ≡ true
      → Has ppvpa view s name
      → Has ppvpa view (delete_unless_live client live e s).0 name
  unfolding delete_unless_live
  delete_unless_live-Has live (key, p) s name t l h = elim (Bool-cases (contains live key)) [
    | inl e ↦ rw e h
    | inr e ↦ elim (Option-cases (client.write s.world (delete_prr p)).1) [
      | inl k ↦ rw (e, k) (store.delete_keeps s.world p ppvpa.meta.uid name (other e) h)
      | inr (x, k) ↦ elim (Bool-cases (is_not_found x)) [
        | inl f ↦ rw (e, k, f) (store.delete_keeps s.world p ppvpa.meta.uid name (other e) h)
        | inr f ↦ rw (e, k, f) (store.delete_keeps s.world p ppvpa.meta.uid name (other e) h)
      ]
    ]
  ]
    where
      other : contains live key ≡ false → str_eq p.spec.target_pod_name name ≡ false
      other e = elim (Bool-cases (str_eq p.spec.target_pod_name name)) [
        | inr d ↦ d
        | inl d ↦
            absurd (
              both_ways
                (sym l ∙ ap (contains live) (sym ((eq_iff _ _).0 d) ∙ (eq_iff _ _).0 t) ∙ e))
      ]

  pub delete_orphans-Has :
      (live : List String) (es : List (String × Prr Q)) (s : Session W Q) (name : String)
      → All (λ e. str_eq e.1.spec.target_pod_name e.0 ≡ true) es
      → contains live name ≡ true
      → Has ppvpa view s name
      → Has ppvpa view (delete_orphans client live es s).0 name
  unfolding delete_orphans
  delete_orphans-Has live [] s name a l h = h
  delete_orphans-Has live (e ∷ es) s name (t, a) l h =
      go (λ t' k. delete_orphans-Has live es t' name a l k) (delete_unless_live client live e s)
        (delete_unless_live-Has live e s name t l h)
    where
      go :
          ((t' : Session W Q)
            → Has ppvpa view t' name
            → Has ppvpa view (delete_orphans client live es t').0 name)
          → (r : Session W Q × Outcome ApiError (Unit {0})) → Has ppvpa view r.0 name
          → Has ppvpa view (continue_with r.1 (λ _. delete_orphans client live es) r.0).0 name
      go rest (t', ok u) k = rest t' k
      go rest (t', err x) k = k
      go rest (t', panic) k = k
