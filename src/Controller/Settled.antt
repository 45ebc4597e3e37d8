-- ===== src/Controller/Settled.antt =====
-- reconcilePRRs on a cluster that keeps what is written: it comes to a PRR for every pod.
use pp_vpa.Prelude.{
  none, some, Option, inl, inr, Bool-cases, ◌≡◌, ◌≢◌, refl, sym, ◌∙◌, true, false, some, List, [],
  ◌∷◌, ◌++◌, map, String, str_eq, eq_iff, contains, Outcome, ok, err, panic, All, arith,
}
use pp_vpa.Kube.{ApiError, already_exists}
use pp_vpa.Api.{Ppvpa, Prr}
use pp_vpa.Cluster.{Pod, Write, create_prr, delete_prr, Client, Session, continue_with}
use pp_vpa.Cluster.Writes.{only_bind}
use pp_vpa.Controller.Prrs.{
  owned_prrs, has_key, by_pod_loop, new_prr, list_owned_prrs, create_for, create_missing,
  delete_unless_live, delete_orphans, reconcile_prrs,
}
use pp_vpa.Controller.Garbage.{
  IsRangeOrder, IsEntry, has_key-by_pod_loop, by_pod_loop-IsEntry, All-mem, create_missing-only,
  delete_orphans-only,
}
use pp_vpa.Controller.Store.{IsStore, both_ways, Has, create_missing-Has, delete_orphans-Has}

module _ {Q : Type 0} where
  -- A write that deletes a PRR.
  abbrev pub IsDeletion : Write Q → Type 0
  IsDeletion (delete_prr p) = Unit {0}
  IsDeletion w = ⊥

module _ {W Q : Type 0} (client : Client W Q) (ppvpa : Ppvpa Q) (view : W → List (Prr Q))
    (store : IsStore client ppvpa.meta.namespace view)
    (fresh : (w : W) (p : Prr Q) → (client.write w (create_prr p)).1 ≢ some already_exists) where
  abbrev names_of : List (Pod Q) → List String
  names_of pods = map (λ pod. pod.meta.name) pods

  contains-name :
      (ps : List (Pod Q)) (live : List String)
      → ((name : String) → contains (names_of ps) name ≡ true → contains live name ≡ true)
      → All (λ pod. contains live pod.meta.name ≡ true) ps
  contains-name [] live h = tt
  contains-name (p ∷ ps) live h = (
    h p.meta.name (rw ((eq_iff p.meta.name p.meta.name).1 refl) refl),
    contains-name ps live (λ name k. h name (later name k)),
  )
    where
      later :
          (name : String)
          → contains (names_of ps) name ≡ true
          → contains (names_of (p ∷ ps)) name ≡ true
      later name k = ground arith

  All-zip :
      (P R : Pod Q → Type 0) (S : Pod Q → Type 0) (ps : List (Pod Q))
      → ((pod : Pod Q) → P pod → R pod → S pod)
      → All P ps
      → All R ps
      → All S ps
  All-zip P R S [] f a b = tt
  All-zip P R S (p ∷ ps) f a b = (f p a.0 b.0, All-zip P R S ps f a.1 b.1)

  keys_of :
      (prrs : List (Prr Q)) (es : List (String × Prr Q))
      → All (IsEntry prrs) es
      → All (λ e. str_eq e.1.spec.target_pod_name e.0 ≡ true) es
  keys_of prrs [] h = tt
  keys_of prrs (e ∷ es) h = (h.0.1, keys_of prrs es h.1)

  -- After creating and deleting, every pod of the list has its PRR.
  cleaned-Has :
      (pods : List (Pod Q)) (es : List (String × Prr Q))
      → All (λ e. str_eq e.1.spec.target_pod_name e.0 ≡ true) es
      → (r : Session W Q × Outcome ApiError (Unit {0}))
      → (r.1 ≡ ok tt → All (λ pod. Has ppvpa view r.0 pod.meta.name) pods)
      → let end = continue_with r.1 (λ _. delete_orphans client (names_of pods) es) r.0 in
        end.1 ≡ ok tt → All (λ pod. Has ppvpa view end.0 pod.meta.name) pods
  cleaned-Has pods es a (t, err x) h k = cc
  cleaned-Has pods es a (t, panic) h k = cc
  cleaned-Has pods es a (t, ok u) h k =
      All-zip (λ pod. Has ppvpa view t pod.meta.name)
        (λ pod. contains (names_of pods) pod.meta.name ≡ true) _ pods
        (λ pod x l.
          delete_orphans-Has client ppvpa view store fresh (names_of pods) es t pod.meta.name a l x)
        (h refl) (contains-name pods (names_of pods) (λ name l. l))

  -- A pass that returns without an error leaves a PRR for every pod it was given.
  pub reconcile_prrs-Has :
      (range_order : List (String × Prr Q) → List (String × Prr Q)) (pods : List (Pod Q))
      (s : Session W Q)
      → IsRangeOrder range_order
      → (reconcile_prrs client range_order ppvpa pods s).1 ≡ ok tt
      → All
          (λ pod. Has ppvpa view (reconcile_prrs client range_order ppvpa pods s).0 pod.meta.name)
          pods
  unfolding reconcile_prrs list_owned_prrs has_key
  reconcile_prrs-Has range_order pods s order = rw (store.listed s.world) (
      let owned = owned_prrs ppvpa.meta.uid (view s.world) in
      let m = by_pod_loop [] owned in
      cleaned-Has pods (range_order m)
        (keys_of owned (range_order m)
          (order (IsEntry owned) m (by_pod_loop-IsEntry owned [] owned tt (All-mem owned))))
        (create_missing client m ppvpa pods s)
        (create_missing-Has client ppvpa view store fresh m pods s
          (λ name h. sym (has_key-by_pod_loop [] owned name) ∙ h)).1)

  missing_none :
      (m : List (String × Prr Q)) (t : Session W Q) (pods : List (Pod Q))
      → ((name : String) → Has ppvpa view t name → has_key m name ≡ true)
      → All (λ pod. Has ppvpa view t pod.meta.name) pods
      → All
          (λ pod. has_key m pod.meta.name ≡ false → IsDeletion (create_prr (new_prr ppvpa pod)))
          pods
  missing_none m t [] h a = tt
  missing_none m t (p ∷ ps) h a =
      (λ e. both_ways (sym (h p.meta.name a.0) ∙ e), missing_none m t ps h a.1)

  orphan_writes :
      (live : List String) (es : List (String × Prr Q))
      → All (λ e. contains live e.0 ≡ false → IsDeletion (delete_prr e.1)) es
  orphan_writes live [] = tt
  orphan_writes live (e ∷ es) = (λ k. tt, orphan_writes live es)

  -- Where every pod has its PRR, a pass creates none.
  pub reconcile_prrs-deletions :
      (range_order : List (String × Prr Q) → List (String × Prr Q)) (pods : List (Pod Q))
      (t : Session W Q)
      → All (λ pod. Has ppvpa view t pod.meta.name) pods
      → (ws : List (Write Q)) × ((reconcile_prrs client range_order ppvpa pods t).0.issued
          ≡ t.issued ++ ws)
        × All IsDeletion ws
  unfolding reconcile_prrs list_owned_prrs has_key
  reconcile_prrs-deletions range_order pods t a = rw (store.listed t.world) (
      let owned = owned_prrs ppvpa.meta.uid (view t.world) in
      let m = by_pod_loop [] owned in
      only_bind IsDeletion (create_missing client m ppvpa pods)
        (λ _. delete_orphans client (names_of pods) (range_order m))
        (create_missing-only client IsDeletion m ppvpa pods
          (missing_none m t pods (λ name h. has_key-by_pod_loop [] owned name ∙ h) a))
        (λ _.
          delete_orphans-only client IsDeletion (names_of pods) (range_order m)
            (orphan_writes (names_of pods) (range_order m)))
        t)

  -- A pass that returned, and the next.
  settles_after :
      (range_order next_order : List (String × Prr Q) → List (String × Prr Q)) (pods : List (Pod Q))
      (s : Session W Q)
      → IsRangeOrder range_order
      → (reconcile_prrs client range_order ppvpa pods s).1 ≡ ok tt
      → let t = (reconcile_prrs client range_order ppvpa pods s).0 in
        ((reconcile_prrs client range_order ppvpa pods s).1 ≡ ok tt)
        × All (λ pod. Has ppvpa view t pod.meta.name) pods
        × (ws : List (Write Q)) × ((reconcile_prrs client next_order ppvpa pods t).0.issued
            ≡ t.issued ++ ws)
        × All IsDeletion ws
  settles_after range_order next_order pods s order e =
      let a = reconcile_prrs-Has range_order pods s order e in
      let (ws, g, d) = reconcile_prrs-deletions next_order pods _ a in (e, a, ws, g, d)

module _ {W Q : Type 0} (client : Client W Q) (ppvpa : Ppvpa Q) (view : W → List (Prr Q))
    (store : IsStore client ppvpa.meta.namespace view)
    (accepts : (w : W) (x : Write Q) → (client.write w x).1 ≡ none) where
  create_missing-ok :
      (m : List (String × Prr Q)) (pods : List (Pod Q)) (s : Session W Q)
      → (create_missing client m ppvpa pods s).1 ≡ ok tt
  unfolding create_missing create_for
  create_missing-ok m [] s = refl
  create_missing-ok m (pod ∷ pods) s = elim (Bool-cases (has_key m pod.meta.name)) [
    | inl e ↦ rw e (create_missing-ok m pods s)
    | inr e ↦ rw (e, accepts s.world (create_prr (new_prr ppvpa pod))) (create_missing-ok m pods _)
  ]

  delete_orphans-ok :
      (live : List String) (es : List (String × Prr Q)) (s : Session W Q)
      → (delete_orphans client live es s).1 ≡ ok tt
  unfolding delete_orphans delete_unless_live
  delete_orphans-ok live [] s = refl
  delete_orphans-ok live ((key, p) ∷ es) s = elim (Bool-cases (contains live key)) [
    | inl e ↦ rw e (delete_orphans-ok live es s)
    | inr e ↦ rw (e, accepts s.world (delete_prr p)) (delete_orphans-ok live es _)
  ]

  reconcile_prrs-ok :
      (range_order : List (String × Prr Q) → List (String × Prr Q)) (pods : List (Pod Q))
      (s : Session W Q)
      → (reconcile_prrs client range_order ppvpa pods s).1 ≡ ok tt
  unfolding reconcile_prrs list_owned_prrs
  reconcile_prrs-ok range_order pods s =
      let m = by_pod_loop [] (owned_prrs ppvpa.meta.uid (view s.world)) in
      rw (store.listed s.world, create_missing-ok m pods s) (delete_orphans-ok _ (range_order m) _)

  -- On a cluster that accepts every write and lists what was written, and where ranging over a map
  -- meets no entry outside it: a pass of reconcilePRRs returns without an error and leaves a PRR of
  -- the PP-VPA for every pod that it was given, and the next pass for these pods creates none, in
  -- whatever order it ranges over its map.
  pub reconcile_prrs-settles :
      (range_order next_order : List (String × Prr Q) → List (String × Prr Q)) (pods : List (Pod Q))
      (s : Session W Q)
      → IsRangeOrder range_order
      → let (t, r) = reconcile_prrs client range_order ppvpa pods s in
        (r ≡ ok tt)
        × All (λ pod. Has ppvpa view t pod.meta.name) pods
        × (ws : List (Write Q)) × ((reconcile_prrs client next_order ppvpa pods t).0.issued
            ≡ t.issued ++ ws)
        × All IsDeletion ws
  reconcile_prrs-settles range_order next_order pods s order =
      settles_after client ppvpa view store (λ w p e. absurd (refuses (accepts w (create_prr p)) e))
        range_order next_order pods s order (reconcile_prrs-ok range_order pods s)
    where
      refuses : {x : Option ApiError} → x ≡ none → x ≡ some already_exists → ⊥
      refuses e h = cc
