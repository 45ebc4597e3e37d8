-- ===== src/Controller/Garbage.antt =====
-- Which PRRs reconcilePRRs creates and deletes.
use mathlib.Core.List.{append-nil, Mem, mem-cons_self, mem-cons_of_mem}
use pp_vpa.Prelude.{
  ◌≡◌, refl, sym, subst, ◌∙◌, ◌⊎◌, inl, inr, Bool, true, false, Bool-cases, List, [], ◌∷◌, ◌++◌,
  map, String, str_eq, eq_iff, contains, Outcome, ok, err, panic, Outcome-cases, All, arith,
  if◌then◌else◌, ap,
}
use pp_vpa.Kube.{ApiError, is_not_found, is_already_exists}
use pp_vpa.Api.{Ppvpa, Prr}
use pp_vpa.Cluster.{Pod, Write, create_prr, delete_prr, Client, Session, issue}
use pp_vpa.Cluster.Writes.{OnlyWrites, only_nothing, only_issue, only_attempt, only_bind}
use pp_vpa.Controller.Prrs.{
  owned_prrs, put, has_key, by_pod_loop, new_prr, list_owned_prrs, tolerate, create_for,
  create_missing, delete_unless_live, delete_orphans, reconcile_prrs,
}

str_eq_trans : (a b c : String) → str_eq a b ≡ true → str_eq b c ≡ str_eq a c
str_eq_trans a b c h = ap (λ z. str_eq z c) (sym ((eq_iff a b).0 h))

str_eq_back : (k key t : String) → str_eq k key ≡ true → str_eq t key ≡ true → str_eq t k ≡ true
str_eq_back k key t h e = subst (λ z. str_eq t z ≡ true) (sym ((eq_iff k key).0 h)) e

module _ {Q : Type 0} where
  -- A PRR of the list is for the pod of this name.
  unfoldable pub targets : List (Prr Q) → String → Bool
  targets [] name = false
  targets (p ∷ ps) name = if str_eq p.spec.target_pod_name name then true else targets ps name

  -- One of the PRRs, for a pod that is not among `pods`.
  abbrev pub IsOrphan : List (Prr Q) → List (Pod Q) → Prr Q → Type 0
  IsOrphan prrs pods prr =
      Mem prr prrs × (contains (map (λ pod. pod.meta.name) pods) prr.spec.target_pod_name ≡ false)

  -- The PRR for one of `pods` that none of `prrs` is for.
  abbrev pub IsMissing : Ppvpa Q → List (Prr Q) → List (Pod Q) → Prr Q → Type 0
  IsMissing ppvpa prrs pods prr =
      (pod : Pod Q) × Mem pod pods
      × (prr ≡ new_prr ppvpa pod)
      × (targets prrs pod.meta.name ≡ false)

  abbrev pub IsAllowed : Ppvpa Q → List (Prr Q) → List (Pod Q) → Write Q → Type 0
  IsAllowed ppvpa prrs pods (create_prr prr) = IsMissing ppvpa prrs pods prr
  IsAllowed ppvpa prrs pods (delete_prr prr) = IsOrphan prrs pods prr
  IsAllowed ppvpa prrs pods w = ⊥

  -- Ranging over a map meets no entry that is not in it.
  abbrev pub IsRangeOrder : (List (String × Prr Q) → List (String × Prr Q)) → Type 1
  IsRangeOrder f = (P : String × Prr Q → Type 0) (m : List (String × Prr Q)) → All P m → All P (f m)

  -- An entry of the map: one of the PRRs, under the name of its pod.
  abbrev pub IsEntry : List (Prr Q) → String × Prr Q → Type 0
  IsEntry prrs e = Mem e.1 prrs × (str_eq e.1.spec.target_pod_name e.0 ≡ true)

  put-IsEntry :
      (prrs : List (Prr Q)) (m : List (String × Prr Q)) (key : String) (p : Prr Q)
      → All (IsEntry prrs) m
      → IsEntry prrs (key, p)
      → All (IsEntry prrs) (put m key p)
  unfolding put
  put-IsEntry prrs [] key p h e = (e, tt)
  put-IsEntry prrs ((k, v) ∷ m) key p h e = elim (Bool-cases (str_eq k key)) [
    | inl q ↦ rw q ((e.0, str_eq_back k key p.spec.target_pod_name q e.1), h.1)
    | inr q ↦ rw q (h.0, put-IsEntry prrs m key p h.1 e)
  ]

  has_key-put :
      (m : List (String × Prr Q)) (k s : String) (p : Prr Q)
      → has_key (put m k p) s ≡ (if has_key m s then true else str_eq k s)
  unfolding has_key put
  has_key-put [] k s p = ground arith
  has_key-put ((j, v) ∷ m) k s p = ground (arith, has_key-put m k s p, str_eq_trans j k s)

  pub has_key-by_pod_loop :
      (m : List (String × Prr Q)) (ps : List (Prr Q)) (s : String)
      → has_key (by_pod_loop m ps) s ≡ (if has_key m s then true else targets ps s)
  unfolding by_pod_loop targets
  has_key-by_pod_loop m [] s = ground arith
  has_key-by_pod_loop m (p ∷ ps) s = ground (
    arith,
    has_key-by_pod_loop (put m p.spec.target_pod_name p) ps s,
    has_key-put m p.spec.target_pod_name s p,
  )

  pub by_pod_loop-IsEntry :
      (prrs : List (Prr Q)) (m : List (String × Prr Q)) (ps : List (Prr Q))
      → All (IsEntry prrs) m
      → All (λ p. Mem p prrs) ps
      → All (IsEntry prrs) (by_pod_loop m ps)
  unfolding by_pod_loop
  by_pod_loop-IsEntry prrs m [] h k = h
  by_pod_loop-IsEntry prrs m (p ∷ ps) h k =
      by_pod_loop-IsEntry prrs (put m p.spec.target_pod_name p) ps
        (put-IsEntry prrs m p.spec.target_pod_name p h (k.0, (eq_iff _ _).1 refl)) k.1

module _ {ℓ} {A : Type ℓ} where
  All-mem_of : (ys xs : List A) → ((x : A) → Mem x ys → Mem x xs) → All (λ x. Mem x xs) ys
  All-mem_of [] xs f = tt
  All-mem_of (y ∷ ys) xs f =
      (f y mem-cons_self, All-mem_of ys xs (λ x m. f x (mem-cons_of_mem y m)))

  pub All-mem : (xs : List A) → All (λ x. Mem x xs) xs
  All-mem xs = All-mem_of xs xs (λ x m. m)

module _ {W Q : Type 0} (client : Client W Q) where
  tolerate-only :
      (P : Write Q → Type 0) (accept : ApiError → Bool) (r : Outcome ApiError (Unit {0}))
      → OnlyWrites P (tolerate client accept r)
  tolerate-only P accept (ok u) = only_nothing P (ok tt)
  tolerate-only P accept (err e) = elim (Bool-cases (accept e)) [
    | inl h ↦ rw h (only_nothing P (ok tt))
    | inr h ↦ rw h (only_nothing P {A = Unit {0}} (err e))
  ]
  tolerate-only P accept panic = only_nothing P {A = Unit {0}} panic

  create_for-only :
      (P : Write Q → Type 0) (by_pod : List (String × Prr Q)) (ppvpa : Ppvpa Q) (pod : Pod Q)
      → (has_key by_pod pod.meta.name ≡ false → P (create_prr (new_prr ppvpa pod)))
      → OnlyWrites P (create_for client by_pod ppvpa pod)
  unfolding create_for
  create_for-only P by_pod ppvpa pod h = elim (Bool-cases (has_key by_pod pod.meta.name)) [
    | inl e ↦ rw e (only_nothing P (ok tt))
    | inr e ↦ rw e (
        only_bind P _ _
          (only_attempt P {A = Unit {0}} (issue client (create_prr (new_prr ppvpa pod)))
            (only_issue P client (create_prr (new_prr ppvpa pod)) (h e)))
          (λ r. tolerate-only P is_already_exists r))
  ]

  pub create_missing-only :
      (P : Write Q → Type 0) (by_pod : List (String × Prr Q)) (ppvpa : Ppvpa Q)
      (pods : List (Pod Q))
      → All (λ pod. has_key by_pod pod.meta.name ≡ false → P (create_prr (new_prr ppvpa pod))) pods
      → OnlyWrites P (create_missing client by_pod ppvpa pods)
  unfolding create_missing
  create_missing-only P by_pod ppvpa [] h = only_nothing P (ok tt)
  create_missing-only P by_pod ppvpa (pod ∷ pods) h =
      only_bind P _ _ (create_for-only P by_pod ppvpa pod h.0)
        (λ _. create_missing-only P by_pod ppvpa pods h.1)

  delete_unless_live-only :
      (P : Write Q → Type 0) (live : List String) (e : String × Prr Q)
      → (contains live e.0 ≡ false → P (delete_prr e.1))
      → OnlyWrites P (delete_unless_live client live e)
  unfolding delete_unless_live
  delete_unless_live-only P live (k, p) h = elim (Bool-cases (contains live k)) [
    | inl e ↦ rw e (only_nothing P (ok tt))
    | inr e ↦ rw e (
        only_bind P _ _
          (only_attempt P {A = Unit {0}} (issue client (delete_prr p))
            (only_issue P client (delete_prr p) (h e)))
          (λ r. tolerate-only P is_not_found r))
  ]

  pub delete_orphans-only :
      (P : Write Q → Type 0) (live : List String) (es : List (String × Prr Q))
      → All (λ e. contains live e.0 ≡ false → P (delete_prr e.1)) es
      → OnlyWrites P (delete_orphans client live es)
  unfolding delete_orphans
  delete_orphans-only P live [] h = only_nothing P (ok tt)
  delete_orphans-only P live (e ∷ es) h =
      only_bind P _ _ (delete_unless_live-only P live e h.0)
        (λ _. delete_orphans-only P live es h.1)

module _ {Q : Type 0} where
  IsMissing-new_prr :
      (ppvpa : Ppvpa Q) (prrs : List (Prr Q)) (pods ps : List (Pod Q))
      → All (λ pod. Mem pod pods) ps
      → All
          (λ pod.
            has_key (by_pod_loop [] prrs) pod.meta.name ≡ false
            → IsMissing ppvpa prrs pods (new_prr ppvpa pod))
          ps
  unfolding targets has_key
  IsMissing-new_prr ppvpa prrs pods [] h = tt
  IsMissing-new_prr ppvpa prrs pods (p ∷ ps) h = (
    λ e. (p, h.0, refl, sym (has_key-by_pod_loop [] prrs p.meta.name) ∙ e),
    IsMissing-new_prr ppvpa prrs pods ps h.1,
  )

  IsOrphan-entry :
      (prrs : List (Prr Q)) (pods : List (Pod Q)) (es : List (String × Prr Q))
      → All (IsEntry prrs) es
      → All
          (λ e. contains (map (λ pod. pod.meta.name) pods) e.0 ≡ false → IsOrphan prrs pods e.1)
          es
  IsOrphan-entry prrs pods [] h = tt
  IsOrphan-entry prrs pods (e ∷ es) h = (
    λ q. (
      h.0.0,
      subst (λ z. contains (map (λ pod. pod.meta.name) pods) z ≡ false) (sym ((eq_iff _ _).0 h.0.1))
          q,
    ),
    IsOrphan-entry prrs pods es h.1,
  )

module _ {W Q : Type 0} (client : Client W Q) where
  -- Whatever the client answers, where ranging over a map meets no entry outside it: reconcilePRRs
  -- creates a PRR only for a pod it was given that no listed PRR of the PP-VPA is for, deletes
  -- only listed PRRs of the PP-VPA whose pod is not among those it was given, and writes nothing
  -- else; where the list fails it writes nothing.
  pub reconcile_prrs-IsAllowed :
      (range_order : List (String × Prr Q) → List (String × Prr Q)) (ppvpa : Ppvpa Q)
      (pods : List (Pod Q)) (s : Session W Q)
      → IsRangeOrder range_order
      → (ws : List (Write Q)) × ((reconcile_prrs client range_order ppvpa pods s).0.issued
          ≡ s.issued ++ ws)
        × ((ws ≡ [])
            ⊎ ((prrs : List (Prr Q)) × (client.list_prrs s.world ppvpa.meta.namespace ≡ ok prrs)
                × All (IsAllowed ppvpa (owned_prrs ppvpa.meta.uid prrs) pods) ws))
  unfolding reconcile_prrs list_owned_prrs
  reconcile_prrs-IsAllowed range_order ppvpa pods s order =
      elim (Outcome-cases (client.list_prrs s.world ppvpa.meta.namespace)) [
        | inl (prrs, f) ↦
            (let owned = owned_prrs ppvpa.meta.uid prrs in
              let P = IsAllowed ppvpa owned pods in
              let m = by_pod_loop [] owned in
              let (ws, e, h) =
                only_bind P (create_missing client m ppvpa pods)
                  (λ _. delete_orphans client (map (λ pod. pod.meta.name) pods) (range_order m))
                  (create_missing-only client P m ppvpa pods
                    (IsMissing-new_prr ppvpa owned pods pods (All-mem pods)))
                  (λ _. delete_orphans-only client P _ (range_order m) (
                    IsOrphan-entry owned pods (range_order m) (
                      order (IsEntry owned) m
                        (by_pod_loop-IsEntry owned [] owned tt (All-mem owned)))))
                  s in
              rw f (ws, e, inr (prrs, refl, h)))
        | inr (inl (x, f)) ↦ rw f ([], sym (append-nil s.issued), inl refl)
        | inr (inr f) ↦ rw f ([], sym (append-nil s.issued), inl refl)
      ]
