-- ===== src/Eviction/Budget.antt =====
-- What one call of the handlers writes, and what it does to the count of temporary replicas.
use pp_vpa.Prelude.{
  ℕ, zero, suc, ◌+◌, ◌<◌, ◌≤◌, ◌^◌, ◌≡◌, refl, ◌⊎◌, inl, inr, true, false, Bool-cases, List, [],
  ◌∷◌, ◌++◌, Outcome, ok, Outcome-cases, arith, All, max, sym, subst, Option-cases,
}
use pp_vpa.Prelude.Int.{ℤ, pos, ◌+ℤ◌, ltb_ℤ, int32}
use mathlib.Core.List.{append-nil, append_assoc}
use pp_vpa.Clock.{Time}
use pp_vpa.Kube.{ApiError, is_not_found}
use pp_vpa.Api.{Ppvpa, Prr}
use pp_vpa.Cluster.{Pod, Write, patch_ppvpa_status, evict_pod, Client, Session}
use pp_vpa.Eviction.{
  Scaling, surge_loop, surge_ready, burst_over, max_surge, less_one, with_temporary, find_surge_pod,
  target_pod, handle_anomaly, handle_budgeted, replace_target, bump, release,
}

abbrev pub released : {Q : Type 0} → Ppvpa Q → Write Q
released ppvpa =
    patch_ppvpa_status (with_temporary ppvpa (less_one ppvpa.status.temporary_replicas)) ppvpa

module _ {W Q : Type 0} (client : Client W Q) where
  -- The writes of one call of Handle in the cluster `w`, with the reasons for them.
  pub data Round (scaled : Scaling) (now : Time) (w : W) (ppvpa : Ppvpa Q) (prr : Prr Q)
      : List (Write Q) → Type 0 where
    idle : Round scaled now w ppvpa prr []
    bumped :
        ltb_ℤ ppvpa.status.temporary_replicas (max_surge scaled ppvpa) ≡ true
        → Round scaled now w ppvpa prr (
            patch_ppvpa_status
              (with_temporary ppvpa (int32 (ppvpa.status.temporary_replicas +ℤ pos 1)))
              ppvpa
            ∷ [])
    rolled_back :
        ltb_ℤ ppvpa.status.temporary_replicas (max_surge scaled ppvpa) ≡ false
        → (pods : List (Pod Q)) → client.list_pods w ppvpa.meta.namespace ≡ ok pods
        → surge_ready (surge_loop pods) ≡ false
        → burst_over ppvpa prr now ≡ true
        → Round scaled now w ppvpa prr (released ppvpa ∷ [])
    evicted :
        ltb_ℤ ppvpa.status.temporary_replicas (max_surge scaled ppvpa) ≡ false
        → (pods : List (Pod Q)) (pod : Pod Q) (rest : List (Write Q))
        → client.list_pods w ppvpa.meta.namespace ≡ ok pods
        → surge_ready (surge_loop pods) ≡ true
        → client.get_pod w prr.meta.namespace prr.spec.target_pod_name ≡ ok pod
        → (rest ≡ []) ⊎ (rest ≡ released ppvpa ∷ [])
        → Round scaled now w ppvpa prr (evict_pod pod ∷ rest)

  -- A call extends the log of its session by writes that satisfy `P`.
  abbrev pub Extends :
      {A : Type 0}
      → Session W Q
      → (List (Write Q) → Type 0)
      → Session W Q × Outcome ApiError A
      → Type 0
  Extends s P r = (ws : List (Write Q)) × (r.0.issued ≡ s.issued ++ ws) × P ws

  pub handle_budgeted-Round :
      (scaled : Scaling) (now : Time) (ppvpa : Ppvpa Q) (prr : Prr Q) (s : Session W Q)
      → Extends s
          (Round scaled now s.world ppvpa prr)
          (handle_budgeted client scaled now ppvpa prr s)
  unfolding handle_budgeted find_surge_pod replace_target bump release target_pod
  handle_budgeted-Round scaled now ppvpa prr s =
      elim (Bool-cases (ltb_ℤ ppvpa.status.temporary_replicas (max_surge scaled ppvpa))) [
        | inl e ↦ rw e (_, refl, bumped e)
        | inr e ↦ elim (Outcome-cases (client.list_pods s.world ppvpa.meta.namespace)) [
          | inl (pods, f) ↦ elim (Bool-cases (surge_ready (surge_loop pods))) [
            | inl g ↦ with_surge e pods f g
            | inr g ↦ elim (Bool-cases (burst_over ppvpa prr now)) [
              | inl h ↦ rw (e, f, g, h) (_, refl, rolled_back e pods f g h)
              | inr h ↦ rw (e, f, g, h) ([], sym (append-nil _), idle)
            ]
          ]
          | inr (inl (x, f)) ↦ rw (e, f) ([], sym (append-nil _), idle)
          | inr (inr f) ↦ rw (e, f) ([], sym (append-nil _), idle)
        ]
      ]
    where
      with_surge :
          ltb_ℤ ppvpa.status.temporary_replicas (max_surge scaled ppvpa) ≡ false
          → (pods : List (Pod Q)) → client.list_pods s.world ppvpa.meta.namespace ≡ ok pods
          → surge_ready (surge_loop pods) ≡ true
          → Extends s
              (Round scaled now s.world ppvpa prr)
              (handle_budgeted client scaled now ppvpa prr s)
      with_surge e pods f g =
          elim (Outcome-cases
            (client.get_pod s.world prr.meta.namespace prr.spec.target_pod_name)) [
              | inl (pod, h) ↦ elim (Option-cases (client.write s.world (evict_pod pod)).1) [
                | inl i ↦
                    rw (e, f, g, h, i)
                      (
                        evict_pod pod ∷ released ppvpa ∷ [],
                        append_assoc s.issued (evict_pod pod ∷ []) (released ppvpa ∷ []),
                        evicted e pods pod (released ppvpa ∷ []) f g h (inr refl),
                      )
                | inr (x, i) ↦
                    rw (e, f, g, h, i)
                      (evict_pod pod ∷ [], refl, evicted e pods pod [] f g h (inl refl))
              ]
              | inr (inl (x, h)) ↦ elim (Bool-cases (is_not_found x)) [
                | inl i ↦ rw (e, f, g, h, i) ([], sym (append-nil _), idle)
                | inr i ↦ rw (e, f, g, h, i) ([], sym (append-nil _), idle)
              ]
              | inr (inr h) ↦ rw (e, f, g, h) ([], sym (append-nil _), idle)
            ]

  -- A write of the status leaves the count of temporary replicas between 0 and the bound.
  abbrev pub KeepsWithin : ℕ → Write Q → Type 0
  KeepsWithin bound (patch_ppvpa_status new old) =
      (n : ℕ) × (new.status.temporary_replicas ≡ pos n) × (n ≤ bound)
  KeepsWithin bound w = Unit {0}

  bump-pos : (t m : ℕ) → t < m → m < 2 ^ 31 → int32 (pos t +ℤ pos 1) ≡ pos (t + 1)
  unfolding int32 ◌+ℤ◌
  bump-pos t m h k = ground arith

  lt_of_pos : (t m : ℕ) → ltb_ℤ (pos t) (pos m) ≡ true → t < m
  lt_of_pos t m h = ground arith

  lt_of_ltb : (x y : ℤ) (t m : ℕ) → x ≡ pos t → y ≡ pos m → ltb_ℤ x y ≡ true → t < m
  lt_of_ltb x y t m p q h =
      lt_of_pos t m (subst (λ z. ltb_ℤ z (pos m) ≡ true) p (subst (λ z. ltb_ℤ x z ≡ true) q h))

  less_one-le : (t : ℕ) → (n : ℕ) × (less_one (pos t) ≡ pos n) × (n ≤ t)
  less_one-le zero = (0, refl, omega arith)
  less_one-le (suc t) = (t, refl, omega arith)

  released-KeepsWithin :
      (ppvpa : Ppvpa Q) (t bound : ℕ)
      → ppvpa.status.temporary_replicas ≡ pos t
      → t ≤ bound
      → KeepsWithin bound (released ppvpa)
  released-KeepsWithin ppvpa t bound p h =
      let (n, e, l) = less_one-le t in rw p (n, e, omega (arith, l, h))

  Round-KeepsWithin :
      {scaled : Scaling} {now : Time} {w : W} {ppvpa : Ppvpa Q} {prr : Prr Q} {ws : List (Write Q)}
      (t m : ℕ)
      → ppvpa.status.temporary_replicas ≡ pos t
      → max_surge scaled ppvpa ≡ pos m
      → m < 2 ^ 31
      → Round scaled now w ppvpa prr ws
      → All (KeepsWithin (max t m)) ws
  Round-KeepsWithin t m p q k idle = tt
  Round-KeepsWithin t m p q k (bumped h) =
      let l : t < m = lt_of_ltb _ _ t m p q h in
      (rw p (t + 1, bump-pos t m l k, omega (arith, l)), tt)
  Round-KeepsWithin {ppvpa} t m p q k (rolled_back h pods f g b) =
      (released-KeepsWithin ppvpa t (max t m) p (omega arith), tt)
  Round-KeepsWithin t m p q k (evicted h pods pod rest f g b (inl e)) = rw e (tt, tt)
  Round-KeepsWithin {ppvpa} t m p q k (evicted h pods pod rest f g b (inr e)) =
      rw e (tt, (released-KeepsWithin ppvpa t (max t m) p (omega arith), tt))

  -- Where the temporary replicas are t, not negative, and the budget is m, below 2^31, every
  -- status that Handle writes has between 0 and max(t, m) temporary replicas.
  pub handle_budgeted-KeepsWithin :
      (scaled : Scaling) (now : Time) (ppvpa : Ppvpa Q) (prr : Prr Q) (s : Session W Q) (t m : ℕ)
      → ppvpa.status.temporary_replicas ≡ pos t
      → max_surge scaled ppvpa ≡ pos m
      → m < 2 ^ 31
      → Extends s (All (KeepsWithin (max t m))) (handle_budgeted client scaled now ppvpa prr s)
  handle_budgeted-KeepsWithin scaled now ppvpa prr s t m p q k =
      let (ws, e, r) = handle_budgeted-Round scaled now ppvpa prr s in
      (ws, e, Round-KeepsWithin t m p q k r)

  -- The anomaly handler, whatever the client answers, evicts the target pod of the PRR as the
  -- client returned it, or writes nothing.
  pub handle_anomaly_lem :
      (ppvpa : Ppvpa Q) (prr : Prr Q) (s : Session W Q)
      → Extends s
          (λ ws.
            (ws ≡ [])
            ⊎ ((pod : Pod Q) × (client.get_pod s.world prr.meta.namespace prr.spec.target_pod_name
                  ≡ ok pod)
                × (ws ≡ evict_pod pod ∷ [])))
          (handle_anomaly client ppvpa prr s)
  unfolding handle_anomaly target_pod
  handle_anomaly_lem ppvpa prr s =
      elim (Outcome-cases (client.get_pod s.world prr.meta.namespace prr.spec.target_pod_name)) [
        | inl (pod, h) ↦ rw h (_, refl, inr (pod, refl, refl))
        | inr (inl (x, h)) ↦ elim (Bool-cases (is_not_found x)) [
          | inl i ↦ rw (h, i) ([], sym (append-nil _), inl refl)
          | inr i ↦ rw (h, i) ([], sym (append-nil _), inl refl)
        ]
        | inr (inr h) ↦ rw h ([], sym (append-nil _), inl refl)
      ]
