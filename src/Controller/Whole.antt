-- ===== src/Controller/Whole.antt =====
-- What one Reconcile of a PP-VPA writes, through all of its stages.
use mathlib.Core.List.{append-nil, append_assoc}
use pp_vpa.Prelude.{
  ◌≡◌, ◌≢◌, refl, sym, ap, ◌∙◌, ◌⊎◌, inl, inr, true, false, Bool-cases, List, [], ◌∷◌, ◌++◌, String,
  Outcome, ok, err, panic, Outcome-cases, if◌then◌else◌, contains,
}
use pp_vpa.Float.{Float}
use pp_vpa.Clock.{Time}
use pp_vpa.Histogram.Codec.{Codec, Checkpoint}
use pp_vpa.Kube.{Quantities, ApiError, is_not_found}
use pp_vpa.Api.{Ppvpa, Prr}
use pp_vpa.Cluster.{Pod, Write, update_ppvpa, Client, Session, Call, ◌>>=◌}
use pp_vpa.Controller.Prrs.{reconcile_prrs}
use pp_vpa.Controller.Garbage.{IsRangeOrder, reconcile_prrs-IsAllowed}
use pp_vpa.Controller.Replicas.{finalize_lem}
use pp_vpa.Controller.Stages.{
  Targeted, targeted_pods-Targeted, finalized, finalizer_write, ensure_finalizer_lem,
}
use pp_vpa.Controller.{
  Requeue, ppvpa_finalizer, strip_finalizer, is_deleted, targeted_pods, ensure_finalizer,
  reconcile_live, reconcile_found, reconcile_ppvpa,
}
use pp_vpa.Controller.Flow.{
  After, Advised, Collected, Served, Reconciled, then_stage, stage, both, Adds, advise_next,
  advise_next-Advised,
}

module _ {F W Q : Type 0} ⦃float : Float F⦄ (codec : Codec (Checkpoint F))
    (quantities : Quantities Q) (client : Client W Q)
    (range_order : List (String × Prr Q) → List (String × Prr Q))
    (order : IsRangeOrder range_order) where
  abbrev prrs_next : Time → Ppvpa Q → List (Pod Q) → Call W Q Requeue
  prrs_next now p pods s =
      then_stage codec quantities client range_order 30
        (advise_next codec quantities client range_order now p)
        (reconcile_prrs client range_order p pods s)

  prrs_next-Collected :
      (now : Time) (p : Ppvpa Q) (pods : List (Pod Q)) (s : Session W Q)
      → Adds codec quantities client range_order
          (Collected codec quantities client range_order now p pods s)
          s
          (prrs_next now p pods s).0
  prrs_next-Collected now p pods s =
      let r = reconcile_prrs client range_order p pods s in
      let (ws, e, h) = reconcile_prrs-IsAllowed client range_order p pods s order in
      let (vs, f, k) =
        stage codec quantities client range_order 30
          (advise_next codec quantities client range_order now p)
          (λ _ t. Advised codec quantities client range_order now p t) r
          (λ a _. advise_next-Advised codec quantities client range_order now p a r.0) in
      (
        ws ++ vs,
        both codec quantities client range_order s r.0 (prrs_next now p pods s).0 ws vs e f,
        record { garbage = ws; rest = vs; in_order = refl; run = e; of_garbage = h; onward = k },
      )

  reconcile_live-Served :
      (now : Time) (p : Ppvpa Q) (s : Session W Q)
      → Adds codec quantities client range_order
          (Served codec quantities client range_order now p s)
          s
          (reconcile_live codec quantities client range_order now p s).0
  unfolding reconcile_live
  reconcile_live-Served now p s =
      let r = targeted_pods client p s in
      let (same, good) = targeted_pods-Targeted client p s in
      let (ws, e, k) =
        stage codec quantities client range_order 30 (prrs_next now p)
          (λ pods t ws.
            Targeted client p s.world pods
            × (t ≡ s)
            × Collected codec quantities client range_order now p pods t ws)
          r
          (λ pods h.
            (let (ws, e, c) = prrs_next-Collected now p pods r.0 in
              (ws, e, (good pods h, same, c)))) in
      (ws, e ∙ ap (λ z. z.issued ++ ws) same, k)

  found-Reconciled :
      (now : Time) (p : Ppvpa Q) (s : Session W Q)
      → Adds codec quantities client range_order
          (Reconciled codec quantities client range_order now p s)
          s
          ((ensure_finalizer codec quantities client p
              >>= (λ q. reconcile_live codec quantities client range_order now q))
            s).0
  found-Reconciled now p s =
      let (e, good) = ensure_finalizer_lem codec quantities client p s in
      let (vs, f, k) = go (ensure_finalizer codec quantities client p s) good in
      (
        finalizer_write p ++ vs,
        f ∙ ap (λ z. z ++ vs) e ∙ append_assoc s.issued (finalizer_write p) vs,
        record { rest = vs; in_order = refl; onward = k },
      )
    where
      go :
          (r : Session W Q × Outcome ApiError (Ppvpa Q))
          → ((q : Ppvpa Q) → r.1 ≡ ok q → q ≡ finalized p)
          → Adds codec quantities client range_order
              (After client r (λ q t vs.
                (q ≡ finalized p) × Served codec quantities client range_order now q t vs))
              r.0
              (((λ (z : Session W Q). r)
                  >>= (λ q. reconcile_live codec quantities client range_order now q))
                s).0
      go (t, ok q) good =
          let (ws, e, k) = reconcile_live-Served now q t in (ws, e, inl (q, refl, (good q refl, k)))
      go (t, err x) good = ([], sym (append-nil t.issued), inr (λ q h. cc, refl))
      go (t, panic) good = ([], sym (append-nil t.issued), inr (λ q h. cc, refl))

  -- Whatever the client answers, where ranging over a map meets no entry outside it: a Reconcile of a
  -- PP-VPA that it cannot read writes nothing. Of one that is being deleted, it issues the update
  -- without the finalizer where that is there, and nothing else. Of any other, it issues the update
  -- with the finalizer where that is missing; then, for the pods that the Deployment targets in the
  -- cluster as it is then, what reconcilePRRs writes there: creations and deletions of PRRs by the
  -- list it reads; then what reconcileRecommendation writes in the cluster that this leaves: one
  -- patch of the status with what Recommend returns for the PP-VPA's PRRs in the list of that
  -- moment, or nothing where it fails; then what reconcileReplicas writes in the cluster after that,
  -- by the Deployment it reads. Each stage runs exactly where the one before it gave a value.
  pub reconcile_ppvpa-Reconciled :
      (now : Time) (namespace name : String) (s : Session W Q)
      → let read = client.get_ppvpa s.world namespace name in
        (ws : List (Write Q)) × ((reconcile_ppvpa codec quantities client range_order now namespace
            name s).0.issued
          ≡ s.issued ++ ws)
        × (((ws ≡ []) × ((p : Ppvpa Q) → read ≢ ok p))
            ⊎ ((p : Ppvpa Q) × (read ≡ ok p)
                × (is_deleted p ≡ true)
                × (ws ≡ (
                    if contains p.meta.finalizers ppvpa_finalizer
                    then update_ppvpa (strip_finalizer p) ∷ []
                    else [])))
            ⊎ ((p : Ppvpa Q) × (read ≡ ok p)
                × (is_deleted p ≡ false)
                × Reconciled codec quantities client range_order now p s ws))
  unfolding reconcile_ppvpa reconcile_found
  reconcile_ppvpa-Reconciled now namespace name s =
      elim (Outcome-cases (client.get_ppvpa s.world namespace name)) [
        | inr (inl (x, e)) ↦ elim (Bool-cases (is_not_found x)) [
          | inl k ↦ rw (e, k) ([], sym (append-nil s.issued), inl (refl, λ p h. cc))
          | inr k ↦ rw (e, k) ([], sym (append-nil s.issued), inl (refl, λ p h. cc))
        ]
        | inr (inr e) ↦ rw e ([], sym (append-nil s.issued), inl (refl, λ p h. cc))
        | inl (p, e) ↦ elim (Bool-cases (is_deleted p)) [
          | inl d ↦
              (let (ws, f, k, _) = finalize_lem client p s in
                rw (e, d) (ws, f, inr (inl (p, refl, d, k))))
          | inr d ↦
              (let (ws, f, k) = found-Reconciled now p s in
                rw (e, d) (ws, f, inr (inr (p, refl, d, k))))
        ]
      ]
