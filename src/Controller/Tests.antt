-- ===== src/Controller/Tests.antt =====
-- The PP-VPA reconciler's stages on the sample cluster.
use pp_vpa.Prelude.{
  true, ◌≢◌, if◌then◌else◌, false, ℕ, ◌≡◌, refl, ◌⊎◌, some, List, [], ◌∷◌, ◌++◌, contains, All, ok,
}
use pp_vpa.Prelude.Int.{pos, ◌+ℤ◌, int32}
use pp_vpa.Cluster.{Deployment, Write, create_prr, delete_prr, patch_deployment, update_ppvpa}
use pp_vpa.Cluster.Samples.{sample_client, sample_ppvpa, sample_prr, sample_pod, start, meta_of}
use pp_vpa.Controller.Prrs.{
  owned_prrs, is_owned_by, put, has_key, by_pod_loop, new_prr, list_owned_prrs, create_for,
  create_missing, delete_unless_live, delete_orphans, reconcile_prrs,
}
use pp_vpa.Controller.{
  ppvpa_finalizer, strip_finalizer, reconcile_replicas, scale_deployment, desired_replicas,
  is_deleted, reconcile_ppvpa,
}
use pp_vpa.Clock.{epoch}
use pp_vpa.Patcher.Tests.{amounts}
use pp_vpa.Api.{Ppvpa}
use pp_vpa.Controller.Flow.{Reconciled}
use pp_vpa.Controller.Whole.{reconcile_ppvpa-Reconciled}
use pp_vpa.Controller.Garbage.{IsAllowed, reconcile_prrs-IsAllowed}
use pp_vpa.Controller.Checkpointing.{reconcile_checkpoint}
use pp_vpa.Controller.Stored.{Stored, reconcile_checkpoint-Stored}
use pp_vpa.Float.Fixed.{fixed_float}
use pp_vpa.Histogram.Tests.{listing}
use pp_vpa.Recommender.PayloadTests.{stacking}
use pp_vpa.Controller.Replicas.{Scaled, reconcile_replicas-Scaled}

one_to_one :
    (reconcile_prrs sample_client
      (λ m. m)
      (sample_ppvpa 2)
      (sample_pod "a" ∷ sample_pod "b" ∷ [])
      start).0.issued
    ≡ create_prr (new_prr (sample_ppvpa 2) (sample_pod "b")) ∷ delete_prr (sample_prr "gone") ∷ []
unfolding reconcile_prrs list_owned_prrs owned_prrs is_owned_by by_pod_loop put has_key
    create_missing create_for delete_orphans delete_unless_live
one_to_one = refl

reconcile_prrs-IsAllowed_example :
    (ws : List (Write ℕ)) × ((reconcile_prrs sample_client
        (λ m. m)
        (sample_ppvpa 2)
        (sample_pod "a" ∷ sample_pod "b" ∷ [])
        start).0.issued
      ≡ ws)
    × ((ws ≡ [])
        ⊎ ((prrs : _) × (sample_client.list_prrs 0 "default" ≡ ok prrs)
            × All
                (IsAllowed
                  (sample_ppvpa 2)
                  (owned_prrs "vpa-uid" prrs)
                  (sample_pod "a" ∷ sample_pod "b" ∷ []))
                ws))
reconcile_prrs-IsAllowed_example =
    reconcile_prrs-IsAllowed sample_client (λ m. m) (sample_ppvpa 2)
      (sample_pod "a" ∷ sample_pod "b" ∷ []) start (λ P m h. h)

grown :
    (reconcile_replicas sample_client (sample_ppvpa 2) start).0.issued
    ≡ patch_deployment
        (record { meta = meta_of "web" "web-uid" []; replicas = some (pos 5) })
        (record { meta = meta_of "web" "web-uid" []; replicas = some (pos 3) })
      ∷ []
unfolding reconcile_replicas scale_deployment desired_replicas int32 ◌+ℤ◌
grown = refl

reconcile_replicas-Scaled_example :
    (ws : List (Write ℕ)) × ((reconcile_replicas sample_client (sample_ppvpa 2) start).0.issued
      ≡ ws)
    × ((ws ≡ [])
        ⊎ ((dep : Deployment) × (sample_client.get_deployment 0 "default" "web" ≡ ok dep)
            × Scaled (sample_ppvpa 2) dep ws))
reconcile_replicas-Scaled_example = reconcile_replicas-Scaled sample_client (sample_ppvpa 2) start

reconcile_checkpoint-Stored_example :
    (ws : List (Write ℕ)) × ((reconcile_checkpoint listing stacking sample_client 5 6 "default"
        "vpa" start).0.issued
      ≡ [] ++ ws)
    × ((((p : Ppvpa ℕ) → sample_client.get_ppvpa 0 "default" "vpa" ≢ ok p) × (ws ≡ []))
        ⊎ ((p : Ppvpa ℕ) × (sample_client.get_ppvpa 0 "default" "vpa" ≡ ok p)
            × (is_deleted p ≡ true)
            × (ws ≡ []))
        ⊎ ((p : Ppvpa ℕ) × (sample_client.get_ppvpa 0 "default" "vpa" ≡ ok p)
            × (is_deleted p ≡ false)
            × Stored listing stacking sample_client 0 5 6 p ws))
reconcile_checkpoint-Stored_example =
    reconcile_checkpoint-Stored listing stacking sample_client 5 6 "default" "vpa" start

reconcile_ppvpa-Reconciled_example :
    (ws : List (Write ℕ)) × ((reconcile_ppvpa listing amounts sample_client
        (λ m. m)
        epoch
        "default"
        "vpa"
        start).0.issued
      ≡ [] ++ ws)
    × (((ws ≡ []) × ((p : Ppvpa ℕ) → sample_client.get_ppvpa 0 "default" "vpa" ≢ ok p))
        ⊎ ((p : Ppvpa ℕ) × (sample_client.get_ppvpa 0 "default" "vpa" ≡ ok p)
            × (is_deleted p ≡ true)
            × (ws ≡ (
                if contains p.meta.finalizers ppvpa_finalizer
                then update_ppvpa (strip_finalizer p) ∷ []
                else [])))
        ⊎ ((p : Ppvpa ℕ) × (sample_client.get_ppvpa 0 "default" "vpa" ≡ ok p)
            × (is_deleted p ≡ false)
            × Reconciled listing amounts sample_client (λ m. m) epoch p start ws))
reconcile_ppvpa-Reconciled_example =
    reconcile_ppvpa-Reconciled listing amounts sample_client (λ m. m) (λ P m h. h) epoch "default"
      "vpa" start
