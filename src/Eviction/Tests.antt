-- ===== src/Eviction/Tests.antt =====
-- One step of the budgeted fallback, and one of the anomaly handler, on the sample cluster.
use pp_vpa.Prelude.{ℕ, ◌≡◌, refl, none, some, [], ◌∷◌, All, arith, ok, err}
use pp_vpa.Prelude.Int.{pos, ◌+ℤ◌, int32}
use pp_vpa.Clock.{epoch}
use pp_vpa.Kube.{not_found}
use pp_vpa.Api.{Ppvpa}
use pp_vpa.Cluster.{Write, Client, patch_ppvpa_status, evict_pod}
use pp_vpa.Cluster.Samples.{sample_client, sample_ppvpa, sample_prr, sample_pod, start}
use pp_vpa.Eviction.{
  Scaling, handle_budgeted, with_temporary, max_surge, resolve_budget, find_surge_pod, surge_loop,
  replace_target, pod_ready, target_pod, release, bump,
}
use pp_vpa.Eviction.Progress.{rounds, rounds-reach}
use pp_vpa.Eviction.Budget.{
  Round, Extends, KeepsWithin, handle_budgeted-Round, handle_budgeted-KeepsWithin,
}

-- A budget of two pods.
abbrev two_pods : Scaling
two_pods = λ b base round_up. some (pos 2)

budget_used :
    (handle_budgeted sample_client two_pods epoch (sample_ppvpa 2) (sample_prr "a") start).0.issued
    ≡ evict_pod (sample_pod "a")
      ∷ patch_ppvpa_status (with_temporary (sample_ppvpa 2) (pos 1)) (sample_ppvpa 2)
      ∷ []
unfolding handle_budgeted max_surge resolve_budget int32 find_surge_pod surge_loop replace_target
    pod_ready target_pod release
budget_used = refl

budget_left :
    (handle_budgeted sample_client two_pods epoch (sample_ppvpa 1) (sample_prr "a") start).0.issued
    ≡ patch_ppvpa_status (with_temporary (sample_ppvpa 1) (pos 2)) (sample_ppvpa 1) ∷ []
unfolding handle_budgeted max_surge resolve_budget int32 bump ◌+ℤ◌
budget_left = refl

handle_budgeted-Round_example :
    Extends sample_client start
      (Round sample_client two_pods epoch 0 (sample_ppvpa 2) (sample_prr "a"))
      (handle_budgeted sample_client two_pods epoch (sample_ppvpa 2) (sample_prr "a") start)
handle_budgeted-Round_example =
    handle_budgeted-Round sample_client two_pods epoch (sample_ppvpa 2) (sample_prr "a") start

two : max_surge two_pods (sample_ppvpa 1) ≡ pos 2
unfolding max_surge resolve_budget int32
two = refl

handle_budgeted-KeepsWithin_example :
    Extends sample_client start
      (All (KeepsWithin sample_client 2))
      (handle_budgeted sample_client two_pods epoch (sample_ppvpa 1) (sample_prr "a") start)
handle_budgeted-KeepsWithin_example =
    handle_budgeted-KeepsWithin sample_client two_pods epoch (sample_ppvpa 1) (sample_prr "a") start
      1 2 refl two (omega arith)

-- A cluster that is one PP-VPA: it stores what it is sent as a status, and knows nothing else.
abbrev stored : Ppvpa ℕ → Write ℕ → Ppvpa ℕ
stored w (patch_ppvpa_status p q) = p
stored w _ = w

abbrev store_client : Client (Ppvpa ℕ) ℕ
store_client = record {
  get_ppvpa = λ w namespace name. ok w;
  get_prr = λ w namespace name. err not_found;
  get_pod = λ w namespace name. err not_found;
  get_replica_set = λ w namespace name. err not_found;
  get_deployment = λ w namespace name. err not_found;
  get_checkpoint = λ w namespace name. err not_found;
  list_ppvpas = λ w namespace. ok (w ∷ []);
  list_prrs = λ w namespace. ok [];
  list_pods = λ w namespace. ok [];
  list_replica_sets = λ w namespace. ok [];
  write = λ w x. (stored w x, none);
}

none_yet : max_surge two_pods (sample_ppvpa 0) ≡ pos 2
unfolding max_surge resolve_budget int32
none_yet = refl

rounds-reach_example :
    store_client.get_ppvpa
      (rounds store_client two_pods epoch
        (sample_prr "a")
        "default"
        "vpa"
        2
        (record { world = sample_ppvpa 0; issued = [] })).0.world
      "default"
      "vpa"
    ≡ ok (with_temporary (sample_ppvpa 0) (pos 2))
rounds-reach_example =
    rounds-reach store_client two_pods epoch (sample_prr "a") "default" "vpa"
      (record { accepts = λ w p q. refl; keeps = λ w p q e. refl }) 2 0 2 (sample_ppvpa 0)
      (record { world = sample_ppvpa 0; issued = [] }) refl refl none_yet (omega arith)
      (omega arith)
