-- ===== src/Controller/SteadyTests.antt =====
-- reconcileReplicas on a cluster that is one Deployment.
use pp_vpa.Prelude.{ℕ, ◌≡◌, refl, none, some, ok, []}
use pp_vpa.Prelude.Int.{pos, ◌+ℤ◌, int32}
use pp_vpa.Cluster.{Deployment, Write, patch_deployment, Client, Session}
use pp_vpa.Cluster.Samples.{sample_client, sample_ppvpa, meta_of}
use pp_vpa.Controller.{desired_replicas, reconcile_replicas}
use pp_vpa.Controller.Steady.{KeepsPatch, IsSteady, reconcile_replicas-IsSteady}

abbrev patched : Deployment → Write ℕ → Deployment
patched w (patch_deployment new old) = new
patched w x = w

abbrev one_deployment : Client Deployment ℕ
one_deployment = record {
  get_ppvpa = λ w. sample_client.get_ppvpa 0;
  get_prr = λ w. sample_client.get_prr 0;
  get_pod = λ w. sample_client.get_pod 0;
  get_replica_set = λ w. sample_client.get_replica_set 0;
  get_deployment = λ w namespace name. ok w;
  get_checkpoint = λ w. sample_client.get_checkpoint 0;
  list_ppvpas = λ w. sample_client.list_ppvpas 0;
  list_prrs = λ w. sample_client.list_prrs 0;
  list_pods = λ w. sample_client.list_pods 0;
  list_replica_sets = λ w. sample_client.list_replica_sets 0;
  write = λ w x. (patched w x, none);
}

one_deployment-KeepsPatch : KeepsPatch one_deployment "default" "web"
one_deployment-KeepsPatch = record { accepts = λ w new old. refl; reads = λ w new old e. refl }

abbrev before : Session Deployment ℕ
before = record {
  world = record { meta = meta_of "web" "web-uid" []; replicas = some (pos 3) };
  issued = [];
}

reconcile_replicas-IsSteady_example :
    let (t, r) = reconcile_replicas one_deployment (sample_ppvpa 2) before in
    (r ≡ ok tt)
    × IsSteady one_deployment (sample_ppvpa 2) t.world
    × (reconcile_replicas one_deployment (sample_ppvpa 2) t ≡ (t, ok tt))
unfolding desired_replicas int32 ◌+ℤ◌
reconcile_replicas-IsSteady_example =
    reconcile_replicas-IsSteady one_deployment (sample_ppvpa 2) one_deployment-KeepsPatch refl refl
      before.world before refl
