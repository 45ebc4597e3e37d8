-- ===== src/Webhook/Tests.antt =====
-- The webhook on a pod of the sample cluster.
use pp_vpa.Prelude.{◌≡◌, refl, [], ◌∷◌, ok, Returns}
use pp_vpa.Cluster.Samples.{sample_client, sample_pod, app_recommendation}
use pp_vpa.Webhook.{
  default_pod, find_ppvpa, owners_loop, deployment_owner, find_ppvpa_by_deployment, first_targeting,
  targets_deployment, use_upper, inject, match_container,
}
use pp_vpa.Webhook.Injection.{Answers, Admitted, default_pod-Admitted}

-- Two temporary replicas: the pod gets the upper bound.
injected :
    default_pod sample_client 0 (sample_pod "new")
    ≡ ok (record (sample_pod "new") {
      containers =
          record {
            container_name = "app";
            resources = record {
              requests = app_recommendation.upper_bound;
              limits = app_recommendation.upper_bound;
            };
          }
          ∷ [];
    })
unfolding default_pod find_ppvpa owners_loop deployment_owner find_ppvpa_by_deployment
    first_targeting targets_deployment use_upper inject match_container
injected = refl

sample_client-Answers : Answers sample_client 0
sample_client-Answers = record {
  ppvpas = λ namespace e. cc;
  prrs = λ namespace e. cc;
  replica_sets = λ namespace name e. cc;
}

default_pod-Admitted_example :
    Returns
      (Admitted sample_client 0 (sample_pod "new"))
      (default_pod sample_client 0 (sample_pod "new"))
default_pod-Admitted_example =
    default_pod-Admitted sample_client 0 sample_client-Answers (sample_pod "new")
