-- ===== src/Cluster/Samples.antt =====
-- A small cluster to run the handlers on: one workload, its pods and their PRRs, and a client that counts writes.
use pp_vpa.Prelude.{ℕ, suc, true, none, some, List, [], ◌∷◌, String, ok}
use pp_vpa.Prelude.Int.{pos}
use pp_vpa.Clock.{epoch}
use pp_vpa.Kube.{ObjectMeta, OwnerReference, condition_true, ResourceList, int_value}
use pp_vpa.Api.{Ppvpa, PpvpaSpec, Prr, in_place, Recommendation, ContainerRecommendation}
use pp_vpa.Cluster.{Client, Pod, Session}
use pp_vpa.Eviction.{annotation_surge_pod}

abbrev owner : String → String → String → OwnerReference
owner kind name uid = record {
  api_version = "";
  kind = kind;
  name = name;
  uid = uid;
  controller = some true;
}

abbrev pub meta_of : String → String → List OwnerReference → ObjectMeta
meta_of name uid owners = record {
  namespace = "default";
  name = name;
  uid = uid;
  creation_timestamp = epoch;
  deletion_timestamp = none;
  finalizers = "autoscaling.brycemclachlan.me/ppvpa-finalizer" ∷ "other" ∷ [];
  annotations = [];
  owner_references = owners;
}

abbrev amount : ℕ → ResourceList ℕ
amount n = record { cpu = some n; memory = some n }

abbrev pub app_recommendation : ContainerRecommendation ℕ
app_recommendation = record {
  container_name = "app";
  lower_bound = amount 1;
  target = amount 2;
  uncapped_target = amount 2;
  upper_bound = amount 3;
}

abbrev recommendation : Recommendation ℕ
recommendation = record {
  pod_level_target = amount 2;
  pod_level = record {
    lower_bound = amount 1;
    target = amount 2;
    uncapped_target = amount 2;
    upper_bound = amount 3;
  };
  container_recommendations = app_recommendation ∷ [];
}

abbrev pub sample_spec : PpvpaSpec ℕ
sample_spec = record {
  target_ref = record { kind = "Deployment"; name = "web"; api_version = "apps/v1" };
  target_replicas = some (pos 3);
  update_policy = record {
    update_mode = in_place;
    anomaly_eviction_timeout_seconds = pos 60;
    significant_change_threshold_percentage = pos 10;
    infeasible_update_behavior = record {
      max_surge = some (int_value (pos 2));
      max_unavailable = none;
    };
    burst_timeout_seconds = pos 30;
  };
  resource_policy = record { pod_level_policies = []; container_policies = [] };
  recommender_policy = record {
    target_percentile = "";
    lower_bound_percentile = "";
    upper_bound_percentile = "";
    safety_margin_percentage = pos 15;
  };
  scaling_thresholds = record {
    cpu = record { scale_up_psi = "10.0"; scale_down_buffer_drop_percentage = pos 20 };
    memory = record { scale_up_psi = "5.0"; watermark_decay_window_hours = pos 24 };
  };
}

-- A PP-VPA with the given count of temporary replicas.
abbrev pub sample_ppvpa : ℕ → Ppvpa ℕ
sample_ppvpa temporary = record {
  meta = meta_of "vpa" "vpa-uid" [];
  spec = sample_spec;
  status = record {
    default_recommendation = some recommendation;
    active_replicas = pos 3;
    temporary_replicas = pos temporary;
    conditions = [];
  };
}

abbrev pub sample_prr : String → Prr ℕ
sample_prr pod = record {
  meta = meta_of pod pod (owner "PerPodVerticalPodAutoscaler" "vpa" "vpa-uid" ∷ []);
  spec = record { target_pod_name = pod };
  status = record {
    contention_high_watermarks = none;
    observed_peak = none;
    pod_level_target = amount 2;
    container_recommendations = app_recommendation ∷ [];
    histogram_checkpoint = [];
    conditions = [];
  };
}

abbrev pub sample_pod : String → Pod ℕ
sample_pod name = record {
  meta = meta_of name name (owner "ReplicaSet" "web-1" "rs-uid" ∷ []);
  qos_class = "Burstable";
  containers =
      record {
        container_name = "app";
        resources = record { requests = amount 0; limits = amount 0 };
      }
      ∷ [];
  conditions = record { condition_type = "Ready"; status = condition_true } ∷ [];
}

abbrev surge_pod : Pod ℕ
surge_pod = record (sample_pod "surge") {
  meta = record (meta_of "surge" "surge" []) { annotations = (annotation_surge_pod, "true") ∷ [] };
}

-- PRRs for the pods "a" and "gone"; a write always succeeds, and the world counts it.
abbrev pub sample_client : Client ℕ ℕ
sample_client = record {
  get_ppvpa = λ w namespace name. ok (sample_ppvpa 2);
  get_prr = λ w namespace name. ok (sample_prr name);
  get_pod = λ w namespace name. ok (sample_pod name);
  get_replica_set = λ w namespace name.
      ok (record { meta = meta_of name "rs-uid" (owner "Deployment" "web" "web-uid" ∷ []) });
  get_deployment =
      λ w namespace name. ok (record { meta = meta_of name "web-uid" []; replicas = some (pos 3) });
  get_checkpoint = λ w namespace name. ok (record {
    meta = meta_of name "checkpoint-uid" [];
    spec = record { ppvpa_ref = "vpa" };
    status = record {
      aggregate_histogram_checkpoint = [];
      last_update_time = none;
      conditions = [];
    };
  });
  list_ppvpas = λ w namespace. ok (sample_ppvpa 2 ∷ []);
  list_prrs = λ w namespace. ok (sample_prr "a" ∷ sample_prr "gone" ∷ []);
  list_pods = λ w namespace. ok (sample_pod "a" ∷ sample_pod "b" ∷ surge_pod ∷ []);
  list_replica_sets = λ w namespace. ok [];
  write = λ w x. (suc w, none);
}

abbrev pub start : Session ℕ ℕ
start = record { world = 0; issued = [] }
