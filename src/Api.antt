-- ===== src/Api.antt =====
-- api/v1alpha1: the custom resources, with their fields but the type meta. Text that is
-- a checkpoint payload is the list of its bytes; a pointer is an Option.
use pp_vpa.Prelude.{Option, List, String}
use pp_vpa.Prelude.Int.{ℤ}
use pp_vpa.Clock.{Time}
use pp_vpa.Kube.{ResourceList, ObjectMeta, Condition, IntOrString}
use pp_vpa.Histogram.Codec.{Bytes}

pub record InfeasibleUpdateBehavior : Type 0 where
  pub max_surge : Option IntOrString
  pub max_unavailable : Option IntOrString

pub data UpdateMode : Type 0 where
  off initial in_place recreate : UpdateMode

pub record UpdatePolicy : Type 0 where
  pub update_mode : UpdateMode
  pub anomaly_eviction_timeout_seconds : ℤ
  pub significant_change_threshold_percentage : ℤ
  pub infeasible_update_behavior : InfeasibleUpdateBehavior
  pub burst_timeout_seconds : ℤ

pub record PodLevelPolicy (Q : Type 0) : Type 0 where
  pub resource_name : String
  pub min_allowed : Option Q
  pub max_allowed : Option Q

pub record ContainerPolicy (Q : Type 0) : Type 0 where
  pub container_name : String
  pub min_allowed : ResourceList Q
  pub max_allowed : ResourceList Q

pub record ResourcePolicy (Q : Type 0) : Type 0 where
  pub pod_level_policies : List (PodLevelPolicy Q)
  pub container_policies : List (ContainerPolicy Q)

pub record RecommenderPolicy : Type 0 where
  pub target_percentile : String
  pub lower_bound_percentile : String
  pub upper_bound_percentile : String
  pub safety_margin_percentage : ℤ

pub record CpuScalingThresholds : Type 0 where
  pub scale_up_psi : String
  pub scale_down_buffer_drop_percentage : ℤ

pub record MemoryScalingThresholds : Type 0 where
  pub scale_up_psi : String
  pub watermark_decay_window_hours : ℤ

pub record ScalingThresholds : Type 0 where
  pub cpu : CpuScalingThresholds
  pub memory : MemoryScalingThresholds

-- CrossVersionObjectReference, of autoscaling/v1
pub record TargetRef : Type 0 where
  pub kind : String
  pub name : String
  pub api_version : String

pub record PpvpaSpec (Q : Type 0) : Type 0 where
  pub target_ref : TargetRef
  pub target_replicas : Option ℤ
  pub update_policy : UpdatePolicy
  pub resource_policy : ResourcePolicy Q
  pub recommender_policy : RecommenderPolicy
  pub scaling_thresholds : ScalingThresholds

pub record ContainerRecommendation (Q : Type 0) : Type 0 where
  pub container_name : String
  pub lower_bound : ResourceList Q
  pub target : ResourceList Q
  pub uncapped_target : ResourceList Q
  pub upper_bound : ResourceList Q

pub record PodLevelRecommendation (Q : Type 0) : Type 0 where
  pub lower_bound : ResourceList Q
  pub target : ResourceList Q
  pub uncapped_target : ResourceList Q
  pub upper_bound : ResourceList Q

pub record Recommendation (Q : Type 0) : Type 0 where
  pub pod_level_target : ResourceList Q
  pub pod_level : PodLevelRecommendation Q
  pub container_recommendations : List (ContainerRecommendation Q)

pub record PpvpaStatus (Q : Type 0) : Type 0 where
  pub default_recommendation : Option (Recommendation Q)
  pub active_replicas : ℤ
  pub temporary_replicas : ℤ
  pub conditions : List Condition

-- PerPodVerticalPodAutoscaler
pub record Ppvpa (Q : Type 0) : Type 0 where
  pub meta : ObjectMeta
  pub spec : PpvpaSpec Q
  pub status : PpvpaStatus Q

abbrev pub condition_anomalous : String
condition_anomalous = "Anomalous"

abbrev pub condition_infeasible : String
condition_infeasible = "Infeasible"

abbrev pub condition_pod_level_unsupported : String
condition_pod_level_unsupported = "PodLevelUnsupported"

-- The recorded high-watermarks of contention, of the pod and of each container.
pub record PodLevelContention : Type 0 where
  pub memory : String
  pub cpu : String
  pub last_updated : Option Time

pub record ContainerLevelContention : Type 0 where
  pub container_name : String
  pub memory : String
  pub cpu : String
  pub last_updated : Option Time

pub record ContentionHighWatermarks : Type 0 where
  pub pod_level : Option PodLevelContention
  pub container_level : List ContainerLevelContention

pub record ObservedPeakPodLevel : Type 0 where
  pub memory : String

pub record ObservedPeakContainer : Type 0 where
  pub container_name : String
  pub memory : String

pub record ObservedPeak : Type 0 where
  pub pod_level : Option ObservedPeakPodLevel
  pub containers : List ObservedPeakContainer

pub record PrrStatus (Q : Type 0) : Type 0 where
  pub contention_high_watermarks : Option ContentionHighWatermarks
  pub observed_peak : Option ObservedPeak
  pub pod_level_target : ResourceList Q
  pub container_recommendations : List (ContainerRecommendation Q)
  pub histogram_checkpoint : Bytes
  pub conditions : List Condition

pub record PrrSpec : Type 0 where
  pub target_pod_name : String

-- PodResourceRecommendation
pub record Prr (Q : Type 0) : Type 0 where
  pub meta : ObjectMeta
  pub spec : PrrSpec
  pub status : PrrStatus Q

pub record PpvpaCheckpointSpec : Type 0 where
  pub ppvpa_ref : String

pub record PpvpaCheckpointStatus : Type 0 where
  pub aggregate_histogram_checkpoint : Bytes
  pub last_update_time : Option Time
  pub conditions : List Condition

-- PerPodVerticalPodAutoscalerCheckpoint
pub record PpvpaCheckpoint : Type 0 where
  pub meta : ObjectMeta
  pub spec : PpvpaCheckpointSpec
  pub status : PpvpaCheckpointStatus
