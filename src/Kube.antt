-- ===== src/Kube.antt =====
-- What the program uses of Kubernetes: resource quantities, errors of the API server, and the small
-- records of its object model. They are parameters, or data with the fields that the program reads.
use pp_vpa.Prelude.{ℕ, Bool, true, false, Option, String, List}
use pp_vpa.Prelude.Int.{ℤ}
use pp_vpa.Clock.{Time}

-- resource.Quantity
pub record Quantities (Q : Type 0) : Type 0 where
  pub zero_quantity : Q
  -- NewMilliQuantity and NewQuantity
  pub of_milli : ℤ → Q
  pub of_whole : ℤ → Q
  -- Value and MilliValue
  pub value : Q → ℤ
  pub milli_value : Q → ℤ
  -- ParseQuantity; `none` is an error.
  pub parse_quantity : String → Option Q

-- corev1.ResourceList, with the two resources that the program writes; `none` is an absent key.
pub record ResourceList (Q : Type 0) : Type 0 where
  pub cpu : Option Q
  pub memory : Option Q

-- corev1.ResourceRequirements
pub record ResourceRequirements (Q : Type 0) : Type 0 where
  pub requests : ResourceList Q
  pub limits : ResourceList Q

-- An error of a client call, by the reason that apierrors tells apart.
pub data ApiError : Type 0 where
  not_found already_exists forbidden invalid too_many_requests : ApiError
  other_reason : ℕ → ApiError

-- apierrors.IsNotFound and its like.
abbrev pub is_not_found : ApiError → Bool
is_not_found not_found = true
is_not_found _ = false

abbrev pub is_already_exists : ApiError → Bool
is_already_exists already_exists = true
is_already_exists _ = false

abbrev pub is_forbidden : ApiError → Bool
is_forbidden forbidden = true
is_forbidden _ = false

abbrev pub is_invalid : ApiError → Bool
is_invalid invalid = true
is_invalid _ = false

-- intstr.IntOrString
pub data IntOrString : Type 0 where
  int_value : ℤ → IntOrString
  string_value : String → IntOrString

-- metav1.OwnerReference
pub record OwnerReference : Type 0 where
  pub api_version : String
  pub kind : String
  pub name : String
  pub uid : String
  pub controller : Option Bool

-- metav1.ObjectMeta
pub record ObjectMeta : Type 0 where
  pub namespace : String
  pub name : String
  pub uid : String
  pub creation_timestamp : Time
  pub deletion_timestamp : Option Time
  pub finalizers : List String
  pub annotations : List (String × String)
  pub owner_references : List OwnerReference

-- metav1.Condition
pub data ConditionStatus : Type 0 where
  condition_true condition_false condition_unknown : ConditionStatus

pub record Condition : Type 0 where
  pub condition_type : String
  pub status : ConditionStatus

abbrev pub is_true : ConditionStatus → Bool
is_true condition_true = true
is_true _ = false
