-- ===== src/Process/Manager.antt =====
-- internal/modes/manager.go, and the SetupWithManager functions that it calls. Each call of
-- controller-runtime is an act that a `Runtime` performs on a manager and its cluster, `W`, and that
-- may fail; the log holds the acts, the oldest first, with the one that failed.
use pp_vpa.Prelude.{
  Bool, not, ◌&&◌, Option, none, some, List, [], ◌∷◌, ◌++◌, String, str_eq, if◌then◌else◌,
}

pub record ManagerOptions : Type 0 where
  pub metrics_addr : String
  pub probe_addr : String
  pub webhook_cert_dir : String
  pub enable_leader_election : Bool
  pub enable_webhooks : Bool

-- What ctrl.Options of RunManager sets; `next_protos` is that of the metrics and the webhook server.
pub record ManagerConfig : Type 0 where
  pub metrics_bind_address : String
  pub health_probe_bind_address : String
  pub cert_dir : String
  pub next_protos : List String
  pub leader_election : Bool
  pub leader_election_id : String

pub data Reconciler : Type 0 where
  ppvpa_reconciler prr_reconciler checkpoint_reconciler : Reconciler

-- A controller as the builder completes it: the kind it is for, the kinds it owns, its name.
pub record Registration : Type 0 where
  pub for_kind : String
  pub owns : List String
  pub named : String
  pub reconciler : Reconciler

-- Complete of a builder for a webhook is `defaulted`, with its kind.
pub data Act : Type 0 where
  created : ManagerConfig → Act
  registered : Registration → Act
  defaulted : String → Act
  health_checked ready_checked : String → Act
  started : Act

-- The kinds of the API group, and of the pod.
abbrev pub ppvpa_kind : String
ppvpa_kind = "PerPodVerticalPodAutoscaler"

abbrev pub prr_kind : String
prr_kind = "PodResourceRecommendation"

-- The SetupWithManager of each reconciler.
abbrev pub setup_ppvpa : Registration
setup_ppvpa = record {
  for_kind = ppvpa_kind;
  owns = prr_kind ∷ [];
  named = "perpodverticalpodautoscaler";
  reconciler = ppvpa_reconciler;
}

abbrev pub setup_prr : Registration
setup_prr = record {
  for_kind = prr_kind;
  owns = [];
  named = "podresourcerecommendation";
  reconciler = prr_reconciler;
}

abbrev pub setup_checkpoint : Registration
setup_checkpoint = record {
  for_kind = ppvpa_kind;
  owns = [];
  named = "ppvpa-checkpoint";
  reconciler = checkpoint_reconciler;
}

abbrev pub setup_pod_webhook : Act
setup_pod_webhook = defaulted "Pod"

unfoldable pub config_of : ManagerOptions → ManagerConfig
config_of opts = record {
  metrics_bind_address = opts.metrics_addr;
  health_probe_bind_address = opts.probe_addr;
  cert_dir = if str_eq opts.webhook_cert_dir "" then "" else opts.webhook_cert_dir;
  next_protos = "http/1.1" ∷ [];
  leader_election = opts.enable_leader_election;
  leader_election_id = "ppvpa.brycemclachlan.me";
}

-- An error of a library call, by the text that wraps it; `plain` has none.
pub data ManagerError (E : Type 0) : Type 0 where
  creating_manager ppvpa_controller prr_controller checkpoint_controller : E → ManagerError E
  pod_webhook plain : E → ManagerError E

pub record Runtime (W E : Type 0) : Type 0 where
  pub perform : W → Act → W × Option E
  pub getenv : String → String

pub record Track (W : Type 0) : Type 0 where
  pub world : W
  pub acts : List Act

-- A part of RunManager; `none` is the nil error.
abbrev pub Setup : Type 0 → Type 0 → Type 0
Setup W E = Track W → Track W × Option (ManagerError E)

-- `fmt.Errorf` of an error that is not nil.
abbrev pub wrapped : {E : Type 0} → (E → ManagerError E) → Option E → Option (ManagerError E)
wrapped wrap none = none
wrapped wrap (some e) = some (wrap e)

module _ {W E : Type 0} where
  abbrev pub nothing : Setup W E
  nothing t = (t, none)

  abbrev pub then_on : Option (ManagerError E) → Setup W E → Setup W E
  then_on none k t = k t
  then_on (some e) k t = (t, some e)

  -- `if err := m; err != nil { return err }; k`
  infixl 5 ◌>>◌
  abbrev pub ◌>>◌ : Setup W E → Setup W E → Setup W E
  ◌>>◌ m k t = let (u, e) = m t in then_on e k u

  abbrev pub act : Runtime W E → (E → ManagerError E) → Act → Setup W E
  act runtime wrap a t =
      let (world, e) = runtime.perform t.world a in
      (record { world = world; acts = t.acts ++ a ∷ [] }, wrapped wrap e)

module _ {W E : Type 0} (runtime : Runtime W E) where
  abbrev pub webhooks_on : ManagerOptions → Bool
  webhooks_on opts = opts.enable_webhooks && not (str_eq (runtime.getenv "ENABLE_WEBHOOKS") "false")

  unfoldable pub setup_webhooks : ManagerOptions → Setup W E
  setup_webhooks opts =
      if webhooks_on opts then act runtime pod_webhook setup_pod_webhook else nothing

  -- RunManager, from the call of NewManager on.
  unfoldable pub run_manager : ManagerOptions → Setup W E
  unfolding setup_webhooks config_of
  run_manager opts = do
    act runtime creating_manager (created (config_of opts))
    act runtime ppvpa_controller (registered setup_ppvpa)
    act runtime prr_controller (registered setup_prr)
    act runtime checkpoint_controller (registered setup_checkpoint)
    setup_webhooks opts
    act runtime plain (health_checked "healthz")
    act runtime plain (ready_checked "readyz")
    act runtime plain started
