-- ===== src/Process/Booted.antt =====
-- What an agent is that RunNodeAgent has set up.
use pp_vpa.Prelude.{◌≡◌, refl, inl, inr, true, false, none, Option-cases, [], String, str_eq, arith}
use pp_vpa.Prelude.Int.{pos, leb_ℤ}
use pp_vpa.NodeAgent.{Host, Agent, new_probed, new_agent, with_defaults}
use pp_vpa.Process.Boot.{
  NodeAgentOptions, Surroundings, node_name_of, agent_config, boot_named, boot,
}

-- An agent that has just been booted with these options.
module _ {F Q : Type 0} where
  pub record Booted (getenv : String → String) (opts : NodeAgentOptions) (a : Agent F Q)
      : Type 0 where
    pub no_pods : a.pods ≡ []
    pub no_patches : a.queue ≡ []
    pub named : a.cfg.node_name ≡ node_name_of getenv opts
    pub not_nameless : str_eq a.cfg.node_name "" ≡ false
    pub root : a.cfg.cgroup_root ≡ opts.cgroup_root
    pub v2 : a.caps.cgroup_v2 ≡ true
    pub sampling : leb_ℤ a.cfg.sample_interval (pos 0) ≡ false
    pub checkpointing : leb_ℤ a.cfg.checkpoint_every (pos 0) ≡ false

  boot_named-Booted :
      {E : Type 0} (getenv : String → String) (host : Host) (opts : NodeAgentOptions)
      {a : Agent F Q}
      → boot_named {E = E} host opts (node_name_of getenv opts) ≡ inr a
      → Booted getenv opts a
  unfolding boot_named new_agent new_probed agent_config with_defaults
  boot_named-Booted getenv host opts h = ground arith

  -- An agent is booted only where both clients were made, cgroup v2 was found and a node name is
  -- known: that of the flag or, where the flag is empty, of the variable NODE_NAME. It starts
  -- without pods and patches, and the intervals of its two tickers are positive.
  pub boot-Booted :
      {E : Type 0} (around : Surroundings E) (host : Host) (opts : NodeAgentOptions) {a : Agent F Q}
      → boot around host opts ≡ inr a
      → (around.new_for_config ≡ none) × (around.new_client ≡ none) × Booted around.getenv opts a
  unfolding boot
  boot-Booted around host opts = elim (Option-cases around.new_for_config) [
    | inr (x, e) ↦ rw e (λ h. cc)
    | inl e ↦ elim (Option-cases around.new_client) [
      | inr (x, k) ↦ rw (e, k) (λ h. cc)
      | inl k ↦ rw (e, k) (λ h. (refl, refl, boot_named-Booted around.getenv host opts h))
    ]
  ]
