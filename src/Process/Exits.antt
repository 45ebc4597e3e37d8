-- ===== src/Process/Exits.antt =====
-- With which code a process of the binary can end, and why.
use mathlib.Core.List.{not-mem-nil}
use pp_vpa.Prelude.{
  ℕ, ◌≡◌, refl, ◌≢◌, sym, subst, ◌∙◌, ◌⊎◌, inl, inr, true, false, Bool-cases, Option, none, some,
  Option-cases, List, [], ◌∷◌, String, str_eq, All, arith, ◌<◌,
}
use pp_vpa.Float.{Float, Ieee}
use pp_vpa.Histogram.Codec.{Codec, Checkpoint}
use pp_vpa.Kube.{Quantities}
use pp_vpa.Cluster.{Client}
use pp_vpa.Patcher.{PendingPatch, Kubelet}
use pp_vpa.Patcher.Queue.{IsQueue}
use pp_vpa.NodeAgent.{PodState, Agent}
use pp_vpa.NodeAgent.Steps.{IsAdmissible, IsCalm, IsSystem}
use pp_vpa.NodeAgent.Refinement.{run-Ran}
use pp_vpa.Process.Flags.{Flags, ParseError, help_wanted, refused, default_flags, parse_flags}
use pp_vpa.Process.Manager.{Act, ManagerError, Track, run_manager}
use pp_vpa.Process.Boot.{BootError, boot, run_until_done, run_node_agent}
use pp_vpa.Process.Booted.{Booted, boot-Booted}
use pp_vpa.Process.Plan.{report, plan, Follows, run_manager-Followed}
use pp_vpa.Process.Main.{
  World, manager_options, node_agent_options, manager_code, manager_main, agent_main, dispatch,
  dispatch_parsed, main,
}

module _ {E F W Q : Type 0} (world : World E F W Q) where
  -- The manager was set up by its whole plan, and was started.
  abbrev pub WasManaged : Flags → Type 0
  WasManaged f =
      (world.configured ≡ true)
      × ((v : W) × Follows world.runtime (plan world.runtime (manager_options f))
            world.session.world (plan world.runtime (manager_options f)) v none)

  -- What an exit code says about the command line and the process.
  pub record Explained (parsed : ParseError ⊎ Flags) (code : ℕ) : Type 0 where
    pub zero_code :
        code ≡ 0
        → (parsed ≡ inl help_wanted)
          ⊎ ((f : Flags) × (parsed ≡ inr f) × (str_eq f.mode "manager" ≡ true) × WasManaged f)
    pub two_code :
        code ≡ 2
        → (parsed ≡ inl refused)
          ⊎ ((f : Flags) × (parsed ≡ inr f)
              × (str_eq f.mode "manager" ≡ false)
              × (str_eq f.mode "node-agent" ≡ false))
    pub in_range : code < 3

module _ {E F W Q : Type 0} ⦃float : Float F⦄ (laws : Ieee F) (quantities : Quantities Q)
    (codec : Codec (Checkpoint F)) (client : Client W Q) (kubelet : Kubelet Q W)
    (range_order : List (PodState F) → List (PodState F)) (world : World E F W Q)
    (calm : IsCalm laws quantities codec client kubelet range_order)
    (cancelled : world.context_error ≢ none)
    (admissible : All
      (IsAdmissible laws quantities codec client kubelet range_order)
      world.events) where
  empty-IsQueue : (q : List (PendingPatch F Q)) → q ≡ [] → IsQueue quantities q
  empty-IsQueue [] e = record {
    heap = λ c p l. absurd (omega arith);
    ranked = λ p m. absurd (not-mem-nil m);
  }
  empty-IsQueue (p ∷ q) e = cc

  Booted-IsSystem :
      (a : Agent F Q) (f : Flags)
      → Booted world.around.getenv (node_agent_options f) a
      → IsSystem laws quantities codec client kubelet range_order
          (record { agent = a; session = world.session })
  Booted-IsSystem a f b = record {
    entries = rw b.no_pods tt;
    queue = empty-IsQueue a.queue b.no_patches;
  }

  boot-cases :
      (r : BootError E ⊎ Agent F Q)
      → ((x : BootError E) × (r ≡ inl x)) ⊎ ((a : Agent F Q) × (r ≡ inr a))
  boot-cases (inl x) = inl (x, refl)
  boot-cases (inr a) = inr (a, refl)

  -- A process that runs the node agent ends with code 1.
  pub agent_main-one :
      (f : Flags) → agent_main quantities codec client kubelet range_order world f ≡ 1
  unfolding agent_main run_node_agent run_until_done
  agent_main-one f = elim (Bool-cases world.configured) [
    | inr n ↦ rw n refl
    | inl y ↦ elim (boot-cases (boot world.around world.host (node_agent_options f))) [
      | inl (x, e) ↦ rw (y, e) refl
      | inr (a, e) ↦ elim (Option-cases world.context_error) [
        | inl c ↦ absurd (cancelled c)
        | inr (c, k) ↦
            (let b = (boot-Booted world.around world.host (node_agent_options f) e).2 in
              let (z, d, _) =
                run-Ran laws quantities codec client kubelet range_order calm world.events
                  (record { agent = a; session = world.session }) (Booted-IsSystem a f b)
                  admissible in
              rw (y, e, d, k) refl)
      ]
    ]
  ]

  manager_code-zero : (e : Option (ManagerError E)) → manager_code e ≡ 0 → e ≡ none
  manager_code-zero none h = refl
  manager_code-zero (some e) h = absurd (omega arith)

  manager_code-lt : (e : Option (ManagerError E)) → manager_code e < 2
  manager_code-lt none = omega arith
  manager_code-lt (some e) = omega arith

  report-none : (q : Option (Act × E)) → report q ≡ none → q ≡ none
  report-none none h = refl
  report-none (some q) h = cc

  manager_main-zero :
      (f : Flags)
      → manager_main quantities codec client kubelet range_order world f ≡ 0
      → WasManaged world f
  unfolding manager_main
  manager_main-zero f = elim (Bool-cases world.configured) [
    | inr n ↦ rw n (λ h. absurd (omega arith))
    | inl y ↦ rw y (λ h.
        let t : Track W = record { world = world.session.world; acts = [] } in
        let (d, whole) = run_manager-Followed world.runtime (manager_options f) t in
        let o = report-none d.outcome (sym d.reported ∙ manager_code-zero _ h) in
        (
          refl,
          (
            (run_manager world.runtime (manager_options f) t).0.world,
            subst
                (λ q.
                  Follows world.runtime (plan world.runtime (manager_options f)) world.session.world
                    (plan world.runtime (manager_options f))
                    (run_manager world.runtime (manager_options f) t).0.world q)
                o
                (subst
                  (λ bs.
                    Follows world.runtime (plan world.runtime (manager_options f))
                      world.session.world bs
                      (run_manager world.runtime (manager_options f) t).0.world d.outcome)
                  (whole o) d.follows),
          ),
        ))
  ]

  manager_main-lt :
      (f : Flags) → manager_main quantities codec client kubelet range_order world f < 2
  unfolding manager_main
  manager_main-lt f = elim (Bool-cases world.configured) [
    | inr n ↦ rw n (omega arith)
    | inl y ↦ rw y (manager_code-lt _)
  ]

  dispatch_parsed-Explained :
      (parsed : ParseError ⊎ Flags)
      → Explained world parsed
          (dispatch_parsed quantities codec client kubelet range_order world parsed)
  unfolding dispatch
  dispatch_parsed-Explained (inl help_wanted) = record {
    zero_code = λ h. inl refl;
    two_code = λ h. absurd (omega arith);
    in_range = omega arith;
  }
  dispatch_parsed-Explained (inl refused) = record {
    zero_code = λ h. absurd (omega arith);
    two_code = λ h. inl refl;
    in_range = omega arith;
  }
  dispatch_parsed-Explained (inr f) = elim (Bool-cases (str_eq f.mode "manager")) [
    | inl m ↦ rw m (record {
      zero_code = λ h. inr (f, refl, m, manager_main-zero f h);
      two_code = λ h. absurd (omega (arith, manager_main-lt f));
      in_range = omega (arith, manager_main-lt f);
    })
    | inr m ↦ elim (Bool-cases (str_eq f.mode "node-agent")) [
      | inl n ↦
          rw (m, n)
            (record {
              zero_code = λ h. absurd (omega (arith, agent_main-one f));
              two_code = λ h. absurd (omega (arith, agent_main-one f));
              in_range = omega (arith, agent_main-one f);
            })
      | inr n ↦
          rw (m, n)
            (record {
              zero_code = λ h. absurd (omega arith);
              two_code = λ h. inr (f, refl, m, n);
              in_range = omega arith;
            })
    ]
  ]

  -- Where the context's error is not nil once the context is done, a get of a PRR does not panic,
  -- no patch with a NaN priority is enqueued, and EnsurePod is given no payload whose options pass
  -- the checks and ask for more buckets than make yields: a process ends with 0, 1 or 2. It ends
  -- with 0 only where the command line asks for help, or in the mode manager, and then a
  -- configuration was found and every act of RunManager's plan, the start included, succeeded; and
  -- with 2 only where the command line is refused or the mode is unknown. So the node agent never
  -- ends with 0, not even where it is told to stop.
  pub main-Explained :
      (settings : List (String × String))
      → Explained world
          (parse_flags world.accepts default_flags settings)
          (main quantities codec client kubelet range_order world settings)
  unfolding main
  main-Explained settings =
      dispatch_parsed-Explained (parse_flags world.accepts default_flags settings)
