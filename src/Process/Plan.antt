-- ===== src/Process/Plan.antt =====
-- RunManager against its plan: the list of what it sets up, in order, followed until something fails.
use mathlib.Core.List.{append-nil, append_assoc}
use pp_vpa.Prelude.{
  ◌≡◌, refl, sym, ap, ◌∙◌, Bool-cases, Option, none, some, Option-cases, List, [], ◌∷◌, ◌++◌,
  if◌then◌else◌, inl, inr,
}
use pp_vpa.Process.Manager.{
  ManagerOptions, ppvpa_reconciler, prr_reconciler, checkpoint_reconciler, Act, created, registered,
  defaulted, health_checked, ready_checked, started, setup_ppvpa, setup_prr, setup_checkpoint,
  setup_pod_webhook, config_of, ManagerError, creating_manager, ppvpa_controller, prr_controller,
  checkpoint_controller, pod_webhook, plain, Runtime, Track, Setup, wrapped, nothing, then_on, ◌>>◌,
  act, webhooks_on, setup_webhooks, run_manager,
}

none_ne : {A : Type 0} {x : A} → none ≡ some x → ⊥
none_ne h = cc

some_ne : {A : Type 0} {x : A} → some x ≡ none → ⊥
some_ne h = cc

module _ {E : Type 0} where
  -- The error by which the failure of an act is reported.
  abbrev pub failure_of : Act → E → ManagerError E
  failure_of (created c) e = creating_manager e
  failure_of (registered r) e = elim r.reconciler [
    | ppvpa_reconciler ↦ ppvpa_controller e
    | prr_reconciler ↦ prr_controller e
    | checkpoint_reconciler ↦ checkpoint_controller e
  ]
  failure_of (defaulted k) e = pod_webhook e
  failure_of (health_checked n) e = plain e
  failure_of (ready_checked n) e = plain e
  failure_of started e = plain e

  abbrev pub report : Option (Act × E) → Option (ManagerError E)
  report none = none
  report (some (a, e)) = some (failure_of a e)

module _ {W E : Type 0} (runtime : Runtime W E) where
  -- What RunManager means to do: the manager, its three controllers, the webhook where it is on, the
  -- two checks, and the start.
  abbrev pub plan : ManagerOptions → List Act
  plan opts =
      created (config_of opts)
        ∷ registered setup_ppvpa
        ∷ registered setup_prr
        ∷ registered setup_checkpoint
        ∷ (if webhooks_on runtime opts then setup_pod_webhook ∷ [] else [])
      ++ health_checked "healthz" ∷ ready_checked "readyz" ∷ started ∷ []

  -- The acts of a list are performed in order, each on the world that the one before left, until
  -- one fails; `bs` are those performed, and the last index is the one that failed, with its error.
  pub data Follows : List Act → W → List Act → W → Option (Act × E) → Type 0 where
    finished : (w : W) → Follows [] w [] w none
    went :
        (a : Act) (xs bs : List Act) (w v u : W) (r : Option (Act × E))
        → runtime.perform w a ≡ (v, none)
        → Follows xs v bs u r
        → Follows (a ∷ xs) w (a ∷ bs) u r
    failed :
        (a : Act) (xs : List Act) (w v : W) (e : E)
        → runtime.perform w a ≡ (v, some e)
        → Follows (a ∷ xs) w (a ∷ []) v (some (a, e))

  Follows-append :
      (xs cs bs ds : List Act) (w v u : W) (r q : Option (Act × E))
      → Follows xs w bs v r
      → r ≡ none
      → Follows cs v ds u q
      → Follows (xs ++ cs) w (bs ++ ds) u q
  Follows-append xs cs bs ds w v u r q (finished _) e k = k
  Follows-append xs cs bs ds w v u r q (went a xs' bs' _ x _ _ p h) e k =
      went a (xs' ++ cs) (bs' ++ ds) w x u q p (Follows-append xs' cs bs' ds x v u r q h e k)
  Follows-append xs cs bs ds w v u r q (failed a xs' _ _ x p) e k = cc

  Follows-stop :
      (xs cs bs : List Act) (w v : W) (r : Option (Act × E)) (x : Act × E)
      → Follows xs w bs v r
      → r ≡ some x
      → Follows (xs ++ cs) w bs v r
  Follows-stop xs cs bs w v r x (finished _) e = cc
  Follows-stop xs cs bs w v r x (went a xs' bs' _ y _ _ p h) e =
      went a (xs' ++ cs) bs' w y v r p (Follows-stop xs' cs bs' y v r x h e)
  Follows-stop xs cs bs w v r x (failed a xs' _ _ y p) e = failed a (xs' ++ cs) w v y p

  pub Follows-whole :
      (xs bs : List Act) (w v : W) (r : Option (Act × E)) → Follows xs w bs v r → r ≡ none → bs ≡ xs
  Follows-whole xs bs w v r (finished _) e = refl
  Follows-whole xs bs w v r (went a xs' bs' _ x _ _ p h) e =
      ap (λ z. a ∷ z) (Follows-whole xs' bs' x v r h e)
  Follows-whole xs bs w v r (failed a xs' _ _ x p) e = cc

  -- What a part did to the track `t`, where `xs` is its plan.
  pub record Followed (xs : List Act) (t : Track W) (end : Track W × Option (ManagerError E))
      : Type 0 where
    pub performed : List Act
    pub outcome : Option (Act × E)
    pub follows : Follows xs t.world performed end.0.world outcome
    pub logged : end.0.acts ≡ t.acts ++ performed
    pub reported : end.1 ≡ report outcome

  follow_nothing : (t : Track W) → Followed [] t (nothing t)
  follow_nothing t = record {
    performed = [];
    outcome = none;
    follows = finished t.world;
    logged = sym (append-nil t.acts);
    reported = refl;
  }

  follow_act : (a : Act) (t : Track W) → Followed (a ∷ []) t (act runtime (failure_of a) a t)
  follow_act a t = elim (Option-cases (runtime.perform t.world a).1) [
    | inl e ↦ record {
      performed = a ∷ [];
      outcome = none;
      follows =
          went a [] [] t.world (runtime.perform t.world a).0 _ none
            (λ i. ((runtime.perform t.world a).0, e i)) (finished _);
      logged = refl;
      reported = ap (wrapped (failure_of a)) e;
    }
    | inr (x, e) ↦ record {
      performed = a ∷ [];
      outcome = some (a, x);
      follows =
          failed a [] t.world (runtime.perform t.world a).0 x
            (λ i. ((runtime.perform t.world a).0, e i));
      logged = refl;
      reported = ap (wrapped (failure_of a)) e;
    }
  ]

  -- The part after one that succeeded, and after one that failed.
  follow_on :
      (xs ys : List Act) (t u : Track W) (k : Setup W E)
      → (f : Followed xs t (u, none)) → f.outcome ≡ none
      → Followed ys u (k u)
      → Followed (xs ++ ys) t (k u)
  follow_on xs ys t u k f e g = record {
    performed = f.performed ++ g.performed;
    outcome = g.outcome;
    follows =
        Follows-append xs ys f.performed g.performed t.world u.world (k u).0.world f.outcome
          g.outcome f.follows e g.follows;
    logged =
        g.logged
        ∙ ap (λ z. z ++ g.performed) f.logged
        ∙ append_assoc t.acts f.performed g.performed;
    reported = g.reported;
  }

  follow_stop :
      (xs ys : List Act) (t u : Track W) (x : ManagerError E)
      → (f : Followed xs t (u, some x)) → (q : Act × E) → f.outcome ≡ some q
      → Followed (xs ++ ys) t (u, some x)
  follow_stop xs ys t u x f q e = record {
    performed = f.performed;
    outcome = f.outcome;
    follows = Follows-stop xs ys f.performed t.world u.world f.outcome q f.follows e;
    logged = f.logged;
    reported = f.reported;
  }

  follow_rest :
      (xs ys : List Act) (k : Setup W E) (t : Track W) (end : Track W × Option (ManagerError E))
      → (f : Followed xs t end) → ((u : Track W) → Followed ys u (k u))
      → Followed (xs ++ ys) t (then_on end.1 k end.0)
  follow_rest xs ys k t (u, none) f g = elim (Option-cases f.outcome) [
    | inl e ↦ follow_on xs ys t u k f e (g u)
    | inr (q, e) ↦ absurd (none_ne (f.reported ∙ ap report e))
  ]
  follow_rest xs ys k t (u, some x) f g = elim (Option-cases f.outcome) [
    | inl e ↦ absurd (some_ne (f.reported ∙ ap report e))
    | inr (q, e) ↦ follow_stop xs ys t u x f q e
  ]

  follow_then :
      (xs ys : List Act) (m k : Setup W E) (t : Track W)
      → Followed xs t (m t)
      → ((u : Track W) → Followed ys u (k u))
      → Followed (xs ++ ys) t ((m >> k) t)
  follow_then xs ys m k t f g = follow_rest xs ys k t (m t) f g

  follow_webhooks :
      (opts : ManagerOptions) (t : Track W)
      → Followed
          (if webhooks_on runtime opts then setup_pod_webhook ∷ [] else [])
          t
          (setup_webhooks runtime opts t)
  unfolding setup_webhooks
  follow_webhooks opts t = elim (Bool-cases (webhooks_on runtime opts)) [
    | inl e ↦ rw e (follow_act setup_pod_webhook t)
    | inr e ↦ rw e (follow_nothing t)
  ]

  -- One act and then the rest of a plan.
  follow_next :
      (a : Act) (ys : List Act) (k : Setup W E)
      → ((u : Track W) → Followed ys u (k u))
      → (t : Track W) → Followed (a ∷ ys) t ((act runtime (failure_of a) a >> k) t)
  follow_next a ys k g t =
      follow_then (a ∷ []) ys (act runtime (failure_of a) a) k t (follow_act a t) g

  -- RunManager performs its plan in order until an act fails, and nothing after that. It returns
  -- that act's error, wrapped by the text for that act, or, if none failed, the nil error; in the
  -- second case it has performed the whole plan.
  pub run_manager-Followed :
      (opts : ManagerOptions) (t : Track W)
      → (f : Followed (plan opts) t (run_manager runtime opts t)) × (f.outcome ≡ none
          → f.performed ≡ plan opts)
  unfolding run_manager
  run_manager-Followed opts t =
      let f =
        follow_next (created (config_of opts)) _ _
          (follow_next (registered setup_ppvpa) _ _ (
            follow_next (registered setup_prr) _ _ (
              follow_next (registered setup_checkpoint) _ _ (λ u.
                follow_then _ _ (setup_webhooks runtime opts) _ u (follow_webhooks opts u) (
                  follow_next (health_checked "healthz") _ _
                    (follow_next (ready_checked "readyz") _ _ (follow_act started)))))))
          t in
      (f, λ e. Follows-whole _ _ _ _ _ f.follows e)
