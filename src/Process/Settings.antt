-- ===== src/Process/Settings.antt =====
-- The flags after a command line.
use pp_vpa.Prelude.{
  ◌≡◌, sym, ap, ◌∙◌, inl, inr, Bool, false, Bool-cases, some, Option-cases, List, [], ◌∷◌, String,
  str_eq, eq_iff, subst, arith, if◌then◌else◌,
}
use pp_vpa.Process.Flags.{Flags, set_flag, parse_flags}

-- The value of a flag after the settings: the last that names it, or else the value before.
abbrev pub last_of : String → String → List (String × String) → String
last_of name value [] = value
last_of name value ((k, v) ∷ settings) = last_of name (if str_eq k name then v else value) settings

-- The texts of `g` are those of `f` after the settings.
pub record Updated (f : Flags) (settings : List (String × String)) (g : Flags) : Type 0 where
  pub mode : g.mode ≡ last_of "mode" f.mode settings
  pub metrics : g.metrics_addr ≡ last_of "metrics-bind-address" f.metrics_addr settings
  pub probe : g.probe_addr ≡ last_of "health-probe-bind-address" f.probe_addr settings
  pub certificates : g.webhook_cert_path ≡ last_of "webhook-cert-path" f.webhook_cert_path settings
  pub node : g.node_name ≡ last_of "node-name" f.node_name settings
  pub cgroup : g.cgroup_root ≡ last_of "cgroup-root" f.cgroup_root settings
  pub kubelet : g.kubelet_config ≡ last_of "kubelet-config" f.kubelet_config settings

by_name : (P : String → Type 0) (k name : String) → P name → (str_eq k name ≡ false → P k) → P k
by_name P k name p q = elim (Bool-cases (str_eq k name)) [
  | inl e ↦ subst P (sym ((eq_iff k name).0 e)) p
  | inr e ↦ q e
]

module _ (accepts : String → String → Bool) where
  set_flag-Updated :
      (f g : Flags) (k v : String) → set_flag accepts f k v ≡ some g → Updated f ((k, v) ∷ []) g
  unfolding set_flag
  set_flag-Updated f g k v =
      by_name P k "mode" (λ h. ground arith)
        (λ e1.
          by_name P k "metrics-bind-address" (λ h. ground arith)
            (λ e2.
              by_name P k "health-probe-bind-address" (λ h. ground arith)
                (λ e3.
                  by_name P k "webhook-cert-path" (λ h. ground arith)
                    (λ e4.
                      by_name P k "leader-elect" (λ h. ground arith)
                        (λ e5.
                          by_name P k "enable-webhooks" (λ h. ground arith)
                            (λ e6.
                              by_name P k "node-name" (λ h. ground arith)
                                (λ e7.
                                  by_name P k "cgroup-root" (λ h. ground arith)
                                    (λ e8.
                                      by_name P k "kubelet-config" (λ h. ground arith)
                                        (λ e9. λ h. ground arith)))))))))
    where
      P : String → Type 0
      P name = set_flag accepts f name v ≡ some g → Updated f ((name, v) ∷ []) g

  Updated-cons :
      (f x g : Flags) (k v : String) (settings : List (String × String))
      → Updated f ((k, v) ∷ []) x
      → Updated x settings g
      → Updated f ((k, v) ∷ settings) g
  Updated-cons f x g k v settings a b = record {
    mode = b.mode ∙ ap (λ z. last_of "mode" z settings) a.mode;
    metrics = b.metrics ∙ ap (λ z. last_of "metrics-bind-address" z settings) a.metrics;
    probe = b.probe ∙ ap (λ z. last_of "health-probe-bind-address" z settings) a.probe;
    certificates = b.certificates ∙ ap (λ z. last_of "webhook-cert-path" z settings) a.certificates;
    node = b.node ∙ ap (λ z. last_of "node-name" z settings) a.node;
    cgroup = b.cgroup ∙ ap (λ z. last_of "cgroup-root" z settings) a.cgroup;
    kubelet = b.kubelet ∙ ap (λ z. last_of "kubelet-config" z settings) a.kubelet;
  }

  -- Where the command line is accepted, each text flag has the value of the last setting that names
  -- it, or the value from before where none does.
  pub parse_flags-Updated :
      (f : Flags) (settings : List (String × String)) (g : Flags)
      → parse_flags accepts f settings ≡ inr g
      → Updated f settings g
  unfolding parse_flags
  parse_flags-Updated f [] g = λ h. ground arith
  parse_flags-Updated f ((k, v) ∷ settings) g = elim (Option-cases (set_flag accepts f k v)) [
    | inl e ↦ rw (e, parse_flags) (λ h. cc)
    | inr (x, e) ↦
        rw (e, parse_flags)
          (λ h.
            Updated-cons f x g k v settings (set_flag-Updated f x k v e)
              (parse_flags-Updated x settings g h))
  ]
