-- ===== src/Controller/Dispatch.antt =====
-- Which writes the PRR reconciler can cause.
use pp_vpa.Prelude.{
  ◌≡◌, true, Bool-cases, inl, inr, Option, none, some, List, [], ◌∷◌, String, str_eq, Outcome, ok,
  err, panic, Outcome-cases, ◌++◌, All, sym,
}
use mathlib.Core.List.{append-nil}
use pp_vpa.Kube.{ApiError, is_not_found, OwnerReference}
use pp_vpa.Api.{Ppvpa, Prr, condition_anomalous, condition_infeasible}
use pp_vpa.Cluster.{Write, Client, Session, Call, done, read, attempt, ◌>>=◌}
use pp_vpa.Cluster.Writes.{OnlyWrites, only_nothing, only_read, only_attempt, only_bind}
use pp_vpa.Eviction.{has_condition}
use pp_vpa.Controller.{Requeue, no_requeue, now_again}
use pp_vpa.Controller.Reaction.{
  parent_found, parent_loop, parent_ppvpa, handle_if, or_again, react, reconcile_prr,
}

module _ {W Q : Type 0} (client : Client W Q) (P : Write Q → Type 0) where
  parent_found-only : (r : Outcome ApiError (Ppvpa Q)) → OnlyWrites P (parent_found client r)
  parent_found-only (ok p) = only_nothing P (ok (some p))
  parent_found-only (err e) = elim (Bool-cases (is_not_found e)) [
    | inl h ↦ rw h (only_nothing P {A = Option (Ppvpa Q)} (ok none))
    | inr h ↦ rw h (only_nothing P {A = Option (Ppvpa Q)} (err e))
  ]
  parent_found-only panic = only_nothing P {A = Option (Ppvpa Q)} panic

  parent_loop-only :
      (namespace : String) (os : List OwnerReference)
      → OnlyWrites P (parent_loop client namespace os)
  unfolding parent_loop
  parent_loop-only namespace [] = only_nothing P {A = Option (Ppvpa Q)} (ok none)
  parent_loop-only namespace (o ∷ os) =
      elim (Bool-cases (str_eq o.kind "PerPodVerticalPodAutoscaler")) [
        | inl h ↦ rw h (
            only_bind P _ _
              (only_attempt P {A = Ppvpa Q} (read (λ w. client.get_ppvpa w namespace o.name))
                (only_read P (λ w. client.get_ppvpa w namespace o.name)))
              (λ r. parent_found-only r))
        | inr h ↦ rw h (parent_loop-only namespace os)
      ]

  -- A handler writes what `P` allows for the PRR, if the PRR has the condition.
  abbrev pub Guarded : String → (Ppvpa Q → Prr Q → Call W Q (Unit {0})) → Prr Q → Type 0
  Guarded condition handle prr =
      (p : Ppvpa Q)
      → has_condition prr.status.conditions condition ≡ true
      → OnlyWrites P (handle p prr)

  handle_if-only :
      (condition : String) (handle : Ppvpa Q → Prr Q → Call W Q (Unit {0})) (p : Ppvpa Q)
      (prr : Prr Q)
      → Guarded condition handle prr
      → OnlyWrites P
          (handle_if client (has_condition prr.status.conditions condition) (some handle) p prr)
  handle_if-only condition handle p prr g =
      elim (Bool-cases (has_condition prr.status.conditions condition)) [
        | inl h ↦ rw h (g p h)
        | inr h ↦ rw h (only_nothing P (ok tt))
      ]

  or_again-only :
      (r : Outcome ApiError (Unit {0})) (next : Call W Q Requeue)
      → OnlyWrites P next
      → OnlyWrites P (or_again client r next)
  or_again-only (ok u) next h = h
  or_again-only (err e) next h = only_nothing P (ok now_again)
  or_again-only panic next h = only_nothing P {A = Requeue} panic

  react-only :
      (anomaly budgeted : Ppvpa Q → Prr Q → Call W Q (Unit {0})) (prr : Prr Q)
      (found : Option (Ppvpa Q))
      → Guarded condition_anomalous anomaly prr
      → Guarded condition_infeasible budgeted prr
      → OnlyWrites P (react client (some anomaly) (some budgeted) prr found)
  unfolding react
  react-only anomaly budgeted prr none g h = only_nothing P (ok no_requeue)
  react-only anomaly budgeted prr (some p) g h =
      only_bind P (attempt first) (λ r. or_again client r later)
        (only_attempt P first (handle_if-only condition_anomalous anomaly p prr g))
        (λ r. or_again-only r later (
          only_bind P (attempt second) (λ q. or_again client q quit)
            (only_attempt P second (handle_if-only condition_infeasible budgeted p prr h))
            (λ q. or_again-only q quit (only_nothing P (ok no_requeue)))))
    where
      first : Call W Q (Unit {0})
      first =
          handle_if client (has_condition prr.status.conditions condition_anomalous) (some anomaly)
            p prr

      second : Call W Q (Unit {0})
      second =
          handle_if client (has_condition prr.status.conditions condition_infeasible)
            (some budgeted) p prr

      quit : Call W Q Requeue
      quit = done no_requeue

      later : Call W Q Requeue
      later = attempt second >>= λ q. or_again client q quit

  -- Suppose `P` allows whatever the anomaly handler writes for the PRR that the client returns, if that PRR has
  -- the condition Anomalous, and whatever the budgeted handler writes for it, if it has the condition Infeasible.
  -- Then `P` allows whatever Reconcile writes with these two handlers.
  pub reconcile_prr_lem :
      (anomaly budgeted : Ppvpa Q → Prr Q → Call W Q (Unit {0})) (namespace name : String)
      (s : Session W Q)
      → ((prr : Prr Q)
          → client.get_prr s.world namespace name ≡ ok prr
          → Guarded condition_anomalous anomaly prr × Guarded condition_infeasible budgeted prr)
      → (ws : List (Write Q)) × ((reconcile_prr client
            (some anomaly)
            (some budgeted)
            namespace
            name
            s).0.issued
          ≡ s.issued ++ ws)
        × All P ws
  unfolding reconcile_prr parent_ppvpa
  reconcile_prr_lem anomaly budgeted namespace name s g =
      elim (Outcome-cases (client.get_prr s.world namespace name)) [
        | inl (prr, f) ↦
            (let (a, b) = g prr f in
              rw f (
                only_bind P (parent_loop client prr.meta.namespace prr.meta.owner_references)
                  (λ found. react client (some anomaly) (some budgeted) prr found)
                  (parent_loop-only prr.meta.namespace prr.meta.owner_references)
                  (λ found. react-only anomaly budgeted prr found a b) s))
        | inr (inl (e, f)) ↦ elim (Bool-cases (is_not_found e)) [
          | inl h ↦ rw (f, h) ([], sym (append-nil s.issued), tt)
          | inr h ↦ rw (f, h) ([], sym (append-nil s.issued), tt)
        ]
        | inr (inr f) ↦ rw f ([], sym (append-nil s.issued), tt)
      ]
