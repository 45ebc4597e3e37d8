-- ===== src/Controller/StoreTests.antt =====
-- reconcilePRRs on a cluster that is the list of its PRRs.
use pp_vpa.Prelude.{
  ◌≡◌, refl, ℕ, true, false, none, List, [], ◌∷◌, ◌++◌, String, str_eq, eq_iff, ok, All, arith,
  if◌then◌else◌, ◌∙◌, ap,
}
use pp_vpa.Api.{Prr}
use pp_vpa.Cluster.{Pod, Write, create_prr, delete_prr, Client, Session}
use pp_vpa.Cluster.Samples.{sample_client, sample_ppvpa, sample_prr, sample_pod}
use pp_vpa.Controller.Prrs.{
  new_prr, is_owned_by, owned_prrs, put, has_key, by_pod_loop, list_owned_prrs, create_for,
  create_missing, delete_unless_live, delete_orphans, reconcile_prrs,
}
use pp_vpa.Controller.Garbage.{targets}
use pp_vpa.Controller.Store.{IsStore, Has}
use pp_vpa.Controller.Settled.{IsDeletion, reconcile_prrs-settles}

without : String → List (Prr ℕ) → List (Prr ℕ)
without name [] = []
without name (p ∷ ps) =
    let rest = without name ps in if str_eq p.spec.target_pod_name name then rest else p ∷ rest

abbrev written : List (Prr ℕ) → Write ℕ → List (Prr ℕ)
written ps (create_prr p) = ps ++ p ∷ []
written ps (delete_prr p) = without p.spec.target_pod_name ps
written ps w = ps

abbrev fixed_world : ℕ
fixed_world = 0

abbrev keeping : Client (List (Prr ℕ)) ℕ
keeping = record {
  get_ppvpa = λ w. sample_client.get_ppvpa 0;
  get_prr = λ w. sample_client.get_prr 0;
  get_pod = λ w. sample_client.get_pod 0;
  get_replica_set = λ w. sample_client.get_replica_set 0;
  get_deployment = λ w. sample_client.get_deployment 0;
  get_checkpoint = λ w. sample_client.get_checkpoint 0;
  list_ppvpas = λ w. sample_client.list_ppvpas 0;
  list_prrs = λ w namespace. ok w;
  list_pods = λ w. sample_client.list_pods 0;
  list_replica_sets = λ w. sample_client.list_replica_sets 0;
  write = λ w x. (written w x, none);
}

-- What the name of a pod finds in a list of two parts.
targets-append :
    (uid name : String) (xs ys : List (Prr ℕ))
    → targets (owned_prrs uid (xs ++ ys)) name
      ≡ (if targets (owned_prrs uid xs) name then true else targets (owned_prrs uid ys) name)
unfolding targets owned_prrs
targets-append uid name [] ys = refl
targets-append uid name (p ∷ xs) ys = ground (arith, targets-append uid name xs ys)

targets-without :
    (uid name gone : String) (ps : List (Prr ℕ))
    → str_eq gone name ≡ false
    → targets (owned_prrs uid (without gone ps)) name ≡ targets (owned_prrs uid ps) name
unfolding targets owned_prrs without
targets-without uid name gone [] h = refl
targets-without uid name gone (p ∷ ps) h =
    ground (arith, targets-without uid name gone ps h, eq_iff p.spec.target_pod_name gone, other)
  where
    other : str_eq p.spec.target_pod_name gone ≡ true → str_eq p.spec.target_pod_name name ≡ false
    other e = ap (λ z. str_eq z name) ((eq_iff _ _).0 e) ∙ h

one_target :
    (uid : String) (p : Prr ℕ)
    → is_owned_by uid p.meta.owner_references ≡ true
    → targets (owned_prrs uid (p ∷ [])) p.spec.target_pod_name ≡ true
unfolding targets owned_prrs
one_target uid p h = ground (arith, eq_iff p.spec.target_pod_name p.spec.target_pod_name)

abbrev whole : List (Prr ℕ) → List (Prr ℕ)
whole w = w

keeping-IsStore : IsStore keeping "default" whole
keeping-IsStore = record {
  listed = λ w. refl;
  create_keeps = λ w p uid name h. rw (targets-append uid name w (p ∷ []), h) refl;
  create_adds = λ w p uid e h.
      rw (targets-append uid p.spec.target_pod_name w (p ∷ []), one_target uid p h) (ground arith);
  delete_keeps = λ w p uid name h k. rw (targets-without uid name p.spec.target_pod_name w h) k;
}

abbrev before : Session (List (Prr ℕ)) ℕ
before = record { world = sample_prr "a" ∷ sample_prr "gone" ∷ []; issued = [] }

abbrev pods : List (Pod ℕ)
pods = sample_pod "a" ∷ sample_pod "b" ∷ []

abbrev as_it_is : List (String × Prr ℕ) → List (String × Prr ℕ)
as_it_is m = m

-- The first pass creates the PRR of "b" and deletes the one of "gone".
first_pass :
    (reconcile_prrs keeping as_it_is (sample_ppvpa 2) pods before).0.issued
    ≡ create_prr (new_prr (sample_ppvpa 2) (sample_pod "b")) ∷ delete_prr (sample_prr "gone") ∷ []
unfolding reconcile_prrs list_owned_prrs owned_prrs is_owned_by by_pod_loop put has_key
    create_missing create_for delete_orphans delete_unless_live
first_pass = refl

reconcile_prrs-settles_example :
    let (t, r) = reconcile_prrs keeping as_it_is (sample_ppvpa 2) pods before in
    (r ≡ ok tt)
    × All (λ pod. Has (sample_ppvpa 2) whole t pod.meta.name) pods
    × (ws : List (Write ℕ)) × ((reconcile_prrs keeping as_it_is (sample_ppvpa 2) pods t).0.issued
        ≡ t.issued ++ ws)
    × All IsDeletion ws
reconcile_prrs-settles_example =
    reconcile_prrs-settles keeping (sample_ppvpa 2) whole keeping-IsStore (λ w x. refl) as_it_is
      as_it_is pods before (λ P m h. h)
