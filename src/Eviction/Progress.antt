-- ===== src/Eviction/Progress.antt =====
-- On a cluster that stores status patches, repeated calls of the budgeted Handle use the budget up.
use pp_vpa.Prelude.{ℕ, zero, suc, ◌+◌, ◌<◌, ◌^◌, ◌≡◌, refl, ap, ◌∙◌, true, String, ok, none, arith}
use pp_vpa.Prelude.Int.{pos, ◌+ℤ◌, ltb_ℤ, int32}
use pp_vpa.Clock.{Time}
use pp_vpa.Api.{Ppvpa, Prr}
use pp_vpa.Cluster.{
  patch_ppvpa_status, Client, Session, Call, answer, continue_with, done, read, issue, ◌>>=◌,
}
use pp_vpa.Eviction.{Scaling, max_surge, with_temporary, handle_budgeted, bump}

module _ {W Q : Type 0} (client : Client W Q) (scaled : Scaling) (now : Time) (prr : Prr Q)
    (namespace name : String) where
  -- A call of Handle for the PP-VPA as the cluster has it, and a number of such calls.
  abbrev pub round : Call W Q (Unit {0})
  round =
      read (λ w. client.get_ppvpa w namespace name)
      >>= (λ p. handle_budgeted client scaled now p prr)

  pub rounds : ℕ → Call W Q (Unit {0})
  rounds zero = done tt
  rounds (suc n) = round >>= (λ u. rounds n)

  -- A patch of the status of this PP-VPA succeeds, and the patched object is read back.
  pub record Stores : Type 0 where
    pub accepts : (w : W) (p q : Ppvpa Q) → (client.write w (patch_ppvpa_status p q)).1 ≡ none
    pub keeps :
        (w : W) (p q : Ppvpa Q)
        → client.get_ppvpa w namespace name ≡ ok q
        → client.get_ppvpa (client.write w (patch_ppvpa_status p q)).0 namespace name ≡ ok p

  one_more :
      (p : Ppvpa Q) (t m : ℕ)
      → p.status.temporary_replicas ≡ pos t
      → t < m
      → m < 2 ^ 31
      → int32 (p.status.temporary_replicas +ℤ pos 1) ≡ pos (t + 1)
  unfolding int32 ◌+ℤ◌
  one_more p t m h l f = ap (λ x. int32 (x +ℤ pos 1)) h ∙ ground (arith, l, f)

  below :
      (p : Ppvpa Q) (t m : ℕ)
      → p.status.temporary_replicas ≡ pos t
      → max_surge scaled p ≡ pos m
      → t < m
      → ltb_ℤ p.status.temporary_replicas (max_surge scaled p) ≡ true
  below p t m h k l =
      ap (λ x. ltb_ℤ x (max_surge scaled p)) h ∙ ap (ltb_ℤ (pos t)) k ∙ ground (arith, l)

  handle_step :
      (t m : ℕ) (p : Ppvpa Q) (s : Session W Q)
      → p.status.temporary_replicas ≡ pos t
      → max_surge scaled p ≡ pos m
      → t < m
      → m < 2 ^ 31
      → handle_budgeted client scaled now p prr s
        ≡ issue client (patch_ppvpa_status (with_temporary p (pos (t + 1))) p) s
  unfolding handle_budgeted bump
  handle_step t m p s h k l f =
      rw (below p t m h k l) (
        ap (λ x. issue client (patch_ppvpa_status (with_temporary p x) p) s) (one_more p t m h l f))

  round_step :
      (stores : Stores) (n t m : ℕ) (p : Ppvpa Q) (s : Session W Q)
      → client.get_ppvpa s.world namespace name ≡ ok p
      → p.status.temporary_replicas ≡ pos t
      → max_surge scaled p ≡ pos m
      → t < m
      → m < 2 ^ 31
      → let p' = with_temporary p (pos (t + 1)) in
        rounds (suc n) s ≡ rounds n (issue client (patch_ppvpa_status p' p) s).0
  unfolding rounds
  round_step stores n t m p s e h k l f =
      let w = patch_ppvpa_status (with_temporary p (pos (t + 1))) p in
      ap
        (λ r.
          (continue_with r (λ q. handle_budgeted client scaled now q prr) >>= (λ u. rounds n)) s)
        e
      ∙ ap (λ r. continue_with r.1 (λ u. rounds n) r.0) (handle_step t m p s h k l f)
      ∙ ap (λ x. continue_with (answer x) (λ u. rounds n) (issue client w s).0)
          (stores.accepts s.world (with_temporary p (pos (t + 1))) p)

  -- Where Handle is called again and again for a PP-VPA with t temporary replicas and a budget
  -- of m, below 2^31, on a cluster that stores status patches, m - t calls leave it with m
  -- temporary replicas and everything else as it was.
  pub rounds-reach :
      (stores : Stores) (n t m : ℕ) (p : Ppvpa Q) (s : Session W Q)
      → client.get_ppvpa s.world namespace name ≡ ok p
      → p.status.temporary_replicas ≡ pos t
      → max_surge scaled p ≡ pos m
      → t + n ≡ m
      → m < 2 ^ 31
      → client.get_ppvpa (rounds n s).0.world namespace name ≡ ok (with_temporary p (pos m))
  unfolding rounds max_surge
  rounds-reach stores zero t m p s e h k q f =
      e ∙ ap (λ i. ok (with_temporary p i)) (h ∙ ap pos (omega arith))
  rounds-reach stores (suc n) t m p s e h k q f =
      let p' = with_temporary p (pos (t + 1)) in
      ap (λ r. client.get_ppvpa r.0.world namespace name)
        (round_step stores n t m p s e h k (omega arith) f)
      ∙ rounds-reach stores n (t + 1) m p' (issue client (patch_ppvpa_status p' p) s).0
          (stores.keeps s.world p' p e) refl k (omega arith) f
