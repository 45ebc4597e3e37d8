-- ===== src/Cluster/Writes.antt =====
-- The writes that a handler may issue, by the calls that it is made of.
use mathlib.Core.List.{append-nil, append_assoc}
use pp_vpa.Prelude.{
  ◌≡◌, refl, sym, ap, ◌∙◌, List, [], ◌∷◌, ◌++◌, Outcome, ok, err, panic, All, All-append,
}
use pp_vpa.Kube.{ApiError}
use pp_vpa.Cluster.{Write, Client, Session, Call, read, attempt, issue, ◌>>=◌}

module _ {W Q : Type 0} where
  -- Whatever the session, the call adds to its log writes that satisfy `P`, and nothing else.
  abbrev pub OnlyWrites : {A : Type 0} → (Write Q → Type 0) → Call W Q A → Type 0
  OnlyWrites P m =
      (s : Session W Q) → (ws : List (Write Q)) × ((m s).0.issued ≡ s.issued ++ ws) × All P ws

  module _ (P : Write Q → Type 0) where
    pub only_nothing : {A : Type 0} (r : Outcome ApiError A) → OnlyWrites {A = A} P (λ s. (s, r))
    only_nothing r s = ([], sym (append-nil s.issued), tt)

    pub only_read : {A : Type 0} (f : W → Outcome ApiError A) → OnlyWrites P (read {Q = Q} f)
    only_read f s = ([], sym (append-nil s.issued), tt)

    pub only_issue : (client : Client W Q) (w : Write Q) → P w → OnlyWrites P (issue client w)
    only_issue client w p s = (w ∷ [], refl, (p, tt))

    pub only_attempt : {A : Type 0} (m : Call W Q A) → OnlyWrites P m → OnlyWrites P (attempt m)
    only_attempt m h s = h s

    pub only_bind :
        {A B : Type 0} (m : Call W Q A) (f : A → Call W Q B)
        → OnlyWrites P m
        → ((a : A) → OnlyWrites P (f a))
        → OnlyWrites P (m >>= f)
    only_bind {A} {B} m f h k s = let (ws, e, p) = h s in go (m s) ws e p
      where
        go :
            (r : Session W Q × Outcome ApiError A) (ws : List (Write Q))
            → r.0.issued ≡ s.issued ++ ws
            → All P ws
            → (vs : List (Write Q)) × ((((λ (t : Session W Q). r) >>= f) s).0.issued
                ≡ s.issued ++ vs)
              × All P vs
        go (t, ok a) ws e p =
            let (vs, e', q) = k a t in
            (
              ws ++ vs,
              e' ∙ ap (λ x. x ++ vs) e ∙ append_assoc s.issued ws vs,
              All-append P ws vs p q,
            )
        go (t, err x) ws e p = (ws, e, p)
        go (t, panic) ws e p = (ws, e, p)
