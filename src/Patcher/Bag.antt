-- ===== src/Patcher/Bag.antt =====
-- What is queued, without its order: the bag of the patches of a queue.
use mathlib.Core.List.{Perm, foldr}
use mathlib.Core.List.Perm
use mathlib.Core.Quot
use mathlib.Core.Quot.{Quot, Quot-set}
use pp_vpa.Prelude.{◌≡◌, refl, sym, ap, ◌∙◌, List, [], ◌∷◌, All}
use pp_vpa.Float.{Float, Ieee}
use pp_vpa.Kube.{Quantities}
use pp_vpa.Patcher.{PendingPatch, push}
use pp_vpa.Patcher.Queue.{IsQueue, IsRanked, push-Pushed}

abbrev pub Bag : Type 0 → Type 0
Bag A = Quot {α = List A} Perm

module _ {A : Type 0} where
  abbrev pub bag : List A → Bag A
  bag xs = Quot.mk xs

  -- One more of `x`.
  unfoldable pub add_one : A → Bag A → Bag A
  add_one x = Quot.lift Quot-set (λ xs. Quot.mk (x ∷ xs)) (λ xs ys h. Quot.sound (Perm.cons x h))

  add_one_comm : (x y : A) (b : Bag A) → add_one x (add_one y b) ≡ add_one y (add_one x b)
  unfolding add_one
  add_one_comm x y = Quot.ind (λ b. Quot-set _ _) (λ xs. Quot.sound (Perm.swap y x xs))

  pub add_all : List A → Bag A → Bag A
  add_all xs b = foldr add_one b xs

  add_all-nil : (b : Bag A) → add_all [] b ≡ b
  unfolding add_all
  add_all-nil b = refl

  add_all-cons : (x : A) (xs : List A) (b : Bag A) → add_all (x ∷ xs) b ≡ add_one x (add_all xs b)
  unfolding add_all
  add_all-cons x xs b = refl

  add_all-add_one :
      (x : A) (xs : List A) (b : Bag A) → add_all xs (add_one x b) ≡ add_one x (add_all xs b)
  unfolding add_all
  add_all-add_one x [] b = refl
  add_all-add_one x (y ∷ xs) b =
      ap (add_one y) (add_all-add_one x xs b) ∙ add_one_comm y x (add_all xs b)

  -- A bag counts what is added, not the order of adding.
  add_all-perm : (xs ys : List A) → Perm xs ys → (b : Bag A) → add_all xs b ≡ add_all ys b
  unfolding add_all
  add_all-perm xs ys p b = Perm.foldr-eq Quot-set add_one add_one_comm p b

module _ {F Q : Type 0} ⦃float : Float F⦄ (quantities : Quantities Q) where
  -- Enqueue is called for the patches of a list, in its order.
  pub push_all : List (PendingPatch F Q) → List (PendingPatch F Q) → List (PendingPatch F Q)
  push_all q [] = q
  push_all q (p ∷ ps) = push_all (push quantities q p) ps

  push_all-bag :
      Ieee F
      → (q ps : List (PendingPatch F Q)) → IsQueue quantities q
      → All IsRanked ps
      → IsQueue quantities (push_all q ps) × (bag (push_all q ps) ≡ add_all ps (bag q))
  unfolding push_all add_one
  push_all-bag laws q [] v h = (v, sym (add_all-nil (bag q)))
  push_all-bag laws q (p ∷ ps) v (r, h) =
      let d = push-Pushed quantities laws q p v r in
      let (w, e) = push_all-bag laws (push quantities q p) ps d.valid h in
      (
        w,
        e
            ∙ ap (add_all ps) (Quot.sound d.same)
            ∙ add_all-add_one p ps (bag q)
            ∙ sym (add_all-cons p ps (bag q)),
      )

  -- Patches with priorities that are no NaN, enqueued on a valid queue: the queue stays valid, and
  -- what it then holds, as a bag, is what it held with the patches added; the same patches enqueued
  -- in another order leave the same bag.
  pub push_all-refines :
      Ieee F
      → (q ps qs : List (PendingPatch F Q)) → IsQueue quantities q
      → All IsRanked ps
      → All IsRanked qs
      → Perm ps qs
      → IsQueue quantities (push_all q ps)
        × (bag (push_all q ps) ≡ add_all ps (bag q))
        × (bag (push_all q qs) ≡ bag (push_all q ps))
  push_all-refines laws q ps qs v h k p =
      let (w, e) = push_all-bag laws q ps v h in
      (w, e, (push_all-bag laws q qs v k).1 ∙ add_all-perm qs ps (Perm.symm p) (bag q) ∙ sym e)
