-- ===== src/Recommender/Names.antt =====
-- uniqueContainerNames of internal/recommender/recommend.go against the names that its input mentions.
use pp_vpa.Prelude.{
  ◌≡◌, refl, sym, subst, Bool, true, false, List, [], ◌∷◌, ◌++◌, String, str_eq, contains, arith,
  if◌then◌else◌, Bool-cases, eq_iff, inl, inr,
}
use pp_vpa.Api.{Prr, ContainerRecommendation}
use pp_vpa.Recommender.Recommend.{add_name, add_names, names_loop, unique_container_names}

-- No name stands twice.
abbrev pub Distinct : List String → Type 0
Distinct [] = Unit {0}
Distinct (x ∷ xs) = (contains xs x ≡ false) × Distinct xs

module _ {Q : Type 0} where
  -- A container of the list, or of a resource of the list, has the name.
  unfoldable pub mentions_any : List (ContainerRecommendation Q) → String → Bool
  mentions_any [] s = false
  mentions_any (c ∷ cs) s = if str_eq c.container_name s then true else mentions_any cs s

  unfoldable pub mentioned : List (Prr Q) → String → Bool
  mentioned [] s = false
  mentioned (p ∷ ps) s =
      if mentions_any p.status.container_recommendations s then true else mentioned ps s

abbrev mentions_or : Bool → Bool → Bool
mentions_or a b = if a then true else b

contains-append :
    (xs : List String) (x s : String)
    → contains (xs ++ x ∷ []) s ≡ mentions_or (contains xs s) (str_eq x s)
contains-append [] x s = ground arith
contains-append (y ∷ ys) x s = ground (arith, contains-append ys x s)

contains_self :
    (xs : List String) (x s : String)
    → contains xs x ≡ true
    → str_eq x s ≡ true
    → contains xs s ≡ true
contains_self xs x s h e = subst (λ z. contains xs z ≡ true) ((eq_iff x s).0 e) h

contains-add_name :
    (xs : List String) (x s : String)
    → contains (add_name xs x) s ≡ mentions_or (contains xs s) (str_eq x s)
contains-add_name xs x s = ground (arith, contains-append xs x s, contains_self xs x s)

str_eq_sym : (x y : String) → str_eq x y ≡ true → str_eq y x ≡ true
str_eq_sym x y e = (eq_iff y x).1 (sym ((eq_iff x y).0 e))

append-Distinct :
    (xs : List String) (x : String) → Distinct xs → contains xs x ≡ false → Distinct (xs ++ x ∷ [])
append-Distinct [] x d h = (refl, d)
append-Distinct (y ∷ ys) x (h, d) k =
    (ground (arith, contains-append ys x y, str_eq_sym x y), append-Distinct ys x d (ground arith))

add_name-Distinct : (xs : List String) (x : String) → Distinct xs → Distinct (add_name xs x)
add_name-Distinct xs x d = elim (Bool-cases (contains xs x)) [
  | inl e ↦ rw e d
  | inr e ↦ rw e (append-Distinct xs x d e)
]

module _ {Q : Type 0} where
  contains-add_names :
      (out : List String) (cs : List (ContainerRecommendation Q)) (s : String)
      → contains (add_names out cs) s ≡ mentions_or (contains out s) (mentions_any cs s)
  unfolding add_names mentions_any
  contains-add_names out [] s = ground arith
  contains-add_names out (c ∷ cs) s = ground (
    arith,
    contains-add_names (add_name out c.container_name) cs s,
    contains-add_name out c.container_name s,
  )

  add_names-Distinct :
      (out : List String) (cs : List (ContainerRecommendation Q))
      → Distinct out
      → Distinct (add_names out cs)
  unfolding add_names
  add_names-Distinct out [] d = d
  add_names-Distinct out (c ∷ cs) d =
      add_names-Distinct (add_name out c.container_name) cs
        (add_name-Distinct out c.container_name d)

  contains-names_loop :
      (out : List String) (ps : List (Prr Q)) (s : String)
      → contains (names_loop out ps) s ≡ mentions_or (contains out s) (mentioned ps s)
  unfolding names_loop mentioned
  contains-names_loop out [] s = ground arith
  contains-names_loop out (p ∷ ps) s = ground (
    arith,
    contains-names_loop (add_names out p.status.container_recommendations) ps s,
    contains-add_names out p.status.container_recommendations s,
  )

  names_loop-Distinct :
      (out : List String) (ps : List (Prr Q)) → Distinct out → Distinct (names_loop out ps)
  unfolding names_loop
  names_loop-Distinct out [] d = d
  names_loop-Distinct out (p ∷ ps) d =
      names_loop-Distinct (add_names out p.status.container_recommendations) ps
        (add_names-Distinct out p.status.container_recommendations d)

  -- uniqueContainerNames returns every container name that the PRRs mention, no other, and none
  -- twice.
  pub unique_container_names_lem :
      (ps : List (Prr Q))
      → Distinct (unique_container_names ps)
        × ((s : String) → contains (unique_container_names ps) s ≡ mentioned ps s)
  unique_container_names_lem ps = (names_loop-Distinct [] ps tt, λ s. contains-names_loop [] ps s)
