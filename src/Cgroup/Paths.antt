-- ===== src/Cgroup/Paths.antt =====
-- filepath.Join of a clean root and plain names only puts slashes between them.
use Prim.Native.Char.{Char, char, code}
use text.Mathlib.TextLemmas.{append-nil, append_assoc, nil-append, cons-append}
use pp_vpa.Prelude.{
  true, false, List, [], ◌∷◌, ◌++◌, String, text_append, str_eq, ◌==◌, ◌≡◌, refl, sym, ap, ◌∙◌,
  arith, All, All-append,
}
use pp_vpa.Text.{is_empty, snoc}
use pp_vpa.Text.Words.{snoc-append}
use pp_vpa.Text.Lines.{Lacks}
use pp_vpa.Cgroup.{elements_from, clean_step, clean_elements, slashed, clean, with_slashes, join}

-- A name that filepath.Clean keeps: not empty, without a slash, and neither "." nor "..".
pub record IsName (e : String) : Type 0 where
  pub nonempty : is_empty e ≡ false
  pub no_slash : Lacks 47 e
  pub not_dot : str_eq e "." ≡ false
  pub not_dots : str_eq e ".." ≡ false

slash : Char
slash = char 47 tt

slash_first : (s : String) → text_append "/" s ≡ String.◌∷◌ slash s
unfolding slash
slash_first s = cons-append slash String.[] s ∙ ap (String.◌∷◌ slash) (nil-append s)

letter_step :
    (cur : String) (c : Char) (s : String)
    → (code c == 47) ≡ false
    → elements_from cur (String.◌∷◌ c s) ≡ elements_from (snoc cur c) s
unfolding elements_from
letter_step cur c s h = ground arith

elements_from-next :
    (e cur s : String)
    → Lacks 47 e
    → elements_from cur (text_append e (text_append "/" s))
      ≡ text_append cur e ∷ elements_from String.[] s
unfolding elements_from slash
elements_from-next String.[] cur s h =
    ap (elements_from cur) (nil-append (text_append "/" s) ∙ slash_first s)
    ∙ ap (λ x. x ∷ elements_from String.[] s) (sym (append-nil cur))
elements_from-next (String.◌∷◌ c e) cur s (p, h) =
    ap (elements_from cur) (cons-append c e (text_append "/" s))
    ∙ letter_step cur c (text_append e (text_append "/" s)) p
    ∙ elements_from-next e (snoc cur c) s h
    ∙ ap (λ x. x ∷ elements_from String.[] s) (snoc-append cur c e)

elements_from-last : (e cur : String) → Lacks 47 e → elements_from cur e ≡ text_append cur e ∷ []
unfolding elements_from
elements_from-last String.[] cur h = ap (λ x. x ∷ []) (sym (append-nil cur))
elements_from-last (String.◌∷◌ c e) cur (p, h) =
    letter_step cur c e p
    ∙ elements_from-last e (snoc cur c) h
    ∙ ap (λ x. x ∷ []) (snoc-append cur c e)

-- The elements of names with slashes between them are the names.
elements_from-with_slashes :
    (e : String) (es : List String)
    → All IsName (e ∷ es)
    → elements_from String.[] (with_slashes (e ∷ es)) ≡ e ∷ es
unfolding with_slashes
elements_from-with_slashes e [] (v, h) =
    elements_from-last e String.[] v.no_slash ∙ ap (λ x. x ∷ []) (nil-append e)
elements_from-with_slashes e (f ∷ es) (v, h) =
    elements_from-next e String.[] (with_slashes (f ∷ es)) v.no_slash
    ∙ ap (λ x. x ∷ elements_from String.[] (with_slashes (f ∷ es))) (nil-append e)
    ∙ ap (λ xs. e ∷ xs) (elements_from-with_slashes f es h)

-- The names in front of those kept, the last one first.
abbrev onto : List String → List String → List String
onto [] kept = kept
onto (e ∷ es) kept = onto es (e ∷ kept)

clean_elements-onto :
    (es kept : List String) → All IsName es → clean_elements true kept es ≡ onto es kept
unfolding clean_elements clean_step
clean_elements-onto [] kept h = refl
clean_elements-onto (e ∷ es) kept (v, h) =
    rw (v.nonempty, v.not_dot, v.not_dots) (clean_elements-onto es (e ∷ kept) h)

slashed-onto :
    (e : String) (es : List String) (k : String) (ks : List String)
    → slashed (onto (e ∷ es) (k ∷ ks))
      ≡ text_append (slashed (k ∷ ks)) (text_append "/" (with_slashes (e ∷ es)))
unfolding slashed with_slashes
slashed-onto e [] k ks = refl
slashed-onto e (f ∷ es) k ks =
    slashed-onto f es e (k ∷ ks)
    ∙ append_assoc (slashed (k ∷ ks)) (text_append "/" e) (text_append "/" (with_slashes (f ∷ es)))
    ∙ ap (text_append (slashed (k ∷ ks)))
        (append_assoc "/" e (text_append "/" (with_slashes (f ∷ es))))

slashed-names : (e : String) (es : List String) → slashed (onto (e ∷ es) []) ≡ with_slashes (e ∷ es)
unfolding slashed with_slashes
slashed-names e [] = refl
slashed-names e (f ∷ es) = slashed-onto f es e []

with_slashes-append :
    (e : String) (es : List String) (f : String) (fs : List String)
    → text_append (with_slashes (e ∷ es)) (text_append "/" (with_slashes (f ∷ fs)))
      ≡ with_slashes ((e ∷ es) ++ (f ∷ fs))
unfolding with_slashes
with_slashes-append e [] f fs = refl
with_slashes-append e (g ∷ es) f fs =
    append_assoc e (text_append "/" (with_slashes (g ∷ es)))
      (text_append "/" (with_slashes (f ∷ fs)))
    ∙ ap (text_append e) (
        append_assoc "/" (with_slashes (g ∷ es)) (text_append "/" (with_slashes (f ∷ fs)))
        ∙ ap (text_append "/") (with_slashes-append g es f fs))

-- A clean absolute path.
abbrev pub absolute : List String → String
absolute es = text_append "/" (with_slashes es)

clean-rooted :
    (s : String)
    → clean (String.◌∷◌ slash s)
      ≡ text_append "/" (slashed (clean_elements true [] (elements_from String.[] s)))
unfolding clean slash elements_from clean_elements clean_step
clean-rooted s = refl

clean-absolute :
    (e : String) (es : List String)
    → All IsName (e ∷ es)
    → clean (absolute (e ∷ es)) ≡ absolute (e ∷ es)
clean-absolute e es h =
    let names = e ∷ es in
    ap clean (slash_first (with_slashes names))
    ∙ clean-rooted (with_slashes names)
    ∙ ap (λ x. text_append "/" (slashed (clean_elements true [] x)))
        (elements_from-with_slashes e es h)
    ∙ ap (λ x. text_append "/" (slashed x)) (clean_elements-onto names [] h)
    ∙ ap (text_append "/") (slashed-names e es)

pub absolute-nonempty : (es : List String) → is_empty (absolute es) ≡ false
unfolding slash
absolute-nonempty es = ap is_empty (slash_first (with_slashes es))

pub join-absolute :
    (e : String) (es : List String) (f : String) (fs : List String)
    → All IsName (e ∷ es)
    → All IsName (f ∷ fs)
    → join (absolute (e ∷ es) ∷ f ∷ fs) ≡ absolute ((e ∷ es) ++ (f ∷ fs))
unfolding join with_slashes
join-absolute e es f fs h k =
    let whole : text_append (absolute (e ∷ es)) (text_append "/" (with_slashes (f ∷ fs)))
        ≡ absolute ((e ∷ es) ++ (f ∷ fs)) =
      append_assoc "/" (with_slashes (e ∷ es)) (text_append "/" (with_slashes (f ∷ fs)))
      ∙ ap (text_append "/") (with_slashes-append e es f fs) in
    rw (absolute-nonempty (e ∷ es))
      (ap clean whole ∙ clean-absolute e (es ++ f ∷ fs) (All-append IsName (e ∷ es) (f ∷ fs) h k))
