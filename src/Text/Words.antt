-- ===== src/Text/Words.antt =====
-- What strings.Fields makes of a text: the words between blanks, which trimming does not change.
use Prim.Native.Char.{Char, char, code}
use mathlib.Core.List.{cons-ne-nil}
use text.Mathlib.TextLemmas.{append-nil, append_assoc, nil-append, cons-append}
use pp_vpa.Prelude.{
  Bool, true, false, List, [], ◌∷◌, String, text_append, ◌≡◌, refl, sym, ap, ◌∙◌, arith, All,
  Bool-cases, &&-split, ◌&&◌, not, ◌==◌, if◌then◌else◌, subst, inl, inr,
}
use pp_vpa.Text.{
  is_space, snoc, emit, fields_from, fields, is_empty, trim_left, trim_right, trim_space, drop_cr,
}

-- Every character of the text is no blank.
abbrev pub HasNoSpace : String → Type 0
HasNoSpace String.[] = Unit
HasNoSpace (String.◌∷◌ c s) = (is_space c ≡ false) × HasNoSpace s

-- The same as a test.
abbrev pub has_no_space : String → Bool
has_no_space String.[] = true
has_no_space (String.◌∷◌ c s) = not (is_space c) && has_no_space s

pub has_no_space_lem : (s : String) → has_no_space s ≡ true → HasNoSpace s
has_no_space_lem String.[] h = tt
has_no_space_lem (String.◌∷◌ c s) h =
    let (p, q) = &&-split (not (is_space c)) (has_no_space s) h in
    (ground arith, has_no_space_lem s q)

abbrev pub IsNonempty : String → Type 0
IsNonempty s = is_empty s ≡ false

abbrev pub IsWord : String → Type 0
IsWord s = IsNonempty s × HasNoSpace s

pub snoc-append :
    (s : String) (c : Char) (t : String) → text_append (snoc s c) t ≡ text_append s (String.◌∷◌ c t)
snoc-append s c t =
    append_assoc s (String.◌∷◌ c String.[]) t
    ∙ ap (text_append s) (cons-append c String.[] t ∙ ap (String.◌∷◌ c) (nil-append t))

fields_from-blank :
    (cur : String) (c : Char) (s : String)
    → is_space c ≡ true
    → fields_from cur (String.◌∷◌ c s) ≡ emit cur (fields_from String.[] s)
unfolding fields_from
fields_from-blank cur c s h = ground arith

fields_from-letter :
    (cur : String) (c : Char) (s : String)
    → is_space c ≡ false
    → fields_from cur (String.◌∷◌ c s) ≡ fields_from (snoc cur c) s
unfolding fields_from
fields_from-letter cur c s h = ground arith

-- A word is read whole.
pub fields_from-word :
    (w cur s : String)
    → HasNoSpace w
    → fields_from cur (text_append w s) ≡ fields_from (text_append cur w) s
fields_from-word String.[] cur s h = rw (nil-append, append-nil)
fields_from-word (String.◌∷◌ c w) cur s (p, h) =
    ap (fields_from cur) (cons-append c w s)
    ∙ fields_from-letter cur c (text_append w s) p
    ∙ fields_from-word w (snoc cur c) s h
    ∙ ap (λ x. fields_from x s) (snoc-append cur c w)

-- Two texts that give the same words behind every word.
abbrev IsSame : String → String → Type 0
IsSame s t = (cur : String) → fields_from cur s ≡ fields_from cur t

IsSame-cons : (c : Char) (s t : String) → IsSame s t → IsSame (String.◌∷◌ c s) (String.◌∷◌ c t)
unfolding fields_from
IsSame-cons c s t h cur = elim (Bool-cases (is_space c)) [
  | inl p ↦ ground (arith, h String.[])
  | inr p ↦ ground (arith, h (snoc cur c))
]

-- A blank at the end gives no word.
blank_end : (c : Char) → is_space c ≡ true → IsSame String.[] (String.◌∷◌ c String.[])
unfolding fields_from
blank_end c p cur = sym (fields_from-blank cur c String.[] p)

-- A character is dropped only if it is a blank and nothing is left behind it.
cut_end :
    (b : Bool) (c : Char) (r s : String)
    → (b ≡ true → (r ≡ String.[]) × (is_space c ≡ true))
    → IsSame r s
    → IsSame (if b then String.[] else String.◌∷◌ c r) (String.◌∷◌ c s)
cut_end true c r s h same = λ cur.
    let (e, p) = h refl in
    blank_end c p cur ∙ IsSame-cons c String.[] s (subst (λ x. IsSame x s) e same) cur
cut_end false c r s h same = IsSame-cons c r s same

pub empty_text : (s : String) → is_empty s ≡ true → s ≡ String.[]
empty_text String.[] h = refl
empty_text (String.◌∷◌ c s) h = cc

trim_right-IsSame : (s : String) → IsSame (trim_right s) s
unfolding trim_right
trim_right-IsSame String.[] = λ cur. refl
trim_right-IsSame (String.◌∷◌ c s) =
    cut_end (is_empty (trim_right s) && is_space c) c (trim_right s) s
      (λ h. let (e, p) = &&-split _ _ h in (empty_text _ e, p)) (trim_right-IsSame s)

trim_left-IsSame : (s : String) → fields_from String.[] (trim_left s) ≡ fields_from String.[] s
unfolding trim_left
trim_left-IsSame String.[] = refl
trim_left-IsSame (String.◌∷◌ c s) = elim (Bool-cases (is_space c)) [
  | inl p ↦ ground (arith, trim_left-IsSame s, fields_from-blank String.[] c s p)
  | inr p ↦ ground arith
]

carriage_return : (c : Char) → (code c == 13) ≡ true → is_space c ≡ true
unfolding is_space
carriage_return c h = ground arith

drop_cr-IsSame : (s : String) → IsSame (drop_cr s) s
unfolding drop_cr
drop_cr-IsSame String.[] = λ cur. refl
drop_cr-IsSame (String.◌∷◌ c s) =
    cut_end (is_empty s && code c == 13) c (drop_cr s) s
      (λ h. let (e, p) = &&-split _ _ h in (ap drop_cr (empty_text s e), carriage_return c p))
      (drop_cr-IsSame s)

pub fields-trim_space : (s : String) → fields (trim_space s) ≡ fields s
unfolding fields trim_space
fields-trim_space s = trim_right-IsSame (trim_left s) String.[] ∙ trim_left-IsSame s

pub fields-drop_cr : (s : String) → fields (drop_cr s) ≡ fields s
unfolding fields
fields-drop_cr s = drop_cr-IsSame s String.[]

-- Words with a blank between them.
abbrev pub spaced : String → List String → String
spaced w [] = w
spaced w (v ∷ ws) = text_append w (text_append " " (spaced v ws))

abbrev pub AllWords : List String → Type 0
AllWords = All IsWord

pub HasNoSpace-append : (s t : String) → HasNoSpace s → HasNoSpace t → HasNoSpace (text_append s t)
HasNoSpace-append String.[] t p q = rw (nil-append t) q
HasNoSpace-append (String.◌∷◌ c s) t (h, p) q =
    subst HasNoSpace (sym (cons-append c s t)) (h, HasNoSpace-append s t p q)

pub IsNonempty-append : (s t : String) → IsNonempty s → IsNonempty (text_append s t)
IsNonempty-append String.[] t p = cc
IsNonempty-append (String.◌∷◌ c s) t p = subst IsNonempty (sym (cons-append c s t)) refl

emit-nonempty : (w : String) (ws : List String) → IsNonempty w → emit w ws ≡ w ∷ ws
emit-nonempty String.[] ws h = cc
emit-nonempty (String.◌∷◌ c w) ws h = refl

fields-word : (w : String) → IsWord w → fields w ≡ w ∷ []
unfolding fields fields_from
fields-word w (n, h) =
    ap (fields_from String.[]) (sym (append-nil w))
    ∙ fields_from-word w String.[] String.[] h
    ∙ ap (λ x. fields_from x String.[]) (nil-append w)
    ∙ emit-nonempty w [] n

blank : Char
blank = char 32 tt

blank_first : (s : String) → text_append " " s ≡ String.◌∷◌ blank s
unfolding blank
blank_first s = cons-append blank String.[] s ∙ ap (String.◌∷◌ blank) (nil-append s)

fields-next : (w s : String) → IsWord w → fields (text_append w (text_append " " s)) ≡ w ∷ fields s
unfolding fields
fields-next w s (n, h) =
    fields_from-word w String.[] (text_append " " s) h
    ∙ ap (λ x. fields_from x (text_append " " s)) (nil-append w)
    ∙ ap (fields_from w) (blank_first s)
    ∙ fields_from-blank w blank s (unfold is_space blank in refl)
    ∙ emit-nonempty w (fields_from String.[] s) n

-- Fields gives the words back.
pub fields-spaced :
    (w : String) (ws : List String) → IsWord w → AllWords ws → fields (spaced w ws) ≡ w ∷ ws
fields-spaced w [] h hs = fields-word w h
fields-spaced w (v ∷ ws) h (hv, hs) =
    fields-next w (spaced v ws) h ∙ ap (λ x. w ∷ x) (fields-spaced v ws hv hs)

no_fields : fields String.[] ≡ []
unfolding fields fields_from
no_fields = refl

-- A text with a word in it is not empty when trimmed.
pub trim_space-IsNonempty :
    (s w : String) (ws : List String) → fields s ≡ w ∷ ws → IsNonempty (trim_space s)
trim_space-IsNonempty s w ws f = elim (Bool-cases (is_empty (trim_space s))) [
  | inr e ↦ e
  | inl e ↦ absurd (
      cons-ne-nil w ws
        (sym f ∙ sym (fields-trim_space s) ∙ ap fields (empty_text (trim_space s) e) ∙ no_fields))
]
