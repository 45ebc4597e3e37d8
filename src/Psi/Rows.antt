-- ===== src/Psi/Rows.antt =====
-- What Parse makes of the rows that the kernel prints.
use pp_vpa.Prelude.{
  ◌≡◌, refl, ap, ◌∙◌, arith, false, List, [], ◌∷◌, map, Option, none, some, String, text_append,
  inr, All, str_eq, eq_iff, if◌then◌else◌, ◌≢◌,
}
use pp_vpa.Float.{Float}
use pp_vpa.Text.{is_space, ScanError, fields, parse_uint, drop_cr}
use pp_vpa.Text.Words.{
  has_no_space_lem, HasNoSpace, IsWord, HasNoSpace-append, IsNonempty-append, spaced, fields-spaced,
  fields-trim_space, fields-drop_cr, trim_space-IsNonempty,
}
use pp_vpa.Text.Lines.{lacks-Lacks, IsLine, file_of, scan_lines-file_of, cut-pair, Lacks}
use pp_vpa.Psi.{
  Line, Stats, no_line, no_stats, set_pair, set_pairs, set_line, parse_fields, parse_line,
  parse_lines, parse, with_float, with_total,
}

some-ne-full : ◌≢◌ {A = String} "some" "full"
some-ne-full = ground (arith, eq_iff "some" "full")

-- A row: the texts that are printed, and the line that they stand for.
pub record Row (F : Type 0) : Type 0 where
  pub kind : String
  pub text10 : String
  pub text60 : String
  pub text300 : String
  pub text_total : String
  pub line : Line F

-- key=value
abbrev pub pair : String → String → String
pair k v = text_append k (text_append "=" v)

keys : IsWord "avg10" × IsWord "avg60" × IsWord "avg300" × IsWord "total"
unfolding is_space
keys = (
  (refl, has_no_space_lem "avg10" refl),
  (refl, has_no_space_lem "avg60" refl),
  (refl, has_no_space_lem "avg300" refl),
  (refl, has_no_space_lem "total" refl),
)

keys_cut : Lacks 61 "avg10" × Lacks 61 "avg60" × Lacks 61 "avg300" × Lacks 61 "total"
keys_cut = (
  lacks-Lacks 61 "avg10" refl,
  lacks-Lacks 61 "avg60" refl,
  lacks-Lacks 61 "avg300" refl,
  lacks-Lacks 61 "total" refl,
)

pair-IsWord : (k v : String) → IsWord k → HasNoSpace v → IsWord (pair k v)
pair-IsWord k v (n, h) hv = (
  IsNonempty-append k (text_append "=" v) n,
  HasNoSpace-append k (text_append "=" v) h
      (HasNoSpace-append "=" v (unfold is_space in (refl, tt)) hv),
)

module _ {F : Type 0} where
  abbrev pub pairs_of : Row F → List String
  pairs_of r =
      pair "avg10" r.text10
      ∷ pair "avg60" r.text60
      ∷ pair "avg300" r.text300
      ∷ pair "total" r.text_total
      ∷ []

  -- <kind> avg10=<..> avg60=<..> avg300=<..> total=<..>
  abbrev pub print : Row F → String
  print r = spaced r.kind (pairs_of r)

module _ {F : Type 0} ⦃float : Float F⦄ where
  -- The line of the last row of a kind.
  abbrev pub last_of : String → Line F → List (Row F) → Line F
  last_of kind l [] = l
  last_of kind l (r ∷ rs) = last_of kind (if str_eq r.kind kind then r.line else l) rs

  -- The texts have no blank and parse to the numbers of the line; the row fits the scanner.
  pub record IsRow (r : Row F) : Type 0 where
    pub word : IsWord r.kind
    pub solid10 : HasNoSpace r.text10
    pub solid60 : HasNoSpace r.text60
    pub solid300 : HasNoSpace r.text300
    pub solid_total : HasNoSpace r.text_total
    pub reads10 : float.parse_float r.text10 ≡ some r.line.avg10
    pub reads60 : float.parse_float r.text60 ≡ some r.line.avg60
    pub reads300 : float.parse_float r.text300 ≡ some r.line.avg300
    pub reads_total : parse_uint r.text_total ≡ (r.line.total_us, none)
    pub fits : IsLine (print r)

  fields-print : (r : Row F) → IsRow r → fields (print r) ≡ r.kind ∷ pairs_of r
  fields-print r v = fields-spaced r.kind (pairs_of r) v.word (
    pair-IsWord "avg10" r.text10 keys.0 v.solid10,
    (
      pair-IsWord "avg60" r.text60 keys.1 v.solid60,
      (
        pair-IsWord "avg300" r.text300 keys.2 v.solid300,
        (pair-IsWord "total" r.text_total keys.3 v.solid_total, tt),
      ),
    ),
  )

  next_pair :
      (k v : String) (l l' : Line F) (kvs : List String)
      → Lacks 61 k
      → set_pair l k v ≡ inr l'
      → set_pairs l (pair k v ∷ kvs) ≡ set_pairs l' kvs
  unfolding set_pairs
  next_pair k v l l' kvs h e = ground (arith, e, cut-pair k v h)

  set_pairs-pairs_of : (r : Row F) → IsRow r → set_pairs no_line (pairs_of r) ≡ inr r.line
  unfolding set_pairs set_pair with_float with_total
  set_pairs-pairs_of r v = ground (
    arith,
    cut-pair "avg10" r.text10 keys_cut.0,
    cut-pair "avg60" r.text60 keys_cut.1,
    cut-pair "avg300" r.text300 keys_cut.2,
    cut-pair "total" r.text_total keys_cut.3,
    v.reads10,
    v.reads60,
    v.reads300,
    v.reads_total,
  )

  parse_line-fields :
      (s : Stats F) (text kind a b c d : String) (l : Line F)
      → fields text ≡ kind ∷ a ∷ b ∷ c ∷ d ∷ []
      → set_pairs no_line (a ∷ b ∷ c ∷ d ∷ []) ≡ inr l
      → parse_line s text ≡ inr (set_line s kind l)
  unfolding parse_line parse_fields
  parse_line-fields s text kind a b c d l f e =
      ground (arith, trim_space-IsNonempty text kind _ f, fields-trim_space text ∙ f, e)

  set_line-some :
      (s : Stats F) (k : String) (l : Line F)
      → (set_line s k l).some_line ≡ (if str_eq k "some" then l else s.some_line)
  unfolding set_line
  set_line-some s k l = ground arith

  set_line-full :
      (s : Stats F) (k : String) (l : Line F)
      → (set_line s k l).full_line ≡ (if str_eq k "full" then l else s.full_line)
  unfolding set_line
  set_line-full s k l = ground (arith, eq_iff k "some", eq_iff k "full", some-ne-full)

  next_line :
      (s s' : Stats F) (text : String) (texts : List String) (e : Option ScanError)
      → parse_line s text ≡ inr s'
      → parse_lines s (text ∷ texts) e ≡ parse_lines s' texts e
  unfolding parse_lines
  next_line s s' text texts e h = ground arith

  print-parse_line :
      (r : Row F) (s : Stats F)
      → IsRow r
      → parse_line s (drop_cr (print r)) ≡ inr (set_line s r.kind r.line)
  print-parse_line r s v =
      parse_line-fields s (drop_cr (print r)) r.kind _ _ _ _ r.line
        (fields-drop_cr (print r) ∙ fields-print r v) (set_pairs-pairs_of r v)

  rows_fit : (rs : List (Row F)) → All IsRow rs → All IsLine (map print rs)
  rows_fit [] h = tt
  rows_fit (r ∷ rs) (v, h) = (v.fits, rows_fit rs h)

  parse_lines-rows :
      (rs : List (Row F)) (s : Stats F)
      → All IsRow rs
      → parse_lines s (map drop_cr (map print rs)) none ≡ (
        record {
          some_line = last_of "some" s.some_line rs;
          full_line = last_of "full" s.full_line rs;
        },
        none,
      )
  unfolding parse_lines
  parse_lines-rows [] s h = refl
  parse_lines-rows (r ∷ rs) s (v, h) =
      let s' = set_line s r.kind r.line in
      next_line s s' _ (map drop_cr (map print rs)) none (print-parse_line r s v)
      ∙ parse_lines-rows rs s' h
      ∙ ap
          (λ x. (
            record { some_line = last_of "some" x rs; full_line = last_of "full" s'.full_line rs },
            none,
          ))
          (set_line-some s r.kind r.line)
      ∙ ap
          (λ x. (
            record {
              some_line = last_of "some" (if str_eq r.kind "some" then r.line else s.some_line) rs;
              full_line = last_of "full" x rs;
            },
            none,
          ))
          (set_line-full s r.kind r.line)

  -- Parse of a readable file of rows as the kernel prints them, each of fewer than 65536 bytes,
  -- with a kind and four texts that have no blank and parse to the numbers of the row's line,
  -- gives for `some` and for `full` the line of the last row of that kind, or the zero line
  -- where there is none, and no error.
  pub parse-print :
      (rs : List (Row F))
      → All IsRow rs
      → parse (record { content = file_of (map print rs); fails = false }) ≡ (
        record { some_line = last_of "some" no_line rs; full_line = last_of "full" no_line rs },
        none,
      )
  unfolding parse
  parse-print rs h =
      ap (λ x. parse_lines no_stats x.0 x.1)
        (scan_lines-file_of (map print rs) false (rows_fit rs h))
      ∙ parse_lines-rows rs no_stats h
