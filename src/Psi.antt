-- ===== src/Psi.antt =====
-- internal/nodeagent/psi/psi.go: the rows of a pressure file.
pub mod Rows
mod Tests
use pp_vpa.Prelude.{
  ℕ, ◌+◌, ◌<◌, Bool, List, [], ◌∷◌, Option, none, some, String, ◌⊎◌, inl, inr, length, ltb, str_eq,
  if◌then◌else◌,
}
use pp_vpa.Float.{Float, nought}
use pp_vpa.Text.{
  NumError, ScanError, Reader, fields, trim_space, is_empty, cut, parse_uint, scan_lines,
}

pub record Line (F : Type 0) : Type 0 where
  pub avg10 : F
  pub avg60 : F
  pub avg300 : F
  pub total_us : ℕ

pub record Stats (F : Type 0) : Type 0 where
  pub some_line : Line F
  pub full_line : Line F

pub data PsiError : Type 0 where
  malformed_line malformed_kv : String → PsiError
  bad_float : String → PsiError
  bad_total : NumError → PsiError
  scan_failed : ScanError → PsiError
  not_opened : PsiError

abbrev pub or_scan_error : Option ScanError → Option PsiError
or_scan_error none = none
or_scan_error (some e) = some (scan_failed e)

module _ {F : Type 0} ⦃float : Float F⦄ where
  -- Line{} and Stats{}
  abbrev pub no_line : Line F
  no_line = record { avg10 = nought; avg60 = nought; avg300 = nought; total_us = 0 }

  abbrev pub no_stats : Stats F
  no_stats = record { some_line = no_line; full_line = no_line }

  -- A value parsed by ParseFloat, and what it sets.
  unfoldable pub with_float : String → (F → Line F) → PsiError ⊎ Line F
  with_float v set_value = elim (float.parse_float v) [
    | none ↦ inl (bad_float v)
    | some f ↦ inr (set_value f)
  ]

  unfoldable pub with_total : Line F → ℕ × Option NumError → PsiError ⊎ Line F
  with_total l (n, none) = inr (record l { total_us = n })
  with_total l (n, some e) = inl (bad_total e)

  -- The switch on the key of a pair.
  unfoldable pub set_pair : Line F → String → String → PsiError ⊎ Line F
  unfolding with_float with_total
  set_pair l k v =
      if str_eq k "avg10"
      then with_float v (λ f. record l { avg10 = f })
      else if str_eq k "avg60"
      then with_float v (λ f. record l { avg60 = f })
      else if str_eq k "avg300"
      then with_float v (λ f. record l { avg300 = f })
      else if str_eq k "total"
      then with_total l (parse_uint v)
      else inr l

  -- The loop over fields[1:].
  unfoldable pub set_pairs : Line F → List String → PsiError ⊎ Line F
  unfolding set_pair
  set_pairs l [] = inr l
  set_pairs l (kv ∷ kvs) = elim (cut kv) [
    | none ↦ inl (malformed_kv kv)
    | some pair ↦ elim (set_pair l pair.0 pair.1) [ inl e ↦ inl e | inr l' ↦ set_pairs l' kvs ]
  ]

  -- The switch on fields[0].
  unfoldable pub set_line : Stats F → String → Line F → Stats F
  set_line s kind l =
      if str_eq kind "some"
      then record s { some_line = l }
      else if str_eq kind "full"
      then record s { full_line = l }
      else s

  -- A line that is not empty, by its fields.
  unfoldable pub parse_fields : Stats F → String → List String → PsiError ⊎ Stats F
  unfolding set_pairs set_line
  parse_fields s line [] = inl (malformed_line line)
  parse_fields s line (kind ∷ kvs) =
      if ltb (length (kind ∷ kvs)) 5
      then inl (malformed_line line)
      else elim (set_pairs no_line kvs) [ inl e ↦ inl e | inr l ↦ inr (set_line s kind l) ]

  unfoldable pub parse_line : Stats F → String → PsiError ⊎ Stats F
  unfolding parse_fields
  parse_line s text =
      let line = trim_space text in
      if is_empty line then inr s else parse_fields s line (fields line)

  -- The loop over the lines, and the scanner's error at its end.
  unfoldable pub parse_lines : Stats F → List String → Option ScanError → Stats F × Option PsiError
  unfolding parse_line
  parse_lines s [] e = (s, or_scan_error e)
  parse_lines s (text ∷ texts) e = elim (parse_line s text) [
    | inl x ↦ (no_stats, some x)
    | inr s' ↦ parse_lines s' texts e
  ]

  unfoldable pub parse : Reader → Stats F × Option PsiError
  unfolding parse_lines
  parse r = let (texts, e) = scan_lines r in parse_lines no_stats texts e

  -- `none` is a file that cannot be opened.
  unfoldable pub read_file : Option Reader → Stats F × Option PsiError
  unfolding parse
  read_file none = (no_stats, some not_opened)
  read_file (some r) = parse r
