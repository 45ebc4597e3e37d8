-- ===== src/Oom/Counters.antt =====
-- What Parse makes of a file of counters.
use pp_vpa.Prelude.{
  ℕ, ◌≡◌, refl, sym, ap, ◌∙◌, arith, Bool, false, List, [], ◌∷◌, map, none, some, String, All,
  Bool-cases, inl, inr, subst, str_eq, eq_iff, if◌then◌else◌,
}
use pp_vpa.Text.{fields, parse_uint, drop_cr, read_failed}
use pp_vpa.Text.Words.{IsWord, spaced, fields-spaced, fields-drop_cr}
use pp_vpa.Text.Lines.{IsLine, file_of, scan_lines-file_of}
use pp_vpa.Oom.{Events, no_events, or_scan_error, set_counter, count_fields, count_lines, parse}

-- A line of the file: a key and the text of its count.
abbrev pub Counter : Type 0
Counter = String × String

abbrev pub print : Counter → String
print c = spaced c.0 (c.1 ∷ [])

pub record IsCounter (c : Counter) : Type 0 where
  pub key_word : IsWord c.0
  pub text_word : IsWord c.1
  pub fits : IsLine (print c)

-- The count on the last line of a key.
abbrev pub last_of : String → ℕ → List Counter → ℕ
last_of key n [] = n
last_of key n ((k, text) ∷ cs) = last_of key (if str_eq k key then (parse_uint text).0 else n) cs

abbrev pub read_counts : Events → List Counter → Events
read_counts e cs = record {
  low = last_of "low" e.low cs;
  high = last_of "high" e.high cs;
  max = last_of "max" e.max cs;
  oom = last_of "oom" e.oom cs;
  oom_kill = last_of "oom_kill" e.oom_kill cs;
}

-- Each counter by itself.
abbrev pub table : Events → String → ℕ → Events
table e k n = record {
  low = if str_eq k "low" then n else e.low;
  high = if str_eq k "high" then n else e.high;
  max = if str_eq k "max" then n else e.max;
  oom = if str_eq k "oom" then n else e.oom;
  oom_kill = if str_eq k "oom_kill" then n else e.oom_kill;
}

-- What holds at a key and where a text is not this key holds at every text.
at_key {ℓ} : (P : String → Type ℓ) (key k : String) → P key → (str_eq k key ≡ false → P k) → P k
at_key P key k p q = elim (Bool-cases (str_eq k key)) [
  | inl e ↦ subst P (sym ((eq_iff k key).0 e)) p
  | inr e ↦ q e
]

set_counter-table : (e : Events) (k : String) (n : ℕ) → set_counter e k n ≡ table e k n
unfolding set_counter
set_counter-table e k n =
    let P : String → Type 0 = λ x. set_counter e x n ≡ table e x n in
    at_key P "low" k refl λ a. at_key P "high" k refl λ b.
      at_key P "max" k refl λ c.
        at_key P "oom" k refl λ d. at_key P "oom_kill" k refl λ f. ground (arith, a, b, c, d, f)

count_fields-print :
    (c : Counter) (e : Events)
    → IsCounter c
    → count_fields e (fields (drop_cr (print c))) ≡ table e c.0 (parse_uint c.1).0
unfolding count_fields
count_fields-print c e v =
    ap (count_fields e)
      (fields-drop_cr (print c) ∙ fields-spaced c.0 (c.1 ∷ []) v.key_word (v.text_word, tt))
    ∙ set_counter-table e c.0 (parse_uint c.1).0

count_lines-rows :
    (cs : List Counter) (e : Events)
    → All IsCounter cs
    → count_lines e (map drop_cr (map print cs)) ≡ read_counts e cs
unfolding count_lines
count_lines-rows [] e h = refl
count_lines-rows ((k, text) ∷ cs) e (v, h) =
    ap (λ x. count_lines x (map drop_cr (map print cs))) (count_fields-print (k, text) e v)
    ∙ count_lines-rows cs (table e k (parse_uint text).0) h

rows_fit : (cs : List Counter) → All IsCounter cs → All IsLine (map print cs)
rows_fit [] h = tt
rows_fit (c ∷ cs) (v, h) = (v.fits, rows_fit cs h)

-- Parse of a file of lines with a key, a blank and a count, both without blanks and the line of
-- fewer than 65536 bytes, gives for each of the five counters the value that ParseUint returns
-- for the last line of its key, or 0 where there is none; its error is that of the file.
pub parse-counters :
    (cs : List Counter) (fails : Bool)
    → All IsCounter cs
    → parse (some (record { content = file_of (map print cs); fails = fails }))
      ≡ (read_counts no_events cs, or_scan_error (if fails then some read_failed else none))
unfolding parse
parse-counters cs fails h =
    ap (λ x. (count_lines no_events x.0, or_scan_error x.1))
      (scan_lines-file_of (map print cs) fails (rows_fit cs h))
    ∙ ap (λ x. (x, or_scan_error (if fails then some read_failed else none)))
        (count_lines-rows cs no_events h)
