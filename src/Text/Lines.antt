-- ===== src/Text/Lines.antt =====
-- What strings.Cut makes of a pair, and bufio.Scanner of a file of lines.
use Prim.Native.Char.{Char, char, code, len_utf8}
use Prim.Native.String.{len}
use Prim.Native.String.len
use text.Mathlib.TextLemmas.{append-nil, nil-append, cons-append}
use pp_vpa.Prelude.{
  ℕ, ◌+◌, ◌<◌, Bool, true, false, List, [], ◌∷◌, map, Option, none, some, String, text_append, ◌≡◌,
  refl, ap, ◌∙◌, arith, ◌==◌, not, ◌&&◌, &&-split, if◌then◌else◌, All,
}
use pp_vpa.Text.{snoc, cut_from, cut, drop_cr, scan_from, scan_lines, read_failed, ScanError}
use pp_vpa.Text.Words.{snoc-append}

-- No character of the text has the code.
abbrev pub Lacks : ℕ → String → Type 0
Lacks n String.[] = Unit
Lacks n (String.◌∷◌ c s) = ((code c == n) ≡ false) × Lacks n s

-- The same as a test.
abbrev pub lacks : ℕ → String → Bool
lacks n String.[] = true
lacks n (String.◌∷◌ c s) = not (code c == n) && lacks n s

pub lacks-Lacks : (n : ℕ) (s : String) → lacks n s ≡ true → Lacks n s
lacks-Lacks n String.[] h = tt
lacks-Lacks n (String.◌∷◌ c s) h =
    let (p, q) = &&-split (not (code c == n)) (lacks n s) h in
    (ground (arith, p), lacks-Lacks n s q)

equals_sign : Char
equals_sign = char 61 tt

cut_step :
    (before : String) (c : Char) (s : String)
    → (code c == 61) ≡ false
    → cut_from before (String.◌∷◌ c s) ≡ cut_from (snoc before c) s
unfolding cut_from
cut_step before c s h = ground arith

cut_from-pair :
    (k before v : String)
    → Lacks 61 k
    → cut_from before (text_append k (String.◌∷◌ equals_sign v)) ≡ some (text_append before k, v)
unfolding cut_from equals_sign
cut_from-pair String.[] before v h = rw (nil-append, append-nil) refl
cut_from-pair (String.◌∷◌ c k) before v (p, h) =
    ap (cut_from before) (cons-append c k (String.◌∷◌ equals_sign v))
    ∙ cut_step before c (text_append k (String.◌∷◌ equals_sign v)) p
    ∙ cut_from-pair k (snoc before c) v h
    ∙ ap (λ x. some (x, v)) (snoc-append before c k)

-- The part of a key and the part of its value.
pub cut-pair : (k v : String) → Lacks 61 k → cut (text_append k (text_append "=" v)) ≡ some (k, v)
unfolding cut equals_sign
cut-pair k v h =
    ap (λ x. cut_from String.[] (text_append k x))
      (cons-append equals_sign String.[] v ∙ ap (String.◌∷◌ equals_sign) (nil-append v))
    ∙ cut_from-pair k String.[] v h
    ∙ ap (λ x. some (x, v)) (nil-append k)

newline : Char
newline = char 10 tt

len-cons : (c : Char) (s : String) → len (String.◌∷◌ c s) ≡ len_utf8 c + len s
len-cons c s = len.cons c s

line_step :
    (fails : Bool) (cur : String) (size : ℕ) (c : Char) (s : String)
    → (code c == 10) ≡ false
    → size + len_utf8 c < 65536
    → scan_from fails cur size (String.◌∷◌ c s) ≡ scan_from fails (snoc cur c) (size + len_utf8 c) s
unfolding scan_from
line_step fails cur size c s h l = ground arith

-- A line in front of the lines that follow it.
abbrev with_line : String → List String × Option ScanError → List String × Option ScanError
with_line l (lines, e) = (drop_cr l ∷ lines, e)

scan_from-line :
    (line cur rest : String) (fails : Bool) (size : ℕ)
    → Lacks 10 line
    → size + len line < 65536
    → scan_from fails cur size (text_append line (String.◌∷◌ newline rest))
      ≡ with_line (text_append cur line) (scan_from fails String.[] 0 rest)
unfolding scan_from newline
scan_from-line String.[] cur rest fails size h l = rw (nil-append, append-nil) refl
scan_from-line (String.◌∷◌ c line) cur rest fails size (p, h) l =
    let room : size + len_utf8 c + len line < 65536 = omega (arith, len-cons c line, l) in
    ap (scan_from fails cur size) (cons-append c line (String.◌∷◌ newline rest))
    ∙ line_step fails cur size c (text_append line (String.◌∷◌ newline rest)) p
        (omega (arith, room))
    ∙ scan_from-line line (snoc cur c) rest fails (size + len_utf8 c) h room
    ∙ ap (λ x. with_line x (scan_from fails String.[] 0 rest)) (snoc-append cur c line)

-- Every line with its end.
abbrev pub file_of : List String → String
file_of [] = ""
file_of (l ∷ ls) = text_append l (text_append "\n" (file_of ls))

abbrev pub IsLine : String → Type 0
IsLine l = Lacks 10 l × (len l < 65536)

-- The scanner gives the lines back, each without its carriage return.
pub scan_lines-file_of :
    (ls : List String) (fails : Bool)
    → All IsLine ls
    → scan_lines (record { content = file_of ls; fails = fails })
      ≡ (map drop_cr ls, if fails then some read_failed else none)
unfolding scan_lines scan_from newline
scan_lines-file_of [] fails h = refl
scan_lines-file_of (l ∷ ls) fails ((h, n), hs) =
    ap (λ x. scan_from fails String.[] 0 (text_append l x))
      (cons-append newline String.[] (file_of ls)
        ∙ ap (String.◌∷◌ newline) (nil-append (file_of ls)))
    ∙ scan_from-line l String.[] (file_of ls) fails 0 h (omega (arith, n))
    ∙ ap (λ x. with_line x (scan_from fails String.[] 0 (file_of ls))) (nil-append l)
    ∙ ap (with_line l) (scan_lines-file_of ls fails hs)
