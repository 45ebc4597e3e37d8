-- ===== src/Text.antt =====
-- Go's strings, strconv, bufio.Scanner and fmt.Sscanf, as the node agent's parsers use them on the text
-- of a file. Text is a sequence of code points; a loop is a function of its variables.
pub mod Words
pub mod Lines
pub mod Numbers
use Prim.Native.Char.{Char, code, len_utf8}
use Prim.Native.String
use pp_vpa.Prelude.{
  ℕ, zero, ◌+◌, ◌-◌, ◌*◌, ◌/◌, ◌^◌, ◌≤◌, ◌<◌, Bool, true, false, ◌&&◌, ◌||◌, Option, none, some,
  List, [], ◌∷◌, String, text_append, ltb, leb, ◌==◌, if◌then◌else◌,
}

-- unicode.IsSpace
abbrev pub is_space_code : ℕ → Bool
is_space_code n =
    (leb 9 n && leb n 13)
    || n == 32
    || n == 133
    || n == 160
    || n == 5760
    || (leb 8192 n && leb n 8202)
    || n == 8232
    || n == 8233
    || n == 8239
    || n == 8287
    || n == 12288

unfoldable pub is_space : Char → Bool
is_space c = is_space_code (code c)

-- One character behind a text.
abbrev pub snoc : String → Char → String
snoc s c = text_append s (String.◌∷◌ c String.[])

-- The word read so far, if it has a character, in front of the others.
abbrev pub emit : String → List String → List String
emit String.[] ws = ws
emit (String.◌∷◌ c s) ws = String.◌∷◌ c s ∷ ws

-- The loop of strings.Fields, in the word `cur`.
pub fields_from : String → String → List String
fields_from cur String.[] = emit cur []
fields_from cur (String.◌∷◌ c s) = elim (is_space c) [
  | true ↦ emit cur (fields_from String.[] s)
  | false ↦ fields_from (snoc cur c) s
]

unfoldable pub fields : String → List String
unfolding fields_from
fields s = fields_from String.[] s

abbrev pub is_empty : String → Bool
is_empty String.[] = true
is_empty (String.◌∷◌ c s) = false

-- strings.TrimSpace
pub trim_left : String → String
trim_left String.[] = String.[]
trim_left (String.◌∷◌ c s) = elim (is_space c) [ true ↦ trim_left s | false ↦ String.◌∷◌ c s ]

pub trim_right : String → String
trim_right String.[] = String.[]
trim_right (String.◌∷◌ c s) =
    let rest = trim_right s in if is_empty rest && is_space c then String.[] else String.◌∷◌ c rest

unfoldable pub trim_space : String → String
unfolding trim_left trim_right
trim_space s = trim_right (trim_left s)

-- strings.Cut at '='; `none` where there is none.
unfoldable pub cut_from : String → String → Option (String × String)
cut_from before String.[] = none
cut_from before (String.◌∷◌ c s) = elim (code c == 61) [
  | true ↦ some (before, s)
  | false ↦ cut_from (snoc before c) s
]

unfoldable pub cut : String → Option (String × String)
unfolding cut_from
cut s = cut_from String.[] s

-- strconv.ParseUint(s, 10, 64): the value, which an error does not leave undefined, and the error.
pub data NumError : Type 0 where
  syntax_error range_error : NumError

abbrev pub max_uint64 : ℕ
max_uint64 = 2 ^ 64 - 1

abbrev pub is_digit : ℕ → Bool
is_digit n = leb 48 n && leb n 57

unfoldable pub parse_digits : ℕ → String → ℕ × Option NumError
parse_digits n String.[] = (n, none)
parse_digits n (String.◌∷◌ c s) =
    let d = code c - 48 in
    let rest = parse_digits (n * 10 + d) s in
    if is_digit (code c)
    then (if leb (max_uint64 / 10 + 1) n || ltb max_uint64 (n * 10 + d)
        then (max_uint64, some range_error)
        else rest)
    else (0, some syntax_error)

unfoldable pub parse_uint : String → ℕ × Option NumError
unfolding parse_digits
parse_uint String.[] = (0, some syntax_error)
parse_uint (String.◌∷◌ c s) = parse_digits 0 (String.◌∷◌ c s)

-- fmt.Sscanf(s, "%d", &n) with a uint64 that holds 0: what it holds afterwards. Blanks are skipped
-- but a newline is not, and the number ends at the first character that is no digit.
unfoldable pub take_digits : String → String
take_digits String.[] = String.[]
take_digits (String.◌∷◌ c s) =
    let rest = take_digits s in if is_digit (code c) then String.◌∷◌ c rest else String.[]

unfoldable pub accepted : ℕ × Option NumError → ℕ
accepted (n, none) = n
accepted (n, some e) = 0

unfoldable pub scan_uint : String → ℕ
unfolding take_digits accepted
scan_uint String.[] = 0
scan_uint (String.◌∷◌ c s) =
    let rest = scan_uint s in
    if code c == 10
    then 0
    else if is_space c
    then rest
    else accepted (parse_uint (take_digits (String.◌∷◌ c s)))

-- bufio.Scanner with its default buffer, over a reader whose reads may fail behind the content.
pub record Reader : Type 0 where
  pub content : String
  pub fails : Bool

pub data ScanError : Type 0 where
  token_too_long read_failed : ScanError

-- dropCR
unfoldable pub drop_cr : String → String
drop_cr String.[] = String.[]
drop_cr (String.◌∷◌ c s) =
    let rest = drop_cr s in if is_empty s && code c == 13 then String.[] else String.◌∷◌ c rest

-- The lines from the one that has the text `cur`, of `size` bytes, so far.
pub scan_from : Bool → String → ℕ → String → List String × Option ScanError
scan_from fails cur size String.[] = (emit_line cur, if fails then some read_failed else none)
  where
    emit_line : String → List String
    emit_line String.[] = []
    emit_line (String.◌∷◌ c s) = drop_cr (String.◌∷◌ c s) ∷ []
scan_from fails cur size (String.◌∷◌ c s) = elim (code c == 10) [
  | true ↦ let (lines, e) = scan_from fails String.[] 0 s in (drop_cr cur ∷ lines, e)
  | false ↦ elim (leb 65536 (size + len_utf8 c)) [
    | true ↦ ([], some token_too_long)
    | false ↦ scan_from fails (snoc cur c) (size + len_utf8 c) s
  ]
]

unfoldable pub scan_lines : Reader → List String × Option ScanError
unfolding scan_from
scan_lines r = scan_from r.fails String.[] 0 r.content
