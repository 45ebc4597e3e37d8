-- ===== src/Text/Numbers.antt =====
-- strconv.ParseUint accepts exactly the decimal texts of numbers below 2^64, and returns their value.
use Prim.Native.Char.{code}
use pp_vpa.Prelude.{
  ℕ, ◌+◌, ◌-◌, ◌*◌, ◌≤◌, ◌≡◌, refl, sym, ap, ◌∙◌, true, false, none, String, arith, ◌↔◌,
}
use pp_vpa.Text.{is_digit, is_empty, max_uint64, parse_digits, parse_uint}

abbrev pub AllDigits : String → Type 0
AllDigits String.[] = Unit
AllDigits (String.◌∷◌ c s) = (is_digit (code c) ≡ true) × AllDigits s

-- The number that digits spell behind `n`, with no bound.
abbrev pub value : ℕ → String → ℕ
value n String.[] = n
value n (String.◌∷◌ c s) = value (n * 10 + (code c - 48)) s

le-value : (s : String) (n : ℕ) → n ≤ value n s
le-value String.[] n = omega arith
le-value (String.◌∷◌ c s) n = omega (arith, le-value s (n * 10 + (code c - 48)))

parse_digits_sound :
    (s : String) (n r : ℕ)
    → n ≤ max_uint64
    → parse_digits n s ≡ (r, none)
    → AllDigits s × (r ≡ value n s) × (r ≤ max_uint64)
unfolding parse_digits
parse_digits_sound String.[] n r fits h = ground arith
parse_digits_sound (String.◌∷◌ c s) n r fits h =
    ground (arith, parse_digits_sound s (n * 10 + (code c - 48)) r)

parse_digits_complete :
    (s : String) (n : ℕ)
    → AllDigits s
    → value n s ≤ max_uint64
    → parse_digits n s ≡ (value n s, none)
unfolding parse_digits
parse_digits_complete String.[] n _ _ = refl
parse_digits_complete (String.◌∷◌ c s) n (hc, hs) fits =
    let m = n * 10 + (code c - 48) in
    ground (arith, parse_digits_complete s m hs fits, le-value s m)

abbrev pub Spells : String → ℕ → Type 0
Spells s r = (is_empty s ≡ false) × AllDigits s × (r ≡ value 0 s) × (r ≤ max_uint64)

-- ParseUint returns a number without an error exactly where the text is one or more digits that
-- spell it and it is below 2^64.
pub parse_uint_iff : (s : String) (r : ℕ) → (parse_uint s ≡ (r, none)) ↔ Spells s r
unfolding parse_uint
parse_uint_iff String.[] r = (λ h. cc, λ h. cc)
parse_uint_iff (String.◌∷◌ c s) r = (
  λ h. let (d, e, f) = parse_digits_sound (String.◌∷◌ c s) 0 r (omega arith) h in (refl, d, e, f),
  λ (n, d, e, f).
      parse_digits_complete (String.◌∷◌ c s) 0 d (omega (arith, e, f))
      ∙ ap (λ x. (x, none)) (sym e),
)
