-- ===== src/Float/Order.antt =====
-- The interface, the comparisons, and the laws of IEEE arithmetic that the proofs rely on.
use pp_vpa.Prelude.{
  subst, sym, ◌∙◌, ℕ, suc, ◌*◌, ◌^◌, ◌<◌, Option, String, ◌+◌, ◌≤◌, ◌≡◌, ◌⊎◌, Bool, true, false,
  not, ◌&&◌, arith,
}
use pp_vpa.Prelude.Int.{ℤ, pos, leb_ℤ}

pub record Float (F : Type 0) : Type 0 where
  pub le : F → F → Bool
  pub add : F → F → F
  pub sub : F → F → F
  pub mul : F → F → F
  pub div : F → F → F
  pub neg : F → F
  pub pow : F → F → F
  pub log : F → F
  pub ceil : F → F
  pub floor : F → F
  -- The literal m / 10^d, rounded to the nearest float64.
  pub lit : ℕ → ℕ → F
  -- strconv.ParseFloat(s, 64); `none` is an error.
  pub parse_float : String → Option F
  -- float64(n), int64(x) and uint64(x).
  pub of_int : ℤ → F
  pub to_int : F → ℤ
  pub to_uint : F → ℕ
  -- The longest []float64 that make yields; it panics above.
  pub slice_limit : ℕ

module _ {F : Type 0} ⦃float : Float F⦄ where
  open float use {le, lit, mul, pow, add}

  abbrev pub nought : F
  nought = lit 0 0

  abbrev pub one : F
  one = lit 1 0

  -- x < y and x == y; both are false at NaN.
  abbrev pub ltf : F → F → Bool
  ltf x y = le x y && not (le y x)

  abbrev pub eqf : F → F → Bool
  eqf x y = le x y && le y x

  infix 4 ◌≼◌
  abbrev pub ◌≼◌ : F → F → Type 0
  x ≼ y = le x y ≡ true

  abbrev pub IsNum : F → Type 0
  IsNum x = x ≼ x

  -- The first n with f + f r + ... + f r^(n - 1) >= m, for r = 1.05, as logarithms find it.
  abbrev pub terms : F → F → ℤ
  terms m f =
      let r = lit 105 2 in
      let grown = float.div (mul m (float.sub r one)) f in
      float.to_int (float.ceil (float.div (float.log (add grown one)) (float.log r)))

-- What IEEE 754 promises of comparison and of correctly rounded operations, what math.Pow and
-- math.Log document, and a limit of make.
pub record Ieee (F : Type 0) ⦃float : Float F⦄ : Type 0 where
  pub num_of_le : (x y : F) → x ≼ y → IsNum x × IsNum y
  pub le_trans : (x y z : F) → x ≼ y → y ≼ z → x ≼ z
  pub le_total : (x y : F) → IsNum x → IsNum y → (x ≼ y) ⊎ (y ≼ x)
  pub lit_le : (m n d : ℕ) → m ≤ n → float.lit m d ≼ float.lit n d
  pub mul_comm : (x y : F) → float.mul x y ≡ float.mul y x
  pub mul_one : (x : F) → float.mul x (float.lit 1 0) ≡ x
  pub mul_le_mul :
      (a b c : F)
      → float.lit 0 0 ≼ c
      → a ≼ b
      → IsNum (float.mul a c)
      → IsNum (float.mul b c)
      → float.mul a c ≼ float.mul b c
  -- Only the two zeros are equal and distinct.
  pub eq_of_positive : (x y : F) → ltf (float.lit 0 0) x ≡ true → x ≼ y → y ≼ x → x ≡ y
  pub div_le_div :
      (a b c : F)
      → ltf (float.lit 0 0) c ≡ true
      → a ≼ b
      → IsNum (float.div a c)
      → IsNum (float.div b c)
      → float.div a c ≼ float.div b c
  -- A quotient by a small nonzero literal is a number, and so are literals themselves.
  pub div_lit_num : (x : F) (m : ℕ) → m < 1000 → IsNum x → IsNum (float.div x (float.lit (m + 1) 0))
  pub lit_pos : (m : ℕ) → ltf (float.lit 0 0) (float.lit (m + 1) 0) ≡ true
  -- NaN propagates.
  pub num_of_mul : (x y : F) → IsNum (float.mul x y) → IsNum x × IsNum y
  pub num_of_add : (x y : F) → IsNum (float.add x y) → IsNum x × IsNum y
  pub num_of_sub : (x y : F) → IsNum (float.sub x y) → IsNum x × IsNum y
  pub sub_le : (x y : F) → float.lit 0 0 ≼ y → IsNum (float.sub x y) → float.sub x y ≼ x
  pub div_nonneg :
      (x y : F)
      → float.lit 0 0 ≼ x
      → ltf (float.lit 0 0) y ≡ true
      → IsNum (float.div x y)
      → float.lit 0 0 ≼ float.div x y
  -- A quotient of positive numbers is no negative zero, even where it is too small for a float64.
  pub div_div_nonneg :
      (x y z : F)
      → float.lit 0 0 ≼ x
      → ltf (float.lit 0 0) y ≡ true
      → ltf (float.lit 0 0) z ≡ true
      → IsNum (float.div x (float.div y z))
      → float.lit 0 0 ≼ float.div x (float.div y z)
  pub inverse_pos :
      (m : ℕ)
      → m < 1000
      → ltf (float.lit 0 0) (float.div (float.lit 1 0) (float.lit (m + 1) 0)) ≡ true
  -- Literals of one value are one float, and short literals that differ are told apart.
  pub lit_whole : (m d : ℕ) → float.lit (m * 10 ^ d) d ≡ float.lit m 0
  pub lit_lt :
      (m n d : ℕ) → m < n → n ≤ 1000000 → d ≤ 3 → ltf (float.lit m d) (float.lit n d) ≡ true
  pub add_nonneg : (x y : F) → float.lit 0 0 ≼ y → IsNum (float.add x y) → x ≼ float.add x y
  -- Pow(x, 1) = x, and a power of -1/2 of what is not below 1 is not above 1.
  pub pow_one : (x : F) → float.pow x (float.lit 1 0) ≡ x
  pub pow_minus_half :
      (x : F) → float.lit 1 0 ≼ x → float.pow x (float.neg (float.lit 5 1)) ≼ float.lit 1 0
  -- Adding to zero changes no positive number, and not zero itself.
  pub nought_add :
      (x : F)
      → (x ≡ float.lit 0 0) ⊎ (ltf (float.lit 0 0) x ≡ true)
      → float.add (float.lit 0 0) x ≡ x
  pub of_int_nonneg : (n : ℕ) → float.lit 0 0 ≼ float.of_int (pos n)
  -- Positive integers convert to positive numbers.
  pub of_int_pos : (n : ℕ) → ltf (float.lit 0 0) (float.of_int (pos (suc n))) ≡ true
  -- The logarithms of the two default histograms, whose quotients are about 175 and 223.
  pub short_cpu : leb_ℤ (terms (float.lit 1000 0) (float.lit 1 2)) (pos 1000) ≡ true
  pub short_memory : leb_ℤ (terms (float.lit (2 ^ 40) 0) (float.lit (2 ^ 20) 0)) (pos 1000) ≡ true
  -- Slices of a thousand numbers can be made.
  pub makes_short : 1000 ≤ float.slice_limit

module _ {F : Type 0} ⦃float : Float F⦄ (laws : Ieee F) where
  pub le_of_not-lt : (x y : F) → IsNum x → IsNum y → ltf x y ≡ false → y ≼ x
  le_of_not-lt x y p q h = ground (arith, laws.le_total x y p q)

  pub le_of_lt : (x y : F) → ltf x y ≡ true → x ≼ y
  le_of_lt x y h = ground arith

  pub not-lt_of_le : (x y : F) → y ≼ x → ltf x y ≡ false
  not-lt_of_le x y h = ground arith

  pub mul-le_self :
      (x c : F) → float.lit 0 0 ≼ x → c ≼ one → IsNum (float.mul x c) → float.mul x c ≼ x
  mul-le_self x c p h n =
      let whole = laws.mul_comm one x ∙ laws.mul_one x in
      subst (λ z. float.mul x c ≼ z) whole
        (rw (laws.mul_comm x c) (
          laws.mul_le_mul c one x p h (rw (laws.mul_comm x c) at n)
            (subst IsNum (sym whole) (laws.num_of_mul x c n).0)))

  pub le-mul_self :
      (x c : F) → float.lit 0 0 ≼ x → one ≼ c → IsNum (float.mul x c) → x ≼ float.mul x c
  le-mul_self x c p h n =
      let whole = laws.mul_comm one x ∙ laws.mul_one x in
      subst (λ z. z ≼ float.mul x c) whole
        (subst (λ z. float.mul one x ≼ z) (laws.mul_comm c x)
          (laws.mul_le_mul one c x p h (subst IsNum (sym whole) (laws.num_of_mul x c n).0)
            (rw (laws.mul_comm x c) at n)))
