-- ===== src/Float/Fixed.antt =====
-- A concrete arithmetic that meets the laws: thousandths, as natural numbers.
use native.Mathlib.Nat.{mul-div_cancel, pow-suc, le_refl, mul-le-mul}
use pp_vpa.Prelude.{
  none, ◌<◌, ℕ, zero, suc, ◌+◌, ◌-◌, ◌*◌, ◌/◌, ◌^◌, ◌≤◌, ◌<◌, none, ◌≡◌, true, refl, arith, ◌∙◌,
  ltb, leb, leb→le, if◌then◌else◌,
}
use pp_vpa.Prelude.Int.{pos, pos_part, leb_ℤ}
use pp_vpa.Float.Order.{Float, Ieee, ltf, terms}

abbrev pub Fixed : Type 0
Fixed = ℕ

-- Halve down to below 2, with a straight line between the powers of two.
unfoldable pub log_loop : ℕ → ℕ → ℕ → ℕ
log_loop zero k x = k
log_loop (suc fuel) k x =
    let rest = log_loop fuel (k + 693) (x / 2) in
    if ltb x 2000 then k + 693 * (x - 1000) / 1000 else rest

unfoldable pub power : ℕ → ℕ → ℕ
power x zero = 1000
power x (suc k) = power x k * x / 1000

instance abbrev pub fixed_float : Float Fixed
fixed_float = record {
  le = leb;
  add = λ x y. x + y;
  sub = λ x y. x - y;
  mul = λ x y. x * y / 1000;
  div = λ x y. x * 1000 / y;
  neg = λ x. 0 - x;
  pow = λ x y. power x (y / 1000);
  log = log_loop 80 0;
  ceil = λ x. (x + 999) / 1000 * 1000;
  floor = λ x. x / 1000 * 1000;
  lit = λ m d. m * 1000 / 10 ^ d;
  parse_float = λ s. none;
  of_int = λ n. pos_part n * 1000;
  to_int = λ x. pos (x / 1000);
  to_uint = λ x. x / 1000;
  slice_limit = 1000;
}

div_mono : (a b n : ℕ) → a ≤ b → a / n ≤ b / n
div_mono a b zero h = grind arith
div_mono a b (suc n) h = grind arith

below : (m n d : ℕ) → m < n → d ≤ 3 → ltf (fixed_float.lit m d) (fixed_float.lit n d) ≡ true
below m n zero h k = ground arith
below m n (suc zero) h k = ground arith
below m n (suc (suc zero)) h k = ground arith
below m n (suc (suc (suc zero))) h k = ground arith
below m n (suc (suc (suc (suc d)))) h k = absurd (omega arith)

whole : (m d : ℕ) → m * 10 ^ d * 1000 / 10 ^ d ≡ m * 1000 / 1
whole m d =
    let swap : m * 10 ^ d * 1000 ≡ m * 1000 * 10 ^ d = omega arith in
    rw swap (mul-div_cancel (m * 1000) (pow-pos d) ∙ omega arith)
  where
    pow-pos : (k : ℕ) → 0 < 10 ^ k
    pow-pos zero = omega arith
    pow-pos (suc k) = rw pow-suc (omega (arith, pow-pos k))

first_power : (x : ℕ) → power x 1 ≡ x
unfolding power
first_power x = omega arith

zeroth_power : (x : ℕ) → leb (power x 0) 1000 ≡ true
unfolding power
zeroth_power x = refl

inverse :
    (m : ℕ)
    → m < 1000
    → ltf (fixed_float.lit 0 0) (fixed_float.div (fixed_float.lit 1 0) (fixed_float.lit (m + 1) 0))
      ≡ true
inverse m h = grind arith

short_cpu_logs :
    leb_ℤ (terms {F = Fixed} (fixed_float.lit 1000 0) (fixed_float.lit 1 2)) (pos 1000) ≡ true
unfolding log_loop
short_cpu_logs = refl

short_memory_logs :
    leb_ℤ (terms {F = Fixed} (fixed_float.lit (2 ^ 40) 0) (fixed_float.lit (2 ^ 20) 0)) (pos 1000)
    ≡ true
unfolding log_loop
short_memory_logs = refl

pub Fixed-Ieee : Ieee Fixed
Fixed-Ieee = record {
  num_of_le = λ x y h. ground arith;
  le_trans = λ x y z h k. ground arith;
  le_total = λ x y h k. ground arith;
  lit_le = λ m n d h. le→leb _ _ (div_mono (m * 1000) (n * 1000) (10 ^ d) (omega arith));
  mul_comm = λ x y. grind arith;
  mul_one = λ x. omega arith;
  eq_of_positive = λ x y _ h k. omega (arith, leb→le x y h, leb→le y x k);
  div_le_div =
      λ a b c _ h _ _. le→leb _ _ (div_mono (a * 1000) (b * 1000) c (omega (arith, leb→le a b h)));
  div_lit_num = λ x m _ _. ground arith;
  lit_pos = λ m. ground arith;
  num_of_mul = λ x y _. (ground arith, ground arith);
  num_of_add = λ x y _. (ground arith, ground arith);
  num_of_sub = λ x y _. (ground arith, ground arith);
  sub_le = λ x y _ _. ground arith;
  div_nonneg = λ x y _ _ _. ground arith;
  div_div_nonneg = λ x y z _ _ _ _. ground arith;
  inverse_pos = λ m h. inverse m h;
  short_cpu = short_cpu_logs;
  short_memory = short_memory_logs;
  makes_short = omega arith;
  of_int_pos = λ n. ground arith;
  nought_add = λ x _. omega arith;
  of_int_nonneg = λ n. ground arith;
  lit_whole = λ m d. whole m d;
  lit_lt = λ m n d h _ k. below m n d h k;
  add_nonneg = λ x y _ _. ground arith;
  pow_one = λ x. first_power x;
  pow_minus_half = λ x h. zeroth_power x;
  mul_le_mul = λ a b c h k _ _. le→leb _ _ (div_mono (a * c) (b * c) 1000 (scaled a b c k));
}
  where
    le→leb : (a b : ℕ) → a ≤ b → leb a b ≡ true
    le→leb a b h = ground arith

    scaled : (a b c : ℕ) → leb a b ≡ true → a * c ≤ b * c
    scaled a b c h = mul-le-mul (leb→le a b h) (le_refl c)
