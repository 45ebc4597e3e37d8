-- ===== src/Clock.antt =====
-- Go's `time`: an instant is a number of nanoseconds since the zero Time (1 January of the year 1),
-- a Duration is an int64 of nanoseconds.
use pp_vpa.Prelude.{
  ℕ, suc, ◌+◌, ◌-◌, ◌*◌, ◌/◌, ◌%◌, ◌^◌, ◌≤◌, ◌<◌, ◌≡◌, Bool, arith, min, ltb, leb, ◌==◌,
  if◌then◌else◌,
}
use pp_vpa.Prelude.Int.{ℤ, pos, negsuc, neg_ℕ, sub_ℕ}
use pp_vpa.Float.{Float}

abbrev pub Time : Type 0
Time = ℕ

abbrev pub Duration : Type 0
Duration = ℤ

-- t.IsZero()
abbrev pub is_zero : Time → Bool
is_zero t = t == 0

-- t.After(u)
abbrev pub after : Time → Time → Bool
after t u = ltb u t

-- t.Sub(u), which stops at the ends of int64.
unfoldable pub sub : Time → Time → Duration
sub t u = if leb u t then pos (min (t - u) (2 ^ 63 - 1)) else neg_ℕ (min (u - t) (2 ^ 63))

-- The Unix epoch.
abbrev pub epoch : Time
epoch = 62135596800 * 10 ^ 9

-- The low 64 bits of an integer, given by its remainder modulo 2^64, as an int64.
abbrev pub int64 : ℕ → ℤ
int64 bits = if ltb bits (2 ^ 63) then pos bits else sub_ℕ bits (2 ^ 64)

-- t.UnixNano(), which wraps where the count does not fit an int64.
unfoldable pub unix_nano : Time → ℤ
unix_nano t = int64 ((t + 2 ^ 66 - epoch) % 2 ^ 64)

-- time.Unix(0, n)
unfoldable pub of_unix_nano : ℤ → Time
of_unix_nano (pos n) = epoch + n
of_unix_nano (negsuc n) = epoch - suc n

-- The instants that a count of nanoseconds since the epoch can hold.
abbrev pub IsUnix : Time → Type 0
IsUnix t = (epoch ≤ t + 2 ^ 63) × (t < epoch + 2 ^ 63)

pub of_unix_nano-unix_nano : (t : Time) → IsUnix t → of_unix_nano (unix_nano t) ≡ t
unfolding of_unix_nano unix_nano
of_unix_nano-unix_nano t h = ground arith

pub sub-pos : (t u : Time) → u ≤ t → t < u + 2 ^ 63 → sub t u ≡ pos (t - u)
unfolding sub
sub-pos t u h k = ground arith

module _ {F : Type 0} ⦃float : Float F⦄ where
  open float use {of_int, add, div, lit}

  -- A duration as whole units of `unit` nanoseconds and the rest over `unit`, as d.Seconds() and
  -- d.Hours() compute it; Go's `/` and `%` round towards zero.
  unfoldable pub in_units : ℕ → Duration → F
  in_units unit (pos n) = add (of_int (pos (n / unit))) (div (of_int (pos (n % unit))) (lit unit 0))
  in_units unit (negsuc m) =
      add (of_int (neg_ℕ (suc m / unit))) (div (of_int (neg_ℕ (suc m % unit))) (lit unit 0))

  abbrev pub seconds : Duration → F
  seconds = in_units (10 ^ 9)

  abbrev pub hours : Duration → F
  hours = in_units (3600 * 10 ^ 9)
