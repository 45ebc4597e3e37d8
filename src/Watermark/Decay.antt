-- ===== src/Watermark/Decay.antt =====
-- How a watermark decays, and what recording does to the decay.
use pp_vpa.Prelude.{
  ℕ, zero, suc, ◌+◌, ◌-◌, ◌^◌, ◌<◌, ◌≤◌, ◌≡◌, true, false, ◌||◌, if◌then◌else◌, arith, sym, subst,
  ◌∙◌, Bool-cases, inl, inr,
}
use pp_vpa.Prelude.Int.{ℤ, pos, negsuc, leb_ℤ}
use pp_vpa.Float.{Float, Ieee, ◌≼◌, IsNum, nought, one, ltf, le_of_lt}
use pp_vpa.Clock
use pp_vpa.Clock.{Time, Duration, is_zero, sub-pos}
use pp_vpa.Watermark.{Watermark, decayed, read, record_peak}

sub_self : (t : Time) → Clock.sub t t ≡ pos 0
unfolding Clock.sub
sub_self t = ground arith

module _ {F : Type 0} ⦃float : Float F⦄ where
  open float use {mul, div, of_int}

  -- Right after Record, Read gives the recorded value where it is above what Read gave before, and
  -- what Read gave before otherwise.
  pub read-record_peak :
      (w : Watermark F) (v : F) (t : Time)
      → read (record_peak w v t) t ≡ (if ltf (read w t) v then v else read w t)
  unfolding decayed record_peak
  read-record_peak w v t = ground (arith, sub_self t)

  -- A watermark with a positive window, once set, reads 0 from a window after its last update on.
  pub read_expired :
      (w : Watermark F) (n : ℕ) (t : Time)
      → w.window ≡ pos n
      → 0 < n
      → n < 2 ^ 63
      → 0 < w.updated_at
      → w.updated_at + n ≤ t
      → read w t ≡ nought
  unfolding decayed Clock.sub
  read_expired w n t e p q r s = ground arith

  decayed_within :
      (w : Watermark F) (n : ℕ) (u : Time)
      → w.window ≡ pos n
      → n < 2 ^ 63
      → 0 < w.updated_at
      → w.updated_at < u
      → u < w.updated_at + n
      → decayed w u
        ≡ mul w.value (float.sub one (div (of_int (pos (u - w.updated_at))) (of_int (pos n))))
  unfolding decayed
  decayed_within w n u e b p q r =
      rw (sub-pos u w.updated_at (omega arith) (omega arith), e) (ground arith)

  -- A sample that does not exceed the watermark restarts the decay: within the window after it,
  -- Read is the value that was read at the sample, scaled by the part of the window that is left
  -- since the sample.
  pub read_restarted :
      (w : Watermark F) (n : ℕ) (v : F) (t u : Time)
      → w.window ≡ pos n
      → n < 2 ^ 63
      → ltf (read w t) v ≡ false
      → 0 < t
      → t < u
      → u < t + n
      → read (record_peak w v t) u
        ≡ mul (read w t) (float.sub one (div (of_int (pos (u - t))) (of_int (pos n))))
  unfolding record_peak
  read_restarted w n v t u e b low p q r =
      rw low (decayed_within (record w { value = decayed w t; updated_at = t }) n u e b p q r)

  module _ (laws : Ieee F) where
    open laws use {
      num_of_le, num_of_mul, num_of_sub, sub_le, div_nonneg, of_int_pos, mul_le_mul, mul_comm,
      mul_one,
    }

    positive : (z : ℤ) → leb_ℤ z (pos 0) ≡ false → ltf nought (of_int z) ≡ true
    positive (pos zero) h = absurd (ground arith)
    positive (pos (suc k)) h = of_int_pos k
    positive (negsuc k) h = absurd (ground arith)

    shrink :
        (x : F) (k m : ℤ)
        → nought ≼ x
        → nought ≼ of_int k
        → ltf nought (of_int m) ≡ true
        → let y = mul x (float.sub one (div (of_int k) (of_int m))) in IsNum y → y ≼ x
    shrink x k m p hk hm q =
        let frac = float.sub one (div (of_int k) (of_int m)) in
        let (nx, nf) = num_of_mul x frac q in
        let (n1, nd) = num_of_sub one _ nf in
        let small = sub_le one _ (div_nonneg _ _ hk hm nd) nf in
        subst (λ z. mul x frac ≼ z) (mul_one x)
          (rw (mul_comm x frac, mul_comm x one)
            (mul_le_mul frac one x p small (rw mul_comm q)
              (subst IsNum (sym (mul_comm one x ∙ mul_one x)) nx)))

    -- Where the stored value is not negative and the reading is no NaN, Read is not above the
    -- stored value.
    pub read-le-value :
        (w : Watermark F) (t : Time) → nought ≼ w.value → IsNum (read w t) → read w t ≼ w.value
    unfolding decayed
    read-le-value w t p q = elim (Bool-cases (leb_ℤ w.window (pos 0) || is_zero w.updated_at)) [
      | inl e ↦ rw e (num_of_le _ _ p).1
      | inr e ↦ elim (Bool-cases (leb_ℤ (Clock.sub t w.updated_at) (pos 0))) [
        | inl e' ↦ rw (e, e') (num_of_le _ _ p).1
        | inr e' ↦ elim (Bool-cases (leb_ℤ w.window (Clock.sub t w.updated_at))) [
          | inl e'' ↦ rw (e, e', e'') p
          | inr e'' ↦
              rw (e, e', e'')
                (shrink w.value _ w.window p (le_of_lt laws _ _ (positive _ e'))
                  (positive _ (ground arith)) (rw (e, e', e'', decayed) at q))
        ]
      ]
    ]
