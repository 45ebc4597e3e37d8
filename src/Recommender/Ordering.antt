-- ===== src/Recommender/Ordering.antt =====
-- What the stages of the recommender do to the order lower ≼ target ≼ upper and to the limits.
use pp_vpa.Prelude.{◌≡◌, true, Option, none, some, if◌then◌else◌, arith, subst, sym}
use pp_vpa.Float.{Float, Ieee, ◌≼◌, IsNum, nought, one, ltf, mul-le_self, le-mul_self}
use pp_vpa.Clock.{Duration, hours}
use pp_vpa.Api.{RecommenderPolicy}
use pp_vpa.Recommender.Bounds.{
  Range, Bounds, Confidence, widen, apply_confidence, confidence_multipliers, margin_factor, pad,
  at_least, at_most, apply_margin, clamp_min, clamp_max,
}

module _ {F : Type 0} ⦃float : Float F⦄ where
  open float use {add, mul, div, lit, neg, pow}

  abbrev pub IsOrdered : Range F → Type 0
  IsOrdered r = (r.lower ≼ r.target) × (r.target ≼ r.upper)

  -- No bound is NaN.
  abbrev pub IsNumeric : Range F → Type 0
  IsNumeric r = IsNum r.lower × IsNum r.target × IsNum r.upper

  module _ (laws : Ieee F) where
    open laws use {
      le_trans, le_total, num_of_le, mul_le_mul, mul_comm, mul_one, div_div_nonneg, inverse_pos,
      lit_le, lit_pos, add_nonneg, pow_one, pow_minus_half,
    }

    pad-IsOrdered :
        (x : F) (r : Range F) → nought ≼ x → IsNumeric (pad x r) → IsOrdered r → IsOrdered (pad x r)
    pad-IsOrdered x r p (nl, nt, nu) o =
        (mul_le_mul r.lower r.target x p o.0 nl nt, mul_le_mul r.target r.upper x p o.1 nt nu)

    at_least_mono : (v x y : F) → IsNum v → x ≼ y → at_least v x ≼ at_least v y
    at_least_mono v x y n h =
        ground
          (arith, num_of_le x y h, le_total x v, le_total y v, le_trans v x y, le_trans x y v h)

    le-at_least : (v x : F) → IsNum v → IsNum x → (v ≼ at_least v x) × (x ≼ at_least v x)
    le-at_least v x n m = ground (arith, le_total x v m n)

    at_most-le : (v x : F) → IsNum v → IsNum x → (at_most v x ≼ v) × (at_most v x ≼ x)
    at_most-le v x n m = ground (arith, le_total x v m n)

    pub apply_margin_lem :
        (b : Bounds F) (p : RecommenderPolicy) (peak : F)
        → let factor = margin_factor {F = F} p in
          let out = apply_margin b p peak in
          nought ≼ factor
          → IsNumeric (pad factor b.cpu)
          → IsNumeric (pad factor b.memory)
          → IsNum (mul peak factor)
          → IsOrdered b.cpu
          → IsOrdered b.memory
          → IsOrdered out.cpu
            × IsOrdered out.memory
            × (ltf nought peak ≡ true
                → (mul peak factor ≼ out.memory.lower)
                  × (mul peak factor ≼ out.memory.target)
                  × (mul peak factor ≼ out.memory.upper))
    unfolding apply_margin
    apply_margin_lem b p peak h nc nm nf oc om =
        let x = margin_factor p in
        let m = pad x b.memory in
        let padded = pad-IsOrdered x b.memory h nm om in
        let floor = mul peak x in
        (
          pad-IsOrdered x b.cpu h nc oc,
          ground (
            arith,
            padded,
            at_least_mono floor m.lower m.target nf,
            at_least_mono floor m.target m.upper nf,
          ),
          λ e. rw e (
            (le-at_least floor m.lower nf nm.0).0,
            (le-at_least floor m.target nf nm.1).0,
            (le-at_least floor m.upper nf nm.2).0,
          ),
        )

    -- Where neither the hours of the lifetime nor the upper multiplier is NaN, the lower
    -- multiplier of ConfidenceMultipliers is at most 1 and the upper one at least 1.
    pub confidence_multipliers_bounds :
        (lifetime : Duration)
        → let c = confidence_multipliers {F = F} lifetime in
          IsNum (hours {F = F} lifetime)
          → IsNum c.upper_multiplier
          → (c.lower_multiplier ≼ one) × (one ≼ c.upper_multiplier)
    unfolding confidence_multipliers
    confidence_multipliers_bounds lifetime n nu =
        let minute = div one (lit 60 0) in
        let m = if ltf (hours lifetime) minute then minute else hours lifetime in
        let t = div m (lit 24 0) in
        let x = add one (div one t) in
        let nx : IsNum x = subst IsNum (pow_one x) nu in
        let p_minute : ltf nought minute ≡ true = inverse_pos 59 (omega arith) in
        let p_m : ltf nought m ≡ true = ground (
          arith,
          p_minute,
          le_total (hours lifetime) minute n (num_of_le nought minute (ground arith)).1,
          le_trans nought minute (hours lifetime),
          le_trans minute (hours lifetime) nought,
        ) in
        let grown : one ≼ x =
          add_nonneg one (div one t)
            (div_div_nonneg one m (lit 24 0) (lit_le 0 1 0 (omega arith)) p_m (lit_pos 23)
              (laws.num_of_add one (div one t) nx).1)
            nx in
        (pow_minus_half x grown, subst (λ z. one ≼ z) (sym (pow_one x)) grown)

    -- ApplyConfidence with a lower multiplier of at most 1 and an upper one of at least 1 keeps
    -- lower ≼ target ≼ upper of cpu and of memory, where the lower bounds are not negative and no
    -- value of the result is NaN.
    pub apply_confidence-IsOrdered :
        (b : Bounds F) (c : Confidence F)
        → c.lower_multiplier ≼ one
        → one ≼ c.upper_multiplier
        → nought ≼ b.cpu.lower
        → nought ≼ b.memory.lower
        → IsNumeric (apply_confidence b c).cpu
        → IsNumeric (apply_confidence b c).memory
        → IsOrdered b.cpu
        → IsOrdered b.memory
        → IsOrdered (apply_confidence b c).cpu × IsOrdered (apply_confidence b c).memory
    unfolding apply_confidence
    apply_confidence-IsOrdered b c l u pc pm nc nm oc om =
        (wide b.cpu pc nc oc, wide b.memory pm nm om)
      where
        wide :
            (r : Range F)
            → nought ≼ r.lower
            → IsNumeric (widen c r)
            → IsOrdered r
            → IsOrdered (widen c r)
        wide r p n o =
            let top =
              le_trans nought r.lower r.upper p (le_trans r.lower r.target r.upper o.0 o.1) in
            (
              le_trans _ r.lower r.target (mul-le_self laws r.lower c.lower_multiplier p l n.0) o.0,
              le_trans r.target r.upper _ o.1
                  (le-mul_self laws r.upper c.upper_multiplier top u n.2),
            )

    -- What clamping to `lo` and `hi` promises: nothing is above the maximum, the lower bound and (unless the
    -- maximum is below it) the target are not below the minimum.
    pub record Within (lo hi : Option F) (r : Range F) : Type 0 where
      pub below : (v : F) → hi ≡ some v → (r.target ≼ v) × (r.upper ≼ v)
      pub above : (v : F) → lo ≡ some v → v ≼ r.lower
      pub alone : (v : F) → lo ≡ some v → hi ≡ none → v ≼ r.target
      pub between : (u v : F) → lo ≡ some u → hi ≡ some v → u ≼ v → u ≼ r.target

    abbrev pub IsNumericLimit : Option F → Type 0
    IsNumericLimit none = Unit {0}
    IsNumericLimit (some v) = IsNum v

    limit_eq : {x y : F} → some x ≡ some y → x ≡ y
    limit_eq e = cc

    IsNum-at_least : (v x : F) → IsNum v → IsNum x → IsNum (at_least v x)
    IsNum-at_least v x n m = ground arith

    at_least-at_most :
        (u w x : F) → IsNum u → IsNum w → IsNum x → u ≼ w → u ≼ at_most w (at_least u x)
    at_least-at_most u w x n m k h = ground (arith, le-at_least u x n k, h)

    -- Raising to a minimum and cutting to a maximum, as clampToPolicy does it to a range without
    -- NaN, with limits that are no NaN: target and upper bound are not above the maximum, the
    -- lower bound is not below the minimum, and neither is the target unless the maximum is below
    -- the minimum.
    pub clamp-Within :
        (lo hi : Option F) (r : Range F)
        → IsNumericLimit lo
        → IsNumericLimit hi
        → IsNumeric r
        → Within lo hi (clamp_max hi (clamp_min lo r))
    clamp-Within none none r a b n = record {
      below = λ v e. cc;
      above = λ v e. cc;
      alone = λ v e. cc;
      between = λ u v e. cc;
    }
    clamp-Within (some u) none r a b (nl, nt, nu) = record {
      below = λ v e. cc;
      above =
          λ v e. subst (λ z. z ≼ at_least u r.lower) (limit_eq e) (le-at_least u r.lower a nl).0;
      alone = λ v e f.
          subst (λ z. z ≼ at_least u r.target) (limit_eq e) (le-at_least u r.target a nt).0;
      between = λ x v e f. cc;
    }
    clamp-Within none (some w) r a b (nl, nt, nu) = record {
      below = λ v e.
          subst (λ z. (at_most w r.target ≼ z) × (at_most w r.upper ≼ z)) (limit_eq e)
            ((at_most-le w r.target b nt).0, (at_most-le w r.upper b nu).0);
      above = λ v e. cc;
      alone = λ v e. cc;
      between = λ u v e. cc;
    }
    clamp-Within (some u) (some w) r a b (nl, nt, nu) = record {
      below = λ v e.
          subst (λ z. (at_most w (at_least u r.target) ≼ z) × (at_most w r.upper ≼ z)) (limit_eq e)
            (
              (at_most-le w (at_least u r.target) b (IsNum-at_least u r.target a nt)).0,
              (at_most-le w r.upper b nu).0,
            );
      above =
          λ v e. subst (λ z. z ≼ at_least u r.lower) (limit_eq e) (le-at_least u r.lower a nl).0;
      alone = λ v e f. cc;
      between = λ x v e f h.
          subst (λ z. z ≼ at_most w (at_least u r.target)) (limit_eq e)
            (at_least-at_most u w r.target a b nt
              (subst (λ z. u ≼ z) (sym (limit_eq f)) (subst (λ z. z ≼ v) (sym (limit_eq e)) h)));
    }

    -- A minimum above the upper bound, without a maximum: clamping a range whose target is not
    -- above its upper bound leaves the upper bound below the target.
    pub clamp_min_inverts :
        (u : F) (r : Range F)
        → ltf r.upper u ≡ true
        → r.target ≼ r.upper
        → let out = clamp_max none (clamp_min (some u) r) in ltf out.upper out.target ≡ true
    clamp_min_inverts u r h o =
        ground
          (arith, le_trans u r.target r.upper, le_trans r.target r.upper u, num_of_le r.upper u)
