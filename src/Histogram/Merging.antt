-- ===== src/Histogram/Merging.antt =====
-- Merge never panics on valid histograms.
use pp_vpa.Prelude.{
  ℕ, zero, suc, ◌≡◌, refl, true, false, List, [], ◌∷◌, arith, length, ◌∙◌, ap, err, Returns,
  get_elem?, some, none,
}
use pp_vpa.Float.{Float, Ieee, nought, one, eqf}
use pp_vpa.Histogram.{
  Options, Histogram, IsValid, num_buckets, validate, same_options, add_buckets, merge, later,
  decay, incompatible_options,
}
use pp_vpa.Histogram.Index.{validate_iff}
use pp_vpa.Histogram.Methods.{shift_reference-IsValid, shift_reference-opts, shift_reference-n}

module _ {F : Type 0} ⦃float : Float F⦄ where
  -- The elementwise sum of lists of one length.
  pub record Summed (xs ys zs : List F) : Type 0 where
    pub entry :
        (i : ℕ) (x y : F)
        → get_elem? xs i ≡ some x
        → get_elem? ys i ≡ some y
        → get_elem? zs i ≡ some (float.add x y)
    pub same_length : length zs ≡ length xs

  add_buckets-Summed :
      (xs ys : List F) → length xs ≡ length ys → Returns (Summed xs ys) (add_buckets xs ys)
  unfolding add_buckets
  add_buckets-Summed [] ys e = ([], refl, record { entry = λ i x y p q. cc; same_length = refl })
  add_buckets-Summed (x ∷ xs) [] e = absurd (omega arith)
  add_buckets-Summed (x ∷ xs) (y ∷ ys) e =
      let (zs, q, s) = add_buckets-Summed xs ys (omega arith) in
      (float.add x y ∷ zs, rw q, record { entry = at zs s; same_length = ap suc s.same_length })
    where
      at :
          (zs : List F)
          → Summed xs ys zs
          → (i : ℕ) (a b : F) → get_elem? (x ∷ xs) i ≡ some a
          → get_elem? (y ∷ ys) i ≡ some b
          → get_elem? (float.add x y ∷ zs) i ≡ some (float.add a b)
      at zs s zero a b p q = cc
      at zs s (suc i) a b p q = s.entry i a b p q

  eq_of_eqf : (laws : Ieee F) (x y : F) → float.le x nought ≡ false → eqf x y ≡ true → x ≡ y
  eq_of_eqf laws x y p e =
      laws.eq_of_positive x y
        (ground (
          arith,
          laws.num_of_le x y,
          laws.le_total x nought,
          laws.num_of_le nought one,
          laws.lit_le 0 1 0 (omega arith),
        ))
        (ground arith) (ground arith)

  -- Equal checked options ask for the same number of buckets: `==` tells only the zeros wrong.
  same_options-num_buckets :
      (laws : Ieee F) (a b : Options F)
      → validate a ≡ none
      → same_options a b ≡ true
      → num_buckets a ≡ num_buckets b
  unfolding same_options num_buckets
  same_options-num_buckets laws a b v e =
      let c = (validate_iff a).0 v in
      let m = eq_of_eqf laws a.max_value b.max_value c.0 (ground arith) in
      let f = eq_of_eqf laws a.first_bucket_size b.first_bucket_size c.1 (ground arith) in
      let above : float.le a.bucket_ratio nought ≡ false =
        ground
          (arith, c, laws.le_trans a.bucket_ratio nought one, laws.lit_le 0 1 0 (omega arith)) in
      let r = eq_of_eqf laws a.bucket_ratio b.bucket_ratio above (ground arith) in rw (m, f, r)

  pub record Merged (h other r : Histogram F) : Type 0 where
    pub valid : IsValid r
    pub sums :
        let t = later h.reference_time other.reference_time in
        Summed (decay h t).buckets (decay other t).buckets r.buckets
    pub total :
        let t = later h.reference_time other.reference_time in
        r.total_weight ≡ float.add (decay h t).total_weight (decay other t).total_weight
    pub same_opts : r.opts ≡ h.opts

  -- Merge of two valid histograms with the same options returns a valid histogram with the
  -- receiver's options, whose buckets and total are the sums of those of both histograms decayed
  -- to the later of the two reference times.
  pub merge-Merged :
      (laws : Ieee F) (h other : Histogram F)
      → IsValid h
      → IsValid other
      → same_options h.opts other.opts ≡ true
      → Returns (Merged h other) (merge h other)
  unfolding merge
  merge-Merged laws h other v w e =
      let t = later h.reference_time other.reference_time in
      let a = shift_reference-IsValid t v in
      let b = shift_reference-IsValid t w in
      let sizes : length (decay h t).buckets ≡ length (decay other t).buckets = cc (
        a.sized,
        b.sized,
        shift_reference-n h t,
        shift_reference-n other t,
        v.counted,
        w.counted,
        same_options-num_buckets laws h.opts other.opts v.checked e,
      ) in
      let (zs, q, s) = add_buckets-Summed (decay h t).buckets (decay other t).buckets sizes in
      (
        record (decay h t) {
          buckets = zs;
          total_weight = float.add (decay h t).total_weight (decay other t).total_weight;
        },
        rw (e, q),
        record {
          valid = record {
            checked = a.checked;
            counted = a.counted;
            sized = s.same_length ∙ a.sized;
            fits = a.fits;
          };
          sums = s;
          total = refl;
          same_opts = shift_reference-opts h t;
        },
      )

  -- Merge of histograms with different options is an error.
  pub merge_incompatible :
      (h other : Histogram F)
      → same_options h.opts other.opts ≡ false
      → merge h other ≡ err incompatible_options
  unfolding merge
  merge_incompatible h other e = rw e
