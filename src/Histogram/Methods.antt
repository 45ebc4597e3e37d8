-- ===== src/Histogram/Methods.antt =====
-- The methods keep a valid histogram valid, and do not panic on one.
use pp_vpa.Prelude.{
  ℕ, ◌<◌, ◌≡◌, refl, ◌≢◌, false, none, some, List, arith, length, get_elem?, set, get_elem?-some,
  get_elem?-set_self, get_elem?-set_ne, err, length-map, length-set, length-replicate, Returns, ◌⊎◌,
  inl, inr, Option-cases, Bool-cases, leb, true, panic, subst, ◌∙◌,
}
use pp_vpa.Float.{Float, nought}
use pp_vpa.Clock.{Time, seconds}
use pp_vpa.Histogram.{
  Options, Histogram, HistogramError, num_buckets, bucket_index, validate, IsValid, new, empty,
  shift_reference, decay_factor, aged, decay, add_at, add_sample, later,
}
use pp_vpa.Histogram.Index.{bucket_index-lt, IsValid-pos}

module _ {F : Type 0} ⦃float : Float F⦄ where
  empty-IsValid :
      (o : Options F)
      → validate o ≡ none
      → leb (num_buckets o) float.slice_limit ≡ true
      → IsValid (empty o)
  empty-IsValid o h k = record {
    checked = h;
    counted = refl;
    sized = length-replicate (num_buckets o) nought;
    fits = ground arith;
  }

  -- New returns the error of validate where the options break a check; it panics where they ask
  -- for more buckets than make yields; otherwise it returns a valid histogram with these options
  -- and a zero reference time.
  pub new_lem :
      (o : Options F)
      → ((e : HistogramError) × (validate o ≡ some e) × (new o ≡ err e))
        ⊎ ((validate o ≡ none) × (leb (num_buckets o) float.slice_limit ≡ false) × (new o ≡ panic))
        ⊎ Returns (λ h. IsValid h × (h.opts ≡ o) × (h.reference_time ≡ 0)) (new o)
  unfolding new
  new_lem o = elim (Option-cases (validate o)) [
    | inl e ↦ elim (Bool-cases (leb (num_buckets o) float.slice_limit)) [
      | inl k ↦ inr (inr (rw (e, k, new) (empty o, refl, (empty-IsValid o e k, refl, refl))))
      | inr k ↦ inr (inl (e, k, rw (e, k, new)))
    ]
    | inr (x, e) ↦ inl (x, e, rw (e, new))
  ]

  aged-IsValid : {h : Histogram F} (x : F) (t : Time) → IsValid h → IsValid (aged h x t)
  aged-IsValid {h} x t v = record {
    checked = v.checked;
    counted = v.counted;
    sized = length-map (λ w. float.mul w x) h.buckets ∙ v.sized;
    fits = v.fits;
  }

  pub shift_reference-IsValid :
      {h : Histogram F} (t : Time) → IsValid h → IsValid (shift_reference h t)
  unfolding shift_reference
  shift_reference-IsValid {h} t v = ground (arith, aged-IsValid (decay_factor h t) t v)

  -- Where the half-life is positive, Decay sets the reference time to the later of it and the
  -- given time.
  pub reference_time-decay :
      (h : Histogram F) (t : Time)
      → float.le (seconds h.opts.half_life) nought ≡ false
      → (decay h t).reference_time ≡ later h.reference_time t
  unfolding shift_reference
  reference_time-decay h t p = ground arith

  -- A second Decay to the same time changes nothing.
  pub decay_idem : (h : Histogram F) (t : Time) → decay (decay h t) t ≡ decay h t
  unfolding shift_reference
  decay_idem h t = ground arith

  -- `ys` is `xs` with `w` added to the element at `i`.
  pub record AddedAt (xs : List F) (i : ℕ) (w : F) (ys : List F) : Type 0 where
    pub old : F
    pub found : get_elem? xs i ≡ some old
    pub added : get_elem? ys i ≡ some (float.add old w)
    pub others : (j : ℕ) → j ≢ i → get_elem? ys j ≡ get_elem? xs j
    pub same_length : length ys ≡ length xs

  add_at-AddedAt :
      (xs : List F) (i : ℕ) (w : F) → i < length xs → Returns (AddedAt xs i w) (add_at xs i w)
  unfolding add_at
  add_at-AddedAt xs i w h =
      let (x, e) = get_elem?-some xs i h in
      let y = float.add x w in
      (
        set xs i y,
        rw e,
        record {
          old = x;
          found = e;
          added = get_elem?-set_self xs i y h;
          others = λ j ne. get_elem?-set_ne xs i j y ne;
          same_length = length-set xs i y;
        },
      )

  -- What a sample of positive weight does to a histogram: all weights age to the sample's time,
  -- then the bucket of its value and the total grow by its weight.
  pub record Sampled (h : Histogram F) (value weight : F) (t : Time) (r : Histogram F)
      : Type 0 where
    pub valid : IsValid r
    pub bucket : AddedAt (decay h t).buckets (bucket_index h value) weight r.buckets
    pub total : r.total_weight ≡ float.add (decay h t).total_weight weight
    pub time : r.reference_time ≡ (decay h t).reference_time
    pub same_opts : r.opts ≡ h.opts

  pub shift_reference-n : (h : Histogram F) (t : Time) → (shift_reference h t).n ≡ h.n
  unfolding shift_reference
  shift_reference-n h t = ground arith

  shift_reference-index :
      (h : Histogram F) (t : Time) (v : F) → bucket_index (shift_reference h t) v ≡ bucket_index h v
  unfolding shift_reference bucket_index
  shift_reference-index h t v = ground arith

  pub shift_reference-opts : (h : Histogram F) (t : Time) → (shift_reference h t).opts ≡ h.opts
  unfolding shift_reference
  shift_reference-opts h t = ground arith

  -- AddSample of a weight that is not `<= 0`, on a valid histogram: it returns a valid histogram
  -- with the same options, in which the weight is added to the value's bucket of the decayed
  -- histogram and to its total, and every other bucket is that of the decayed histogram.
  pub add_sample-Sampled :
      (h : Histogram F) (value weight : F) (t : Time)
      → IsValid h
      → float.le weight nought ≡ false
      → Returns (Sampled h value weight t) (add_sample h value weight t)
  unfolding add_sample
  add_sample-Sampled h value weight t v p =
      let s = shift_reference h t in
      let sv = shift_reference-IsValid t v in
      let i = bucket_index s value in
      let inside : i < length s.buckets = rw sv.sized (bucket_index-lt s value (IsValid-pos sv)) in
      let (ys, e, a) = add_at-AddedAt s.buckets i weight inside in
      (
        record s { buckets = ys; total_weight = float.add s.total_weight weight },
        rw (p, e),
        record {
          valid = record {
            checked = sv.checked;
            counted = sv.counted;
            sized = a.same_length ∙ sv.sized;
            fits = sv.fits;
          };
          bucket = subst (λ k. AddedAt s.buckets k weight ys) (shift_reference-index h t value) a;
          total = refl;
          time = refl;
          same_opts = shift_reference-opts h t;
        },
      )
