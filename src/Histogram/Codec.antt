-- ===== src/Histogram/Codec.antt =====
-- internal/recommender/histogram/codec.go: a histogram as the text of a status field. Text is the
-- list of its bytes. encoding/gob and encoding/base64 are taken together as a codec.
use pp_vpa.Prelude.{
  ℕ, ◌<◌, ◌≡◌, refl, List, arith, ◌≢◌, Outcome, ok, err, panic, ◌>>=◌, Returns, some, none, Option,
  Option-cases, inl, inr, ◌⊎◌,
}
use pp_vpa.Prelude.Int.{ℤ}
use pp_vpa.Float.{Float}
use pp_vpa.Clock.{unix_nano, of_unix_nano, IsUnix, of_unix_nano-unix_nano}
use pp_vpa.Histogram.{
  Options, Histogram, HistogramError, encoding, decoding, IsValid, validate, num_buckets, new,
  load_buckets,
}

abbrev pub Bytes : Type 0
Bytes = List ℕ

-- `marshal` is the gob encoder and base64; `none` is an error.
pub record Codec (C : Type 0) : Type 0 where
  pub marshal : C → Option Bytes
  pub unmarshal : Bytes → Option C

-- What the two packages document: what was encoded is decoded.
pub record IsLossless {C : Type 0} (codec : Codec C) : Type 0 where
  pub restores : (c : C) (s : Bytes) → codec.marshal c ≡ some s → codec.unmarshal s ≡ some c

pub record Checkpoint (F : Type 0) : Type 0 where
  pub max_value : F
  pub first_bucket_size : F
  pub bucket_ratio : F
  pub half_life_ns : ℤ
  pub epsilon : F
  pub buckets : List F
  pub total_weight : F
  pub reference_unix_ns : ℤ

module _ {F : Type 0} where
  abbrev pub checkpoint_of : Histogram F → Checkpoint F
  checkpoint_of h = record {
    max_value = h.opts.max_value;
    first_bucket_size = h.opts.first_bucket_size;
    bucket_ratio = h.opts.bucket_ratio;
    half_life_ns = h.opts.half_life;
    epsilon = h.opts.epsilon;
    buckets = h.buckets;
    total_weight = h.total_weight;
    reference_unix_ns = unix_nano h.reference_time;
  }

  abbrev pub options_of : Checkpoint F → Options F
  options_of cp = record {
    max_value = cp.max_value;
    first_bucket_size = cp.first_bucket_size;
    bucket_ratio = cp.bucket_ratio;
    half_life = cp.half_life_ns;
    epsilon = cp.epsilon;
  }

abbrev pub or_error {ℓ} : {A : Type ℓ} → Option A → HistogramError → Outcome HistogramError A
or_error none e = err e
or_error (some a) e = ok a

module _ {F : Type 0} ⦃float : Float F⦄ (codec : Codec (Checkpoint F)) where
  unfoldable pub encode : Histogram F → Outcome HistogramError Bytes
  encode h = or_error (codec.marshal (checkpoint_of h)) encoding

  unfoldable pub decode : Bytes → Outcome HistogramError (Histogram F)
  decode s = do
    cp ← or_error (codec.unmarshal s) decoding
    h ← new (options_of cp)
    load_buckets h cp.buckets cp.total_weight (of_unix_nano cp.reference_unix_ns)

  pub decode-checkpoint_of :
      (h : Histogram F) (s : Bytes)
      → IsValid h
      → codec.unmarshal s ≡ some (checkpoint_of h)
      → decode s ≡ ok (record h { reference_time = of_unix_nano (unix_nano h.reference_time) })
  unfolding decode new load_buckets
  decode-checkpoint_of h s v e = rw e (ground (arith, v.checked, v.counted, v.sized, v.fits))

  -- Where the codec is lossless and the reference time fits UnixNano, Decode of what Encode
  -- returns for a valid histogram is that histogram.
  pub decode-encode :
      IsLossless codec
      → (h : Histogram F) (s : Bytes) → IsValid h
      → IsUnix h.reference_time
      → encode h ≡ ok s
      → decode s ≡ ok h
  unfolding encode
  decode-encode lossless h s v u e = rw (
    decode-checkpoint_of h s v (lossless.restores (checkpoint_of h) s (ground arith)),
    of_unix_nano-unix_nano h.reference_time u,
  )

  -- A valid histogram with a zero reference time that Encode writes is decoded, by a lossless
  -- codec, with the same buckets and a reference time that is not zero.
  pub decode_restores_zero_time :
      IsLossless codec
      → (h : Histogram F) (s : Bytes) → IsValid h
      → h.reference_time ≡ 0
      → encode h ≡ ok s
      → Returns (λ r. (r.buckets ≡ h.buckets) × (r.reference_time ≢ 0)) (decode s)
  unfolding encode unix_nano of_unix_nano
  decode_restores_zero_time lossless h s v z e =
      let t = of_unix_nano (unix_nano h.reference_time) in
      (
        record h { reference_time = t },
        decode-checkpoint_of h s v (lossless.restores (checkpoint_of h) s (ground arith)),
        (refl, rw z (omega arith)),
      )

  -- What Decode returns is valid.
  pub decode-IsValid : (s : Bytes) (h : Histogram F) → decode s ≡ ok h → IsValid h
  unfolding decode new load_buckets
  decode-IsValid s h e = elim (Option-cases (codec.unmarshal s)) [
    | inl q ↦ ground arith
    | inr (cp, q) ↦ elim (Option-cases (validate (options_of cp))) [
      | inl c ↦ ground arith
      | inr (x, c) ↦ ground arith
    ]
  ]

  -- A payload with options that pass the checks and ask for more buckets than make yields.
  abbrev pub IsExcessive : Bytes → Type 0
  IsExcessive s =
      (cp : Checkpoint F) × (codec.unmarshal s ≡ some cp)
      × (validate (options_of cp) ≡ none)
      × (float.slice_limit < num_buckets (options_of cp))

  decode_over : (s : Bytes) → IsExcessive s → decode s ≡ panic
  unfolding decode new
  decode_over s (cp, e, v, l) = ground (arith, e, v, l)

  panicked : (s : Bytes) → decode s ≡ panic → IsExcessive s
  unfolding decode new load_buckets
  panicked s e = elim (Option-cases (codec.unmarshal s)) [
    | inl q ↦ ground arith
    | inr (cp, q) ↦ elim (Option-cases (validate (options_of cp))) [
      | inl c ↦ (cp, q, c, ground arith)
      | inr (x, c) ↦ ground arith
    ]
  ]

  -- On every payload, Decode returns a valid histogram or an error, or it panics; and it panics
  -- exactly on a payload whose options pass the checks and ask for more buckets than make yields,
  -- whatever number of buckets the payload has.
  pub decode_safe :
      (s : Bytes)
      → (Returns IsValid (decode s)
          ⊎ ((e : HistogramError) × (decode s ≡ err e))
          ⊎ (decode s ≡ panic))
        × (decode s ≡ panic → IsExcessive s)
        × (IsExcessive s → decode s ≡ panic)
  decode_safe s = elim (outcome (decode s)) [
    | inl (h, e) ↦ (inl (h, e, decode-IsValid s h e), panicked s, decode_over s)
    | inr (inl (x, e)) ↦ (inr (inl (x, e)), panicked s, decode_over s)
    | inr (inr e) ↦ (inr (inr e), panicked s, decode_over s)
  ]
    where
      outcome :
          (r : Outcome HistogramError (Histogram F))
          → ((h : Histogram F) × (r ≡ ok h)) ⊎ ((e : HistogramError) × (r ≡ err e)) ⊎ (r ≡ panic)
      outcome (ok h) = inl (h, refl)
      outcome (err e) = inr (inl (e, refl))
      outcome panic = inr (inr refl)

  -- On a payload that is not excessive, Decode returns a valid histogram or an error.
  pub decode_moderate :
      (s : Bytes)
      → ¬ IsExcessive s
      → Returns IsValid (decode s) ⊎ ((e : HistogramError) × (decode s ≡ err e))
  decode_moderate s m = elim (decode_safe s).0 [
    | inl r ↦ inl r
    | inr (inl e) ↦ inr e
    | inr (inr p) ↦ absurd (m ((decode_safe s).1 p))
  ]
