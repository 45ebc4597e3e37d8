-- ===== src/Watermark.antt =====
-- internal/nodeagent/watermark/watermark.go: a high-watermark that decays. The mutex serialises the
-- calls, and `record` is `record_peak` here.
pub mod Decay
mod Tests
use pp_vpa.Prelude.{ℕ, Bool, ◌||◌, if◌then◌else◌}
use pp_vpa.Prelude.Int.{ℤ, pos, leb_ℤ}
use pp_vpa.Float.{Float, nought, one, ltf}
use pp_vpa.Clock.{Time, Duration, is_zero, sub}

pub record Watermark (F : Type 0) : Type 0 where
  pub value : F
  pub updated_at : Time
  pub window : Duration

module _ {F : Type 0} ⦃float : Float F⦄ where
  open float use {mul, div, of_int}

  abbrev pub new : Duration → Watermark F
  new window = record { value = nought; updated_at = 0; window = window }

  -- decayedLocked
  unfoldable pub decayed : Watermark F → Time → F
  decayed w t =
      let elapsed = sub t w.updated_at in
      let frac = float.sub one (div (of_int elapsed) (of_int w.window)) in
      if leb_ℤ w.window (pos 0) || is_zero w.updated_at
      then w.value
      else if leb_ℤ elapsed (pos 0)
      then w.value
      else if leb_ℤ w.window elapsed
      then nought
      else mul w.value frac

  -- Read
  abbrev pub read : Watermark F → Time → F
  read = decayed

  -- Record
  unfoldable pub record_peak : Watermark F → F → Time → Watermark F
  record_peak w v t =
      let cur = decayed w t in
      if ltf cur v
      then record w { value = v; updated_at = t }
      else record w { value = cur; updated_at = t }
