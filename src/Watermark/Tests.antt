-- ===== src/Watermark/Tests.antt =====
-- A watermark of 1.0 set at second 10 with a window of 8 seconds, over thousandths.
use pp_vpa.Prelude.{◌-◌, ◌≡◌, refl, arith}
use pp_vpa.Prelude.Int.{pos}
use pp_vpa.Float.{one}
use pp_vpa.Float.Fixed.{Fixed, fixed_float}
use pp_vpa.Clock
use pp_vpa.Watermark.{Watermark, read, decayed, record_peak}
use pp_vpa.Watermark.Decay.{read_restarted}

abbrev peaked : Watermark Fixed
peaked = record { value = 1000; updated_at = 10; window = pos 8 }

halfway : read peaked 14 ≡ 500
unfolding decayed Clock.sub
halfway = refl

-- With a lower sample at second 14, a quarter is left when the window from the peak is over.
read_restarted_example :
    read (record_peak peaked 100 14) 18
    ≡ fixed_float.mul (read peaked 14) (
        fixed_float.sub one
          (fixed_float.div (fixed_float.of_int (pos (18 - 14))) (fixed_float.of_int (pos 8))))
unfolding decayed Clock.sub
read_restarted_example =
    read_restarted peaked 8 100 14 18 refl (omega arith) refl (omega arith) (omega arith)
      (omega arith)

left_over : read (record_peak peaked 100 14) 18 ≡ 250
unfolding decayed record_peak Clock.sub
left_over = refl
