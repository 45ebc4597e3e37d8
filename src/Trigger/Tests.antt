-- ===== src/Trigger/Tests.antt =====
-- The triggers at concrete loads, over thousandths.
use pp_vpa.Float.Fixed.{Fixed, fixed_float}
use pp_vpa.Psi.{Line}
use pp_vpa.Trigger.{evaluate_cpu_scale_down, evaluate_memory_scale_down, ScaleDownDecision}

-- 20% of stall, 0.9 of 1.0 cores used, thresholds 10% and 80%.
abbrev stalled : Line Fixed
stalled = record { avg10 = 20000; avg60 = 0; avg300 = 0; total_us = 0 }

abbrev dropped : ScaleDownDecision Fixed
dropped = evaluate_cpu_scale_down 500 1000 30000

abbrev bounded : ScaleDownDecision Fixed
bounded = evaluate_memory_scale_down 800 1000 20000
