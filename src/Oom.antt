-- ===== src/Oom.antt =====
-- internal/nodeagent/oom/oom.go: the counters of memory.events, and the sample that an OOM stands for.
pub mod Counters
mod Tests
use pp_vpa.Prelude.{ℕ, List, [], ◌∷◌, Option, none, some, String, str_eq, if◌then◌else◌}
use pp_vpa.Float.{Float}
use pp_vpa.Text.{ScanError, Reader, fields, parse_uint, scan_lines}

pub record Events : Type 0 where
  pub low : ℕ
  pub high : ℕ
  pub max : ℕ
  pub oom : ℕ
  pub oom_kill : ℕ

-- Events{}
abbrev pub no_events : Events
no_events = record { low = 0; high = 0; max = 0; oom = 0; oom_kill = 0 }

pub data EventsError : Type 0 where
  not_opened : EventsError
  scan_failed : ScanError → EventsError

abbrev pub or_scan_error : Option ScanError → Option EventsError
or_scan_error none = none
or_scan_error (some e) = some (scan_failed e)

-- The switch on the key.
unfoldable pub set_counter : Events → String → ℕ → Events
set_counter e k n =
    if str_eq k "low"
    then record e { low = n }
    else if str_eq k "high"
    then record e { high = n }
    else if str_eq k "max"
    then record e { max = n }
    else if str_eq k "oom"
    then record e { oom = n }
    else if str_eq k "oom_kill"
    then record e { oom_kill = n }
    else e

-- A line that has not two fields is skipped; the error of ParseUint is ignored, its value is not.
unfoldable pub count_fields : Events → List String → Events
unfolding set_counter
count_fields e [] = e
count_fields e (k ∷ []) = e
count_fields e (k ∷ v ∷ []) = set_counter e k (parse_uint v).0
count_fields e (k ∷ v ∷ w ∷ ws) = e

unfoldable pub count_lines : Events → List String → Events
unfolding count_fields
count_lines e [] = e
count_lines e (line ∷ lines) = count_lines (count_fields e (fields line)) lines

-- Parse; `none` is a file that cannot be opened.
unfoldable pub parse : Option Reader → Events × Option EventsError
unfolding count_lines
parse none = (no_events, some not_opened)
parse (some r) = let (lines, e) = scan_lines r in (count_lines no_events lines, or_scan_error e)

module _ {F : Type 0} ⦃float : Float F⦄ where
  open float use {mul, lit}

  -- DefaultBumpFactor is 1.20.
  unfoldable pub synthetic_sample : F → F
  synthetic_sample prior_limit_bytes = mul prior_limit_bytes (lit 12 1)
