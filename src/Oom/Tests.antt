-- ===== src/Oom/Tests.antt =====
-- The memory.events file of the program's own test.
use pp_vpa.Prelude.{◌≡◌, refl, true, false, List, [], ◌∷◌, map, none, some, arith}
use pp_vpa.Text.{is_space, parse_uint, scan_lines, fields, drop_cr, read_failed}
use pp_vpa.Text.Words.{has_no_space_lem}
use pp_vpa.Text.Lines.{file_of, lacks-Lacks}
use pp_vpa.Oom.{no_events, parse, or_scan_error}
use pp_vpa.Oom.Counters.{Counter, IsCounter, print, read_counts, parse-counters}

counted :
    parse (some (record { content = "low 0\nhigh 0\nmax 0\noom 1\noom_kill 2\n"; fails = false }))
    ≡ (record { low = 0; high = 0; max = 0; oom = 1; oom_kill = 2 }, none)
unfolding parse scan_lines drop_cr is_space fields parse_uint
counted = refl

-- A count that is no number resets its counter, and a line with more than two fields is skipped.
odd_lines :
    parse (some (record { content = "oom_kill 2\noom_kill x\noom 1 2\n"; fails = false }))
    ≡ (no_events, none)
unfolding parse scan_lines drop_cr is_space fields parse_uint
odd_lines = refl

abbrev counters : List Counter
counters = ("oom", "1") ∷ ("oom_kill", "2") ∷ []

counters-IsCounter : IsCounter ("oom", "1") × IsCounter ("oom_kill", "2") × Unit {0}
unfolding is_space
counters-IsCounter = (
  record {
    key_word = (refl, has_no_space_lem "oom" refl);
    text_word = (refl, has_no_space_lem "1" refl);
    fits = (lacks-Lacks 10 "oom 1" refl, omega arith);
  },
  record {
    key_word = (refl, has_no_space_lem "oom_kill" refl);
    text_word = (refl, has_no_space_lem "2" refl);
    fits = (lacks-Lacks 10 "oom_kill 2" refl, omega arith);
  },
  tt,
)

parse-counters_example :
    parse (some (record { content = file_of (map print counters); fails = true }))
    ≡ (read_counts no_events counters, or_scan_error (some read_failed))
parse-counters_example =
    parse-counters counters true (counters-IsCounter.0, (counters-IsCounter.1, tt))
