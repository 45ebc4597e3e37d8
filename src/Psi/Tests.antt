-- ===== src/Psi/Tests.antt =====
-- A pressure file as the kernel prints it.
use pp_vpa.Prelude.{◌≡◌, refl, false, [], ◌∷◌, map, none, some, String, ◌*◌, arith}
use pp_vpa.Float.{Float}
use pp_vpa.Float.Fixed.{Fixed, fixed_float}
use pp_vpa.Text.{is_space, Reader, parse_uint, scan_lines, trim_space, fields, cut, drop_cr}
use pp_vpa.Text.Words.{has_no_space_lem}
use pp_vpa.Text.Lines.{file_of, lacks-Lacks}
use pp_vpa.Psi.{no_line, parse, malformed_line, malformed_kv, no_stats}
use pp_vpa.Psi.Rows.{Row, IsRow, print, parse-print}

-- Whole numbers only.
abbrev parsing : Float Fixed
parsing = record fixed_float {
  parse_float =
      λ s. elim (parse_uint s).1 [ none ↦ some ((parse_uint s).0 * 1000) | some e ↦ none ];
}

abbrev idle : Row Fixed
idle = record {
  kind = "full";
  text10 = "0";
  text60 = "0";
  text300 = "0";
  text_total = "0";
  line = record { avg10 = 0; avg60 = 0; avg300 = 0; total_us = 0 };
}

abbrev busy : Row Fixed
busy = record {
  kind = "some";
  text10 = "12";
  text60 = "3";
  text300 = "1";
  text_total = "987654";
  line = record { avg10 = 12000; avg60 = 3000; avg300 = 1000; total_us = 987654 };
}

abbrev file : String → Reader
file s = record { content = s; fails = false }

parse_one :
    parse ⦃float = parsing⦄ (file "some avg10=12 avg60=3 avg300=1 total=987654\n")
    ≡ (record { some_line = busy.line; full_line = no_line }, none)
unfolding parse scan_lines trim_space drop_cr is_space fields cut parse_uint
parse_one = refl

short_line :
    parse ⦃float = parsing⦄ (file "\n  some avg10=12 avg60=3 avg300=1 \n")
    ≡ (no_stats, some (malformed_line "some avg10=12 avg60=3 avg300=1"))
unfolding parse scan_lines trim_space drop_cr is_space fields cut parse_uint
short_line = refl

no_value :
    parse ⦃float = parsing⦄ (file "some avg10=12 avg60 avg300=1 total=1")
    ≡ (no_stats, some (malformed_kv "avg60"))
unfolding parse scan_lines trim_space drop_cr is_space fields cut parse_uint
no_value = refl

idle-IsRow : IsRow ⦃float = parsing⦄ idle
unfolding is_space parse_uint
idle-IsRow = record {
  word = (refl, has_no_space_lem "full" refl);
  solid10 = has_no_space_lem "0" refl;
  solid60 = has_no_space_lem "0" refl;
  solid300 = has_no_space_lem "0" refl;
  solid_total = has_no_space_lem "0" refl;
  reads10 = refl;
  reads60 = refl;
  reads300 = refl;
  reads_total = refl;
  fits = (lacks-Lacks 10 (print idle) refl, omega arith);
}

busy-IsRow : IsRow ⦃float = parsing⦄ busy
unfolding is_space parse_uint
busy-IsRow = record {
  word = (refl, has_no_space_lem "some" refl);
  solid10 = has_no_space_lem "12" refl;
  solid60 = has_no_space_lem "3" refl;
  solid300 = has_no_space_lem "1" refl;
  solid_total = has_no_space_lem "987654" refl;
  reads10 = refl;
  reads60 = refl;
  reads300 = refl;
  reads_total = refl;
  fits = (lacks-Lacks 10 (print busy) refl, omega arith);
}

parse-print_example :
    parse ⦃float = parsing⦄ (file (file_of (map print (busy ∷ idle ∷ []))))
    ≡ (record { some_line = busy.line; full_line = idle.line }, none)
parse-print_example =
    parse-print ⦃float = parsing⦄ (busy ∷ idle ∷ []) (busy-IsRow, (idle-IsRow, tt))
