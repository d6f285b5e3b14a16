-- ===== src/Options/Tests.antt =====
-- The options of the programs at concrete arguments.
use cray_tests.Prelude.{ℕ, ◌≡◌, ◌^◌, ◌-◌, refl, false, some, none, List, [], ◌∷◌}
use cray_tests.Fabric.Libfabric.{pos, negsuc}
use cray_tests.Options.{Opt, strtol, atoi, parse_all}
use cray_tests.Options.OneSided
use cray_tests.Options.RandomAccess

-- " -12x" and "4294967297"
atoi-minus_twelve : atoi (32 ∷ 45 ∷ 49 ∷ 50 ∷ 120 ∷ []) ≡ negsuc 11
unfolding atoi
atoi-minus_twelve = refl

atoi-wraps : atoi (52 ∷ 50 ∷ 57 ∷ 52 ∷ 57 ∷ 54 ∷ 55 ∷ 50 ∷ 57 ∷ 55 ∷ []) ≡ pos 1
unfolding atoi
atoi-wraps = refl

-- An option with its argument.
abbrev option : ℕ → List ℕ → Opt
option op optarg = record { op = op; optarg = optarg }

-- "-l 7 -s 0"
one_sided-skip_zero :
    OneSided.parse_options (option b'l' (55 ∷ []) ∷ option b's' (48 ∷ []) ∷ []) ≡ none
unfolding OneSided.parse_options OneSided.parse_opt parse_all atoi
one_sided-skip_zero = refl

-- "-l 7"
one_sided-loop :
    OneSided.parse_options (option b'l' (55 ∷ []) ∷ [])
    ≡ some (record OneSided.defaults { loop = 7; loop_large = 1 })
unfolding OneSided.parse_options OneSided.parse_opt parse_all atoi
one_sided-loop = refl

-- "-m -1" is taken for the largest number of bytes.
negative_memory :
    RandomAccess.parse_options false (option b'm' (45 ∷ 49 ∷ []) ∷ [])
    ≡ some (record RandomAccess.defaults { total_mem_opt = 2 ^ 64 - 1 })
unfolding RandomAccess.parse_options RandomAccess.parse_opt parse_all strtol
negative_memory = refl
