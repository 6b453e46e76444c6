-- ===== src/Nib/Tests.antt =====
-- The two programs on their own assignments.
use riot_playground.Common.{◌≡◌, refl, [], ◌∷◌, arith}
use riot_playground.Nib.{assignments, read_flags, run_flags, run_fields, macro_main, bitfield_main}
use riot_playground.Nib.Refinement.{read_flags-run_flags}

macro_main_prints : macro_main ≡ 45 ∷ 3 ∷ 3 ∷ 1 ∷ 5 ∷ 2 ∷ 1 ∷ 6 ∷ []
unfolding macro_main
macro_main_prints = refl

bitfield_main_prints : bitfield_main ≡ macro_main
unfolding bitfield_main macro_main
bitfield_main_prints = refl

read_flags-run_flags_example :
    read_flags (run_flags assignments 0xffffffff) ≡ run_fields assignments (read_flags 0xffffffff)
read_flags-run_flags_example = read_flags-run_flags assignments 0xffffffff (omega arith)
