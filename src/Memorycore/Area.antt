-- ===== src/Memorycore/Area.antt =====
-- internal/memorycore/area.go: an `Area` is a byte; the wire formats carry any value.
use Prim.Native.String.{String}
use mma.Base.{ℕ, Bool, ◌||◌, ◌==◌, if◌then◌else◌}

abbrev pub Area : Type 0
Area = ℕ

abbrev pub area_coils : Area
area_coils = 1

abbrev pub area_discrete_inputs : Area
area_discrete_inputs = 2

abbrev pub area_holding_regs : Area
area_holding_regs = 3

abbrev pub area_input_regs : Area
area_input_regs = 4

unfoldable pub is_bit_area : Area → Bool
is_bit_area a = a == area_coils || a == area_discrete_inputs

unfoldable pub is_reg_area : Area → Bool
is_reg_area a = a == area_holding_regs || a == area_input_regs

unfoldable pub area_string : Area → String
area_string a =
    if a == area_coils
    then "coils"
    else if a == area_discrete_inputs
    then "discrete_inputs"
    else if a == area_holding_regs
    then "holding_registers"
    else if a == area_input_regs
    then "input_registers"
    else "invalid"
