-- ===== src/Common/Float.antt =====
-- Python's floats as the bit patterns of IEEE 754 binary64, with the comparisons that the program
-- makes. A NaN is equal to nothing, itself included.
use phyai_saas_train_vla.Prelude.{ℕ, ◌%◌, Bool, false, not, ◌&&◌, ◌||◌, ltb, eqb, if◌then◌else◌}

abbrev pub Float : Type 0
Float = ℕ

abbrev pub magnitude : Float → ℕ
magnitude x = x % 0x8000000000000000

abbrev pub is_negative : Float → Bool
is_negative x = not (ltb x 0x8000000000000000)

abbrev pub is_nan : Float → Bool
is_nan x = ltb 0x7FF0000000000000 (magnitude x)

-- `a == b`: the same pattern, or the two zeros
abbrev pub float_eq : Float → Float → Bool
float_eq a b =
    not (is_nan a) && not (is_nan b) && (eqb a b || (eqb (magnitude a) 0 && eqb (magnitude b) 0))

-- `a < b`
abbrev pub float_lt : Float → Float → Bool
float_lt a b =
    if is_nan a || is_nan b
    then false
    else if is_negative a
    then (if is_negative b
        then ltb (magnitude b) (magnitude a)
        else not (eqb (magnitude a) 0 && eqb (magnitude b) 0))
    else (if is_negative b then false else ltb (magnitude a) (magnitude b))

abbrev pub one_half : Float
one_half = 0x3FE0000000000000

abbrev pub one : Float
one = 0x3FF0000000000000

abbrev pub nan : Float
nan = 0x7FF8000000000000
