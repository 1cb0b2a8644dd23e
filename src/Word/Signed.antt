-- ===== src/Word/Signed.antt =====
-- The casts between uint32_t and int.
use riscv_v2f_optimized.Prelude.{ℕ, ◌-◌, ◌%◌, ◌^◌, ltb, if◌then◌else◌}
use riscv_v2f_optimized.Prelude.Int.{ℤ, pos, negsuc}

-- (signed)a
unfoldable pub to_int : ℕ → ℤ
to_int a = if ltb a (2 ^ 31) then pos a else negsuc (2 ^ 32 - 1 - a)

-- (uint32_t)n
unfoldable pub of_int : ℤ → ℕ
of_int (pos n) = n % 2 ^ 32
of_int (negsuc n) = 2 ^ 32 - 1 - n % 2 ^ 32
