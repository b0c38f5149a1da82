-- ===== src/Atomics.antt =====
-- src/platform_atomics.h: the two atomic operations. Each takes the cell's value and returns its
-- result with the new value; it is one step, which no other thread divides.
use shared_gapbs.Base.{ℕ, ◌+◌, Bool, true, false, ◌==◌, if◌then◌else◌}

abbrev pub fetch_and_add : ℕ → ℕ → ℕ × ℕ
fetch_and_add x inc = (x, x + inc)

abbrev pub compare_and_swap : ℕ → ℕ → ℕ → Bool × ℕ
compare_and_swap x old_val new_val = if x == old_val then (true, new_val) else (false, x)
