-- ===== src/Base/Words.antt =====
-- `usize` and `u64` have 64 bits; `isize::MAX` bounds every allocation.
use Prim.Native.Nat.{ℕ, ◌-◌, ◌^◌}

abbrev pub word_mod : ℕ
word_mod = 2 ^ 64

abbrev pub isize_max : ℕ
isize_max = 2 ^ 63 - 1
