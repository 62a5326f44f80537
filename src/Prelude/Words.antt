-- ===== src/Prelude/Words.antt =====
-- Go's int64 as its 64 bits in two's complement: arithmetic wraps around at 2 ^ 64.
use Prim.Native.Nat.{ℕ, ◌+◌, ◌-◌, ◌%◌, ◌^◌}
use mathlib.Core.Bool.{Bool}
use sentinel_fs.Prelude.Tests.{ltb}

abbrev pub Int64 : Type 0
Int64 = ℕ

unfoldable pub add64 : Int64 → Int64 → Int64
add64 a b = (a + b) % 2 ^ 64

unfoldable pub sub64 : Int64 → Int64 → Int64
sub64 a b = (a + 2 ^ 64 - b % 2 ^ 64) % 2 ^ 64

-- a < b as signed numbers: flipping the sign bit keeps their order.
unfoldable pub slt64 : Int64 → Int64 → Bool
slt64 a b = ltb ((a + 2 ^ 63) % 2 ^ 64) ((b + 2 ^ 63) % 2 ^ 64)
