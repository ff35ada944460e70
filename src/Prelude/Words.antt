-- ===== src/Prelude/Words.antt =====
-- Machine words of a 64-bit target, with their wrap-around written out. A signed word is the
-- number below 2 ^ 64 that two's complement gives it.
use strobengine.Prelude.Tests.{ltb, ◌==◌, if◌then◌else◌}
use Prim.Native.Nat.{ℕ, ◌+◌, ◌-◌, ◌*◌, ◌%◌, ◌^◌}
use mathlib.Core.Bool.{Bool}

abbrev pub u64_mod : ℕ
u64_mod = 2 ^ 64

-- `a + b` on 64 bits in a release build.
abbrev pub add64 : ℕ → ℕ → ℕ
add64 a b = (a + b) % u64_mod

-- `a - b`
abbrev pub sub64 : ℕ → ℕ → ℕ
sub64 a b = (a + (u64_mod - b)) % u64_mod

-- `a * b`
abbrev pub mul64 : ℕ → ℕ → ℕ
mul64 a b = (a * b) % u64_mod

-- `a < b` on i64
abbrev pub i64_lt : ℕ → ℕ → Bool
i64_lt a b = ltb ((a + 2 ^ 63) % u64_mod) ((b + 2 ^ 63) % u64_mod)

-- `a.rem_euclid(m)` on i64, for a positive `m`
abbrev pub rem_euclid : ℕ → ℕ → ℕ
rem_euclid a m =
    let r = (u64_mod - a) % m in if ltb a (2 ^ 63) then a % m else if r == 0 then 0 else m - r
