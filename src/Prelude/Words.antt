-- ===== src/Prelude/Words.antt =====
-- Rust's fixed-width unsigned arithmetic over the native numbers: the checked and saturating
-- operations of `u64`, and `clamp`. `saturating_sub` is `-`, which stops at 0.
use Prim.Native.Nat.{ℕ, ◌+◌, ◌-◌, ◌*◌, ◌%◌, ◌^◌}
use mathlib.Core.Option.{Option, none, some}
use monkeymesh.Prelude.Tests.{ltb, leb, if◌then◌else◌}

abbrev pub u64_max : ℕ
u64_max = 2 ^ 64 - 1

abbrev pub u128_max : ℕ
u128_max = 2 ^ 128 - 1

abbrev pub u32_mod : ℕ
u32_mod = 2 ^ 32

abbrev pub u64_mod : ℕ
u64_mod = 2 ^ 64

-- `n + 1` on a `u64` of a release build
abbrev pub next_u64 : ℕ → ℕ
next_u64 n = (n + 1) % u64_mod

-- `a.max(b)` and `a.min(b)`
abbrev pub max_of : ℕ → ℕ → ℕ
max_of a b = if ltb a b then b else a

abbrev pub min_of : ℕ → ℕ → ℕ
min_of a b = if ltb b a then b else a

abbrev pub saturate : ℕ → ℕ → ℕ
saturate top n = if leb n top then n else top

abbrev pub saturating_add : ℕ → ℕ → ℕ
saturating_add a b = saturate u64_max (a + b)

abbrev pub saturating_mul : ℕ → ℕ → ℕ
saturating_mul a b = saturate u64_max (a * b)

abbrev pub checked_add_u64 : ℕ → ℕ → Option ℕ
checked_add_u64 a b = if leb (a + b) u64_max then some (a + b) else none

abbrev pub checked_mul_u64 : ℕ → ℕ → Option ℕ
checked_mul_u64 a b = if leb (a * b) u64_max then some (a * b) else none

-- `x.clamp(lo, hi)`; Rust panics where `hi < lo`, which no caller here allows.
abbrev pub clamp : ℕ → ℕ → ℕ → ℕ
clamp x lo hi = if ltb x lo then lo else if ltb hi x then hi else x
