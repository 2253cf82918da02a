-- ===== src/Base.antt =====
-- The names that every module shares: the libraries' names in use, Boolean tests on numbers,
-- byte strings as lists of numbers, and the machine widths of the program.
mod Tests
mod Lists
pub use Tests.*
pub use Lists.*
pub use Prim.Native.Nat.{ℕ, zero, suc, ◌+◌, ◌-◌, ◌*◌, ◌/◌, ◌%◌, ◌^◌, ◌≤◌, ◌<◌}
pub use mathlib.Core.Path.{◌≡◌, refl, sym, ap, ◌∙◌, subst}
pub use mathlib.Core.Logic.{◌≢◌, ◌↔◌, ◌⊎◌, inl, inr}
pub use mathlib.Core.Bool.{Bool, true, false, not, ◌&&◌, ◌||◌}
pub use mathlib.Core.Option.{Option, none, some}
pub use mathlib.Core.List.{List, [], ◌∷◌, ◌++◌, append_assoc, append-nil}
pub use native.Mathlib.Omega.{arith}

-- A `Vec<u8>`, a `Bytes` or a `BytesMut`.
abbrev pub Bytes : Type 0
Bytes = List ℕ

abbrev pub u32_mod : ℕ
u32_mod = 4294967296

-- `u64`, and `usize` on a 64-bit machine.
abbrev pub u64_mod : ℕ
u64_mod = 18446744073709551616

-- `a + b` on `u64` and `usize`.
abbrev pub add64 : ℕ → ℕ → ℕ
add64 a b = (a + b) % u64_mod

-- `a - b` on `u64` and `usize`.
abbrev pub sub64 : ℕ → ℕ → ℕ
sub64 a b = (a + u64_mod - b) % u64_mod

-- `as u32`.
abbrev pub as_u32 : ℕ → ℕ
as_u32 n = n % u32_mod
