-- ===== src/Base/Words.antt =====
-- C integers: an `int` as a signed number, and the conversions between `int`, `size_t` and
-- `unsigned char`.
use Prim.Native.Nat.{ℕ, ◌+◌, ◌-◌, ◌*◌, ◌%◌, ◌^◌, ◌<◌}
use mathlib.Core.Path.{◌≡◌}
use mathlib.Core.Bool.{Bool, true, false}
use native.Mathlib.Omega.{arith}
use itba_os_tp1_ipc_2016_q.Base.Tests.{ltb, ◌==◌, if◌then◌else◌}

-- `negsuc n` is -(n + 1).
pub data ℤ : Type 0 where
  pos : ℕ → ℤ
  negsuc : ℕ → ℤ

abbrev pub IsInt : ℤ → Type 0
IsInt (pos n) = n < 2 ^ 31
IsInt (negsuc n) = n < 2 ^ 31

-- The `int` with the low 32 bits of a number.
abbrev pub int_of_word : ℕ → ℤ
int_of_word n =
    if ltb (n % 2 ^ 32) (2 ^ 31) then pos (n % 2 ^ 32) else negsuc (2 ^ 32 - 1 - n % 2 ^ 32)

-- A conversion of an `int` to an unsigned type of `m` values.
abbrev pub wrap : ℕ → ℤ → ℕ
wrap m (pos n) = n % m
wrap m (negsuc n) = m - 1 - n % m

-- `(int)size` and `(size_t)i`.
abbrev pub int_of_size : ℕ → ℤ
int_of_size size = int_of_word size

abbrev pub size_of_int : ℤ → ℕ
size_of_int i = wrap (2 ^ 64) i

-- `(int)i` of a `long`.
abbrev pub int_of_long : ℤ → ℤ
int_of_long (pos n) = int_of_word n
int_of_long (negsuc n) = int_of_word (2 ^ 32 - 1 - n % 2 ^ 32)

-- `(unsigned char)i`, which is how a `boolean` is stored.
abbrev pub boolean_of_int : ℤ → ℕ
boolean_of_int i = wrap 256 i

-- `2 * i` as an `int` computes it with wrap-around.
abbrev pub double_int : ℤ → ℤ
double_int (pos n) = int_of_word (2 * n)
double_int (negsuc n) = int_of_word (2 ^ 32 + (2 ^ 32 - 2 * (n + 1) % 2 ^ 32))

pub size-int : (size : ℕ) → size < 2 ^ 31 → size_of_int (int_of_size size) ≡ size
size-int size h = ground arith

pub boolean-int : (b : ℕ) → b < 256 → boolean_of_int (pos b) ≡ b
boolean-int b h = ground arith

pub int_of_size-IsInt : (size : ℕ) → IsInt (int_of_size size)
int_of_size-IsInt size = ground arith

-- Equality of integers as C tests it.
abbrev pub int_eq : ℤ → ℤ → Bool
int_eq (pos m) (pos n) = m == n
int_eq (negsuc m) (negsuc n) = m == n
int_eq (pos m) (negsuc n) = false
int_eq (negsuc m) (pos n) = false

pub int_eq_refl : (i : ℤ) → int_eq i i ≡ true
int_eq_refl (pos n) = ground arith
int_eq_refl (negsuc n) = ground arith

pub int_eq→eq : (i j : ℤ) → int_eq i j ≡ true → i ≡ j
int_eq→eq (pos m) (pos n) h = ground arith
int_eq→eq (negsuc m) (negsuc n) h = ground arith
int_eq→eq (pos m) (negsuc n) h = cc
int_eq→eq (negsuc m) (pos n) h = cc
