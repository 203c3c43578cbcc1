-- ===== src/Base/Decimal.antt =====
-- `sprintf("%d")` of a number that is not negative, and `atoi` on the digits at the start of a text.
use Prim.Native.Nat.{ℕ, zero, suc, ◌+◌, ◌-◌, ◌*◌, ◌/◌, ◌%◌, ◌^◌, ◌≤◌, ◌<◌}
use mathlib.Core.Path.{◌≡◌, refl, ◌∙◌, ap, sym}
use mathlib.Core.Logic.{◌≢◌}
use mathlib.Core.Bool.{Bool, ◌&&◌}
use mathlib.Core.List.{List, [], ◌∷◌, ◌++◌, append-nil}
use mathlib.Core.Logic.{inl, inr}
use native.Mathlib.Omega.{arith}
use native.Mathlib.Nat.{pow-suc}
use itba_os_tp1_ipc_2016_q.Base.Tests.{ltb, leb, if◌then◌else◌, Bool-cases}
use itba_os_tp1_ipc_2016_q.Base.Lists.{length, All}

-- The digits of `n` before `out`; the fuel is more than enough if it is above `n`.
print_loop : ℕ → ℕ → List ℕ → List ℕ
print_loop zero n out = out
print_loop (suc fuel) n out =
    let d = b'0' + n % 10 in
    let rest = print_loop fuel (n / 10) (d ∷ out) in if ltb n 10 then d ∷ out else rest

unfoldable pub decimal : ℕ → List ℕ
unfolding print_loop
decimal n = print_loop (suc n) n []

abbrev pub is_digit : ℕ → Bool
is_digit c = leb b'0' c && leb c b'9'

-- The number at the start of a text behind the number `n`.
unfoldable pub atoi_from : ℕ → List ℕ → ℕ
atoi_from n [] = n
atoi_from n (c ∷ s) = let rest = atoi_from (n * 10 + (c - b'0')) s in if is_digit c then rest else n

unfoldable pub atoi : List ℕ → ℕ
unfolding atoi_from
atoi s = atoi_from 0 s

abbrev pub IsDigit : ℕ → Type 0
IsDigit c = (b'0' ≤ c) × (c ≤ b'9')

print_loop-IsDigit :
    (fuel n : ℕ) (out : List ℕ) → All IsDigit out → All IsDigit (print_loop fuel n out)
unfolding print_loop
print_loop-IsDigit zero n out h = h
print_loop-IsDigit (suc fuel) n out h =
    ground (arith, print_loop-IsDigit fuel (n / 10) ((b'0' + n % 10) ∷ out) (omega arith, h))

-- A printed number has digits only.
pub decimal-IsDigit : (n : ℕ) → All IsDigit (decimal n)
unfolding decimal
decimal-IsDigit n = print_loop-IsDigit (suc n) n [] tt

atoi_last : (n : ℕ) (out : List ℕ) → atoi_from (n / 10) ((b'0' + n % 10) ∷ out) ≡ atoi_from n out
unfolding atoi_from
atoi_last n out =
    let e : n / 10 * 10 + (b'0' + n % 10 - b'0') ≡ n = omega arith in rw e (ground arith)

atoi-print_loop :
    (fuel n : ℕ) (out rest : List ℕ)
    → n < fuel
    → atoi_from 0 (print_loop fuel n out ++ rest) ≡ atoi_from n (out ++ rest)
unfolding print_loop
atoi-print_loop zero n out rest h = absurd (omega arith)
atoi-print_loop (suc fuel) n out rest h = elim (Bool-cases (ltb n 10)) [
  | inl e ↦
      let z : 0 ≡ n / 10 = ground arith in
      rw e (ap (λ m. atoi_from m ((b'0' + n % 10) ∷ (out ++ rest))) z ∙ atoi_last n (out ++ rest))
  | inr e ↦ rw e (
      atoi-print_loop fuel (n / 10) ((b'0' + n % 10) ∷ out) rest (ground arith)
      ∙ atoi_last n (out ++ rest))
]

-- `atoi` reads a printed number back, whatever follows it, unless a digit does.
pub atoi-decimal : (n : ℕ) (rest : List ℕ) → atoi_from n rest ≡ n → atoi (decimal n ++ rest) ≡ n
unfolding atoi decimal
atoi-decimal n rest h = atoi-print_loop (suc n) n [] rest (omega arith) ∙ h

-- `atoi` reads a printed number back.
pub atoi-text : (n : ℕ) → atoi (decimal n) ≡ n
atoi-text n = ap atoi (sym (append-nil (decimal n))) ∙ atoi-decimal n [] (unfold atoi_from in refl)

decimal_zero : decimal 0 ≢ []
unfolding decimal print_loop
decimal_zero = λ e. cc

-- A printed number is not empty.
pub decimal_non_empty : (n : ℕ) → decimal n ≢ []
decimal_non_empty n e =
    let z : n ≡ 0 = sym (atoi-text n) ∙ ap atoi e ∙ (unfold atoi atoi_from in refl) in
    decimal_zero (ap decimal (sym z) ∙ e)

pow_pos : (k : ℕ) → 0 < 10 ^ k
pow_pos zero = omega arith
pow_pos (suc k) = omega (arith, pow-suc 10 k, pow_pos k)

length-print_loop :
    (k fuel n : ℕ) (out : List ℕ)
    → n < fuel
    → 10 ^ k ≤ n
    → n < 10 ^ suc k
    → length (print_loop fuel n out) ≡ suc k + length out
unfolding print_loop
length-print_loop k zero n out h lo hi = absurd (omega arith)
length-print_loop zero (suc fuel) n out h lo hi = ground arith
length-print_loop (suc k) (suc fuel) n out h lo hi =
    let p : 10 ^ suc k ≡ 10 ^ k * 10 = pow-suc 10 k in
    let q : 10 ^ suc (suc k) ≡ 10 ^ suc k * 10 = pow-suc 10 (suc k) in
    let pos : 0 < 10 ^ k = pow_pos k in
    ground (
      arith,
      length-print_loop k fuel (n / 10) ((b'0' + n % 10) ∷ out) (omega arith) (omega arith)
          (omega arith),
    )

-- A number from 10 ^ k to below 10 ^ (k + 1) is printed with k + 1 digits.
pub length-decimal : (k n : ℕ) → 10 ^ k ≤ n → n < 10 ^ suc k → length (decimal n) ≡ suc k
unfolding decimal
length-decimal k n lo hi = omega (arith, length-print_loop k (suc n) n [] (omega arith) lo hi)

pub decimal_3000 : decimal 3000 ≡ b'3' ∷ b'0' ∷ b'0' ∷ b'0' ∷ []
unfolding decimal print_loop
decimal_3000 = refl
