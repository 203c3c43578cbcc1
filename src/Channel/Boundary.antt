-- ===== src/Channel/Boundary.antt =====
-- The shape of a boundary, and that `gen_boundary` has it.
use itba_os_tp1_ipc_2016_q.Base.{
  ℕ, ◌+◌, ◌≤◌, ◌<◌, ◌≡◌, arith, [], ◌∷◌, ◌++◌, Bytes, codes, length, length-append, All, All-append,
  Lacks, append_assoc,
}
use itba_os_tp1_ipc_2016_q.Base.Decimal.{decimal, IsDigit, decimal-IsDigit, length-decimal}
use itba_os_tp1_ipc_2016_q.Channel.{
  boundary_prefix, boundary_length, rand_max, rand_low, getrnd, gen_boundary,
}

-- A boundary ends with two underscores behind a text with none and no zero byte, and fits its block.
pub record IsBoundary (b : Bytes) : Type 0 where
  pub body : Bytes
  pub shape : b ≡ body ++ b'_' ∷ b'_' ∷ []
  pub no_underscore : Lacks b'_' body
  pub no_zero : Lacks 0 body
  pub some_body : 0 < length body
  pub fits : length body + 2 < boundary_length

digits-Lacks : (k : ℕ) (s : Bytes) → k < b'0' → All IsDigit s → Lacks k s
digits-Lacks k [] h d = tt
digits-Lacks k (c ∷ s) h d = (λ e. omega arith, digits-Lacks k s h d.1)

underscore-Lacks : (s : Bytes) → All IsDigit s → Lacks b'_' s
underscore-Lacks [] d = tt
underscore-Lacks (c ∷ s) d = (λ e. omega arith, underscore-Lacks s d.1)

pub getrnd_bounds :
    (min max rand : ℕ) → min < max → (min ≤ getrnd min max rand) × (getrnd min max rand < max)
unfolding getrnd
getrnd_bounds min max rand h = grind arith

ten_digits : (rand : ℕ) → length (decimal (getrnd rand_low rand_max rand)) ≡ 10
ten_digits rand =
    let (lo, hi) = getrnd_bounds rand_low rand_max rand (omega arith) in
    length-decimal 9 (getrnd rand_low rand_max rand) (omega arith) (omega arith)

-- Whatever `rand()` returns, the generated boundary has 30 characters: it ends with two underscores,
-- has no other underscore and no zero byte, and fits the block that the receiver reads it to.
pub gen_boundary-IsBoundary :
    (rand : ℕ) → IsBoundary (gen_boundary rand) × (length (gen_boundary rand) ≡ 30)
unfolding gen_boundary
gen_boundary-IsBoundary rand =
    let digits = decimal (getrnd rand_low rand_max rand) in
    let d : All IsDigit digits = decimal-IsDigit (getrnd rand_low rand_max rand) in
    let n : length digits ≡ 10 = ten_digits rand in
    let m : length (boundary_prefix ++ digits) ≡ 28 =
      omega (arith, length-append boundary_prefix digits) in
    (
      record {
        body = boundary_prefix ++ digits;
        shape = rw append_assoc;
        no_underscore =
            All-append _ boundary_prefix digits (omega arith) (underscore-Lacks digits d);
        no_zero =
            All-append _ boundary_prefix digits (omega arith)
              (digits-Lacks 0 digits (omega arith) d);
        some_body = omega arith;
        fits = omega arith;
      },
      omega (
        arith,
        length-append boundary_prefix (digits ++ codes "__"),
        length-append digits (codes "__"),
      ),
    )
