-- ===== src/Base/Places.antt =====
-- The places of a list: what is found at a number, and what a change of one place leaves.
use Prim.Native.Nat.{ℕ, zero, suc}
use mathlib.Core.Path.{◌≡◌, refl, sym, ap, ◌∙◌, subst}
use mathlib.Core.Bool.{false}
use mathlib.Core.Logic.{◌⊎◌, inl, inr}
use mathlib.Core.List.{List, [], ◌∷◌, ◌++◌, map}
use mathlib.Core.Option.{Option, none, some}
use native.Mathlib.Omega.{arith}
use itba_os_tp1_ipc_2016_q.Base.Tests.{◌==◌}
use itba_os_tp1_ipc_2016_q.Base.Lists.{get_elem?, set, All}

module _ {ℓ} {A : Type ℓ} where
  pub get-append :
      (xs ys : List A) (i : ℕ) (x : A) → get_elem? xs i ≡ some x → get_elem? (xs ++ ys) i ≡ some x
  get-append [] ys i x e = cc
  get-append (y ∷ xs) ys zero x e = e
  get-append (y ∷ xs) ys (suc i) x e = get-append xs ys i x e

  pub get-snoc :
      (xs : List A) (x : A) (i : ℕ) (t : A)
      → get_elem? (xs ++ x ∷ []) i ≡ some t
      → (get_elem? xs i ≡ some t) ⊎ (t ≡ x)
  get-snoc [] x zero t e =
      let value : Option A → A = λ o. elim o [ none ↦ x | some z ↦ z ] in inr (sym (ap value e))
  get-snoc [] x (suc i) t e = cc
  get-snoc (y ∷ xs) x zero t e = inl e
  get-snoc (y ∷ xs) x (suc i) t e = get-snoc xs x i t e

  pub set-same :
      (xs : List A) (i : ℕ) (x y : A) → get_elem? xs i ≡ some x → get_elem? (set xs i y) i ≡ some y
  set-same [] i x y e = cc
  set-same (z ∷ xs) zero x y e = refl
  set-same (z ∷ xs) (suc i) x y e = set-same xs i x y e

  pub set-other :
      (xs : List A) (i j : ℕ) (y : A) → (i == j) ≡ false → get_elem? (set xs i y) j ≡ get_elem? xs j
  set-other [] i j y e = refl
  set-other (z ∷ xs) zero zero y e = ground (arith, e)
  set-other (z ∷ xs) zero (suc j) y e = refl
  set-other (z ∷ xs) (suc i) zero y e = refl
  set-other (z ∷ xs) (suc i) (suc j) y e = set-other xs i j y (ground (arith, e))

module _ {ℓ κ} {A : Type ℓ} {B : Type κ} (f : A → B) where
  pub get-map :
      (xs : List A) (i : ℕ) (x : A) → get_elem? xs i ≡ some x → get_elem? (map f xs) i ≡ some (f x)
  get-map [] i x e = cc
  get-map (y ∷ xs) zero x e = ap (λ o. elim o [ none ↦ none | some z ↦ some (f z) ]) e
  get-map (y ∷ xs) (suc i) x e = get-map xs i x e

  -- A change that the function does not see.
  pub set-map :
      (xs : List A) (i : ℕ) (x y : A)
      → get_elem? xs i ≡ some x
      → f y ≡ f x
      → map f (set xs i y) ≡ map f xs
  set-map [] i x y e h = cc
  set-map (z ∷ xs) zero x y e h =
      let value : Option A → B = λ o. elim o [ none ↦ f z | some v ↦ f v ] in
      ap (λ b. b ∷ map f xs) (h ∙ sym (ap value e))
  set-map (z ∷ xs) (suc i) x y e h = ap (λ l. f z ∷ l) (set-map xs i x y e h)

module _ {ℓ κ} {A : Type ℓ} (P : A → Type κ) where
  pub All-get : (xs : List A) (i : ℕ) (x : A) → All P xs → get_elem? xs i ≡ some x → P x
  All-get [] i x h e = cc
  All-get (y ∷ xs) zero x (p, h) e =
      let value : Option A → A = λ o. elim o [ none ↦ y | some v ↦ v ] in subst P (ap value e) p
  All-get (y ∷ xs) (suc i) x (p, h) e = All-get xs i x h e

  pub All-set : (xs : List A) (i : ℕ) (y : A) → All P xs → P y → All P (set xs i y)
  All-set [] i y h q = tt
  All-set (x ∷ xs) zero y (p, h) q = (q, h)
  All-set (x ∷ xs) (suc i) y (p, h) q = (p, All-set xs i y h q)
