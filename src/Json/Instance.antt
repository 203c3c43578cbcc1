-- ===== src/Json/Instance.antt =====
-- A concrete library that meets the laws of `Json`: an object is a list of entries, each behind the
-- lengths of its key and of its value, and its text is that list with every number raised by one.
use itba_os_tp1_ipc_2016_q.Base.{
  ℕ, zero, suc, ◌-◌, ◌≤◌, ◌≡◌, ◌≢◌, refl, ap, arith, inl, inr, Bool-cases, [], ◌∷◌, ◌++◌, Option,
  none, some, Bytes, map, length, take, drop, take-append, drop-append, length-drop, length-append,
  Lacks, str_eq, str_eq_refl, str_eq→eq, if◌then◌else◌,
}
use itba_os_tp1_ipc_2016_q.Base.Words.{ℤ, pos, negsuc}
use itba_os_tp1_ipc_2016_q.Json.{Json}

unfoldable pub add_entry : Bytes → Bytes → Bytes → Bytes
add_entry o k v = length k ∷ length v ∷ (k ++ (v ++ o))

unfoldable pub find_entry : ℕ → Bytes → Bytes → Option Bytes
find_entry zero o j = none
find_entry (suc fuel) [] j = none
find_entry (suc fuel) (n ∷ []) j = none
find_entry (suc fuel) (n ∷ m ∷ r) j =
    let rest = find_entry fuel (drop m (drop n r)) j in
    if str_eq (take n r) j then some (take m (drop n r)) else rest

-- Fuel beyond the length changes nothing.
find_fuel :
    (f g : ℕ) (o j : Bytes) → length o ≤ f → length o ≤ g → find_entry f o j ≡ find_entry g o j
unfolding find_entry
find_fuel zero zero o j h k = refl
find_fuel zero (suc g) [] j h k = refl
find_fuel zero (suc g) (n ∷ o) j h k = absurd (omega arith)
find_fuel (suc f) zero [] j h k = refl
find_fuel (suc f) zero (n ∷ o) j h k = absurd (omega arith)
find_fuel (suc f) (suc g) [] j h k = refl
find_fuel (suc f) (suc g) (n ∷ []) j h k = refl
find_fuel (suc f) (suc g) (n ∷ m ∷ r) j h k =
    let short : length (drop m (drop n r)) ≤ length r =
      omega (arith, length-drop m (drop n r), length-drop n r) in
    rw (find_fuel f g (drop m (drop n r)) j (omega arith) (omega arith))

unfoldable pub get_entry : Option Bytes → Bytes → Option Bytes
get_entry none j = none
get_entry (some o) j = find_entry (length o) o j

pub get_same : (o k v : Bytes) → get_entry (some (add_entry o k v)) k ≡ some v
unfolding get_entry find_entry add_entry
get_same o k v =
    rw (take-append k (v ++ o), str_eq_refl k, drop-append k (v ++ o)) (ap some (take-append v o))

pub get_different :
    (o k j v : Bytes) → k ≢ j → get_entry (some (add_entry o k v)) j ≡ get_entry (some o) j
unfolding get_entry find_entry add_entry
get_different o k j v ne = elim (Bool-cases (str_eq k j)) [
  | inl e ↦ absurd (ne (str_eq→eq k j e))
  | inr e ↦
      rw (take-append k (v ++ o), e, drop-append k (v ++ o), drop-append v o)
        (find_fuel (suc (length (k ++ (v ++ o)))) (length o) o j
          (omega (arith, length-append k (v ++ o), length-append v o)) (omega arith))
]

unfoldable pub code_int : ℤ → Bytes
code_int (pos n) = 0 ∷ n ∷ []
code_int (negsuc n) = 1 ∷ n ∷ []

unfoldable pub read_int : Option Bytes → ℤ
read_int (some (zero ∷ n ∷ s)) = pos n
read_int (some (suc t ∷ n ∷ s)) = negsuc n
read_int o = pos 0

pub read_code : (i : ℤ) → read_int (some (code_int i)) ≡ i
unfolding read_int code_int
read_code (pos n) = refl
read_code (negsuc n) = refl

pub read_double : Option Bytes → ℕ
read_double (some (n ∷ s)) = n
read_double o = 0

pub read_double_new : (d : ℕ) → read_double (some (d ∷ [])) ≡ d
unfolding read_double
read_double_new d = refl

pub get_null_entry : (k : Bytes) → get_entry none k ≡ none
unfolding get_entry
get_null_entry k = refl

abbrev pub lower : ℕ → ℕ
lower n = n - 1

pub raised : (s : Bytes) → map lower (map suc s) ≡ s
raised [] = refl
raised (c ∷ s) = let e : suc c - 1 ≡ c = omega arith in rw (e, raised s)

pub raised-Lacks : (s : Bytes) → Lacks 0 (map suc s)
raised-Lacks [] = tt
raised-Lacks (c ∷ s) = (λ e. omega arith, raised-Lacks s)

abbrev pub list_json : Json
list_json = record {
  Object = Bytes;
  Double = ℕ;
  new_object = [];
  new_int = code_int;
  new_double = λ d. d ∷ [];
  new_string = λ s. s;
  object_add = add_entry;
  object_get_ex = get_entry;
  get_int = read_int;
  get_double = read_double;
  get_string = λ o. o;
  to_json_string = map suc;
  tokener_parse = λ s. some (map lower s);
  IsExact = λ o. Unit;
  exact_object = tt;
  exact_int = λ i. tt;
  exact_string = λ s h. tt;
  exact_add = λ o k v h g. tt;
  get_add_same = get_same;
  get_add_other = get_different;
  get_int_new = λ i h. read_code i;
  get_double_new = read_double_new;
  get_string_new = λ s h. refl;
  get_string_null = refl;
  get_null = get_null_entry;
  parse_print = λ o h. ap some (raised o);
  print_text = raised-Lacks;
}
