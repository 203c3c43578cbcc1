-- ===== src/Server/Slots.antt =====
-- The array of threads in listen_connections of server/main.c: each request of a connection takes a
-- place, the array is doubled when it is nearly full, and no place is ever given back.
use itba_os_tp1_ipc_2016_q.Base.{
  ℕ, zero, suc, ◌+◌, ◌-◌, ◌*◌, ◌^◌, ◌%◌, ◌≤◌, ◌<◌, ◌≡◌, ◌⊎◌, refl, ◌∙◌, ap, arith, inl, inr,
  Bool-cases, ◌==◌, ltb, if◌then◌else◌,
}

-- `current_thread` and `num_threads`, which are unsigned words of 64 bits.
pub record Slots : Type 0 where
  pub current : ℕ
  pub size : ℕ

-- A place outside of the array is a fault, `Server maxed capacity` ends the loop.
pub data Slot : Type 0 where
  placed : Slots → Slot
  maxed : Slot
  fault : Slot

-- The place of the thread is written.
unfoldable pub put_thread : Slots → Slot
put_thread s =
    if ltb s.current s.size then placed (record s { current = (s.current + 1) % 2 ^ 64 }) else fault

-- The place for one more request, with at most `max` places.
unfoldable pub take_slot : ℕ → Slots → Slot
unfolding put_thread
take_slot max s =
    if s.current == (s.size + 2 ^ 64 - 1) % 2 ^ 64
    then (if ltb max (s.size * 2 % 2 ^ 64)
        then maxed
        else put_thread (record s { size = s.size * 2 % 2 ^ 64 }))
    else put_thread s

-- The loop goes on with the next request, if this one has its place.
abbrev go_on : (Slots → Slot) → Slot → Slot
go_on next (placed s) = next s
go_on next maxed = maxed
go_on next fault = fault

-- The places for `n` requests of a connection.
unfoldable pub take_slots : ℕ → ℕ → Slots → Slot
take_slots max zero s = placed s
take_slots max (suc n) s = go_on (λ s'. take_slots max n s') (take_slot max s)

unfoldable pub first_slots : ℕ → Slots
first_slots min_threads = record { current = 0; size = min_threads }

-- There is a free place, within the bounds of the configuration.
record IsRoomy (max : ℕ) (s : Slots) : Type 0 where
  room : s.current < s.size
  bound : s.size ≤ max

last_place : (n : ℕ) → 0 < n → n < 2 ^ 63 → (n + 2 ^ 64 - 1) % 2 ^ 64 ≡ n - 1
last_place n pos lt = omega arith

put-placed :
    (s : Slots)
    → s.current < s.size
    → s.size < 2 ^ 64
    → put_thread s ≡ placed (record s { current = s.current + 1 })
unfolding put_thread
put-placed s lt small = ground arith

-- A place is found, or the array can grow no more.
slot-cases :
    (max : ℕ) (s : Slots)
    → max < 2 ^ 63
    → IsRoomy max s
    → (take_slot max s ≡ maxed)
      ⊎ ((s' : Slots) × (take_slot max s ≡ placed s')
          × IsRoomy max s'
          × (s'.current ≡ s.current + 1))
unfolding take_slot
slot-cases max s small r =
    let l = last_place s.size (omega (arith, r.room)) (omega (arith, r.bound)) in
    let d : s.size * 2 % 2 ^ 64 ≡ s.size * 2 = omega (arith, r.bound) in
    let room = r.room in
    let bound = r.bound in
    elim (Bool-cases (s.current == s.size - 1)) [
      | inl t ↦ elim (Bool-cases (ltb max (s.size * 2))) [
        | inl u ↦ inl (rw (l, d) (ground (arith, t, u)))
        | inr u ↦ inr (
          record { current = s.current + 1; size = s.size * 2 },
          rw (l, d, t, u)
              (put-placed (record s { size = s.size * 2 }) (omega arith) (ground arith)),
          record { room = ground arith; bound = ground arith },
          refl,
        )
      ]
      | inr f ↦ inr (
        record s { current = s.current + 1 },
        rw (l, f) (put-placed s (omega arith) (omega arith)),
        record { room = ground arith; bound = bound },
        refl,
      )
    ]

run-cases :
    (max n : ℕ) (s : Slots)
    → max < 2 ^ 63
    → IsRoomy max s
    → (take_slots max n s ≡ maxed)
      ⊎ ((s' : Slots) × (take_slots max n s ≡ placed s')
          × IsRoomy max s'
          × (s'.current ≡ s.current + n))
unfolding take_slots
run-cases max zero s small r = inr (s, refl, r, omega arith)
run-cases max (suc n) s small r = elim (slot-cases max s small r) [
  | inl m ↦ inl (ap (go_on (λ s'. take_slots max n s')) m)
  | inr (t, e, h, c) ↦ elim (run-cases max n t small h) [
    | inl m ↦ inl (ap (go_on (λ s'. take_slots max n s')) e ∙ m)
    | inr (u, f, k, d) ↦ inr (u, ap (go_on (λ s'. take_slots max n s')) e ∙ f, k, omega arith)
  ]
]

-- From a configuration with at least one thread at the start and no more than the maximum, which is
-- below 2 ^ 63, no number of requests on a connection writes outside of the array: either the worker
-- stops with `Server maxed capacity`, or every request has its place, the array has a free one, and it
-- is no larger than the maximum.
pub slots_safe :
    (min_threads max n : ℕ)
    → 0 < min_threads
    → min_threads ≤ max
    → max < 2 ^ 63
    → (take_slots max n (first_slots min_threads) ≡ maxed)
      ⊎ ((s : Slots) × (take_slots max n (first_slots min_threads) ≡ placed s)
          × (s.current ≡ n)
          × (n < s.size)
          × (s.size ≤ max))
unfolding first_slots
slots_safe min_threads max n pos le small =
    elim (run-cases max n (record { current = 0; size = min_threads }) small
      (record { room = pos; bound = le })) [
        | inl m ↦ inl m
        | inr (s, e, h, c) ↦ inr (s, e, omega arith, omega (arith, h.room), h.bound)
      ]

-- From such a configuration, a connection is ended by as many requests as the maximum of threads or
-- more, with no place given back by the threads that have ended.
pub slots_limit :
    (min_threads max n : ℕ)
    → 0 < min_threads
    → min_threads ≤ max
    → max < 2 ^ 63
    → max ≤ n
    → take_slots max n (first_slots min_threads) ≡ maxed
slots_limit min_threads max n pos le small many = elim (slots_safe min_threads max n pos le small) [
  | inl m ↦ m
  | inr (s, e, c, lt, b) ↦ absurd (omega arith)
]
