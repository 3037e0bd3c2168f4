-- ===== src/Osal/Esp/File/Slots.antt =====
-- In how many slots of the table of src/osal/esp/osal_file_impl.c a descriptor is.
use hq_platform.Base.{
  ℕ, suc, ◌+◌, ◌-◌, ◌≤◌, ◌≡◌, refl, ap, inl, inr, Bool, true, false, ◌&&◌, ◌||◌, not, List, [], ◌∷◌,
  none, some, arith, set, if◌then◌else◌, Bool-cases,
}
use hq_platform.Base.Int.{ℤ, eqb, eqb-eq}
use hq_platform.Osal.Esp.File.{Slot, free_slot, find_from, free_from}

abbrev pub one : Bool → ℕ
one b = if b then 1 else 0

-- The number of slots that hold a descriptor.
abbrev pub holders : List Slot → ℤ → ℕ
holders [] g = 0
holders (slot ∷ slots) g = one (slot.in_use && eqb slot.fd g) + holders slots g

free_from-le : (slots : List Slot) (k j : ℕ) → free_from slots k ≡ some j → k ≤ j
unfolding free_from
free_from-le [] k j h = cc
free_from-le (x ∷ slots) k j h = elim (Bool-cases x.in_use) [
  | inl used ↦ let rest = free_from-le slots (k + 1) j (ground arith) in omega arith
  | inr unused ↦ let at : k ≡ j = ground arith in omega arith
]

find_from-le : (slots : List Slot) (fd : ℤ) (k j : ℕ) → find_from slots fd k ≡ some j → k ≤ j
unfolding find_from
find_from-le [] fd k j h = cc
find_from-le (x ∷ slots) fd k j h = elim (Bool-cases (x.in_use && eqb x.fd fd)) [
  | inr other ↦ let rest = find_from-le slots fd (k + 1) j (ground arith) in omega arith
  | inl here ↦ let at : k ≡ j = ground arith in omega arith
]

pub holders-set_free :
    (slots : List Slot) (k j : ℕ) (new : Slot) (g : ℤ)
    → free_from slots k ≡ some j
    → new.in_use ≡ true
    → holders (set slots (j - k) new) g ≡ one (eqb new.fd g) + holders slots g
unfolding free_from
holders-set_free [] k j new g h u = cc
holders-set_free (x ∷ slots) k j new g h u = elim (Bool-cases x.in_use) [
  | inr unused ↦
      let at : k ≡ j = ground arith in
      let zero_at : j - k ≡ 0 = omega arith in rw zero_at (ground arith)
  | inl used ↦
      let later : free_from slots (k + 1) ≡ some j = ground arith in
      let rest = holders-set_free slots (k + 1) j new g later u in
      let step : j - k ≡ suc (j - (k + 1)) = omega (arith, free_from-le slots (k + 1) j later) in
      rw step (ground arith)
]

pub holders-clear :
    (slots : List Slot) (fd : ℤ) (k j : ℕ) (g : ℤ)
    → find_from slots fd k ≡ some j
    → holders (set slots (j - k) free_slot) g + one (eqb fd g) ≡ holders slots g
unfolding find_from
holders-clear [] fd k j g h = cc
holders-clear (x ∷ slots) fd k j g h = elim (Bool-cases (x.in_use && eqb x.fd fd)) [
  | inl here ↦
      let at : k ≡ j = ground arith in
      let zero_at : j - k ≡ 0 = omega arith in
      let same : x.fd ≡ fd = eqb-eq x.fd fd (ground arith) in
      let alike : eqb x.fd g ≡ eqb fd g = ap (λ z. eqb z g) same in rw zero_at (ground arith)
  | inr other ↦
      let later : find_from slots fd (k + 1) ≡ some j = ground arith in
      let rest = holders-clear slots fd (k + 1) j g later in
      let step : j - k ≡ suc (j - (k + 1)) = omega (arith, find_from-le slots fd (k + 1) j later) in
      rw step (ground arith)
]

pub holders-none :
    (slots : List Slot) (fd : ℤ) (k : ℕ) → find_from slots fd k ≡ none → holders slots fd ≡ 0
unfolding find_from
holders-none [] fd k h = refl
holders-none (x ∷ slots) fd k h =
    let rest : find_from slots fd (k + 1) ≡ none → holders slots fd ≡ 0 =
      holders-none slots fd (k + 1) in
    ground arith

-- A descriptor that is in `held` slots: it is open and in one, or it is in none, and then it is not
-- open or one of the others.
abbrev pub InPlace : ℕ → Bool → Bool → Type 0
InPlace held is_open other = (held ≤ one is_open) × (one is_open ≤ held + one other)

pub InPlace-opened :
    (held : ℕ) (same before other : Bool)
    → (same ≡ true → before ≡ false)
    → InPlace held before other
    → InPlace (one same + held) (same || before) other
InPlace-opened held true before other h (few, known) =
    let fresh = h refl in (ground arith, ground arith)
InPlace-opened held false before other h (few, known) = (omega arith, omega arith)

pub InPlace-closed :
    (held held' : ℕ) (same before other : Bool)
    → held' + one same ≡ held
    → InPlace held before other
    → InPlace held' (not same && before) other
InPlace-closed held held' same before other h (few, known) = (ground arith, ground arith)

pub InPlace-absent :
    (held : ℕ) (same before other : Bool)
    → (same ≡ true → held ≡ 0)
    → InPlace held before other
    → InPlace held (not same && before) other
InPlace-absent held true before other h (few, known) =
    let nobody = h refl in (omega arith, omega arith)
InPlace-absent held false before other h (few, known) = (few, known)
