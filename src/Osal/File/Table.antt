-- ===== src/Osal/File/Table.antt =====
-- The table of open files: the free slot that is found, and what a write to one slot does to the
-- descriptors.
use hq_platform.Base.{
  ℕ, zero, suc, ◌+◌, ◌<◌, ◌≤◌, ◌≡◌, ◌≢◌, refl, true, false, List, [], ◌∷◌, Option, none, some,
  arith, length, get_elem?, set, get_elem?-set_self, get_elem?-set_ne, if◌then◌else◌, Bool-cases,
  Option-cases, inl, inr,
}
use hq_platform.Base.Int.{ℤ, pos, negsuc}
use hq_platform.Osal.Littlefs.{Littlefs}
use hq_platform.Osal.Status.{Status, code}
use hq_platform.Osal.Mount.{OpenFile, Fs}
use hq_platform.Osal.File.{fd_to_slot, first_free, put_slot, max_open_files}

pub code-ne : (s : Status) (i : ℕ) → code s ≢ pos (suc i)
unfolding code
code-ne Status.success i e = cc
code-ne _ i e = cc

module _ (L : Littlefs) where
  abbrev pub used : List (OpenFile L) → ℕ
  used [] = 0
  used (slot ∷ slots) = (if slot.in_use then 1 else 0) + used slots

  pub used-le : (slots : List (OpenFile L)) → used slots ≤ length slots
  used-le [] = omega arith
  used-le (slot ∷ slots) = ground (arith, used-le slots)

  -- All slots before the first free one are in use.
  abbrev pub AllUsed : ℕ → List (OpenFile L) → Type 0
  AllUsed zero slots = Unit {0}
  AllUsed (suc n) [] = Unit {0}
  AllUsed (suc n) (slot ∷ slots) = (slot.in_use ≡ true) × AllUsed n slots

  -- The slot that the loop finds: its place, that it is free, and that it is the first.
  pub record Found (slots : List (OpenFile L)) (n : ℕ) (slot : OpenFile L) : Type 0 where
    pub at : get_elem? slots n ≡ some slot
    pub in_table : n < length slots
    pub free : slot.in_use ≡ false
    pub first : AllUsed n slots

  pub first_free-Found :
      (slots : List (OpenFile L)) (i j : ℕ) (slot : OpenFile L)
      → first_free L slots i ≡ some (j, slot)
      → (n : ℕ) × (j ≡ i + n) × Found slots n slot
  unfolding first_free
  first_free-Found [] i j slot e = cc
  first_free-Found (s ∷ slots) i j slot e = elim (Bool-cases s.in_use) [
    | inl busy ↦
        let rest : first_free L slots (i + 1) ≡ some (j, slot) = ground arith in
        let (n, at, f) = first_free-Found slots (i + 1) j slot rest in
        (
          suc n,
          omega arith,
          record {
            at = f.at;
            in_table = omega (arith, f.in_table);
            free = f.free;
            first = (busy, f.first);
          },
        )
    | inr free ↦ (0, ground arith, ground arith)
  ]

  pub first_free-none :
      (slots : List (OpenFile L)) (i : ℕ) → first_free L slots i ≡ none → used slots ≡ length slots
  unfolding first_free
  first_free-none [] i e = refl
  first_free-none (s ∷ slots) i e = ground (arith, first_free-none slots (i + 1))

  pub first_free-some :
      (slots : List (OpenFile L)) (i : ℕ) → used slots ≡ length slots → first_free L slots i ≡ none
  unfolding first_free
  first_free-some [] i e = refl
  first_free-some (s ∷ slots) i e = ground (arith, first_free-some slots (i + 1), used-le slots)

  -- A write to a slot changes the number in use by that slot alone.
  pub used-set :
      (slots : List (OpenFile L)) (n : ℕ) (old new : OpenFile L)
      → get_elem? slots n ≡ some old
      → used (set slots n new) + (if old.in_use then 1 else 0)
        ≡ used slots + (if new.in_use then 1 else 0)
  used-set [] n old new e = cc
  used-set (s ∷ slots) zero old new e = ground arith
  used-set (s ∷ slots) (suc n) old new e = omega (arith, used-set slots n old new e)

  abbrev pub slot_of : Option (ℕ × OpenFile L) → Option (OpenFile L)
  slot_of none = none
  slot_of (some (i, slot)) = some slot

  -- A descriptor sees the write to its own slot, and no other write.
  pub fd_to_slot-put_self :
      (fs : Fs L) (i : ℕ) (slot : OpenFile L) (volume : L.Volume)
      → i < length fs.open_files
      → i < max_open_files
      → fd_to_slot L (put_slot L fs i slot volume) (pos (suc i))
        ≡ (if slot.in_use then some (i, slot) else none)
  unfolding fd_to_slot
  fd_to_slot-put_self fs i slot volume h k =
      ground (arith, get_elem?-set_self fs.open_files i slot h)

  pub fd_to_slot-put_ne :
      (fs : Fs L) (i j : ℕ) (slot : OpenFile L) (volume : L.Volume)
      → i ≢ j
      → fd_to_slot L (put_slot L fs i slot volume) (pos (suc j)) ≡ fd_to_slot L fs (pos (suc j))
  unfolding fd_to_slot
  fd_to_slot-put_ne fs i j slot volume h = rw (get_elem?-set_ne fs.open_files i j slot h)

  -- What it means that a descriptor is open.
  pub fd_to_slot-at :
      (fs : Fs L) (filedes : ℤ) (i : ℕ) (slot : OpenFile L)
      → fd_to_slot L fs filedes ≡ some (i, slot)
      → (filedes ≡ pos (suc i))
        × (get_elem? fs.open_files i ≡ some slot)
        × (slot.in_use ≡ true)
        × (i < max_open_files)
  unfolding fd_to_slot
  fd_to_slot-at fs (negsuc n) i slot e = cc
  fd_to_slot-at fs (pos zero) i slot e = cc
  fd_to_slot-at fs (pos (suc n)) i slot e = elim (Option-cases (get_elem? fs.open_files n)) [
    | inl missing ↦ ground arith
    | inr (s, at) ↦ ground arith
  ]

  pub fd_to_slot_free :
      (fs : Fs L) (i : ℕ) (slot : OpenFile L)
      → get_elem? fs.open_files i ≡ some slot
      → slot.in_use ≡ false
      → fd_to_slot L fs (pos (suc i)) ≡ none
  unfolding fd_to_slot
  fd_to_slot_free fs i slot at free = ground arith

  pub get_elem?-length :
      (slots : List (OpenFile L)) (i : ℕ) (slot : OpenFile L)
      → get_elem? slots i ≡ some slot
      → i < length slots
  get_elem?-length [] i slot e = cc
  get_elem?-length (s ∷ slots) zero slot e = omega arith
  get_elem?-length (s ∷ slots) (suc i) slot e = omega (arith, get_elem?-length slots i slot e)
