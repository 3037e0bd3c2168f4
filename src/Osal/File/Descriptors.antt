-- ===== src/Osal/File/Descriptors.antt =====
-- What opening and closing do to the descriptors.
use hq_platform.Base.{
  ℕ, suc, ◌+◌, ◌-◌, ◌<◌, ◌≡◌, ◌≢◌, inl, inr, refl, sym, ap, ◌∙◌, subst, true, false, [], Option,
  none, some, arith, length, take_all, Bool-cases, Option-cases,
}
use hq_platform.Base.Int.{ℤ, pos}
use hq_platform.Base.Text.{CString}
use hq_platform.Osal.Littlefs.{Littlefs}
use hq_platform.Osal.Status.{Status, success, code, err_no_free_ids, err_invalid_id}
use hq_platform.Osal.Mount.{
  OpenFile, Fs, is_ok, map_error, path_normalize, max_path_len, stored_path,
}
use hq_platform.Osal.Mount.Paths.{path_normalize-success}
use hq_platform.Osal.File.{
  fd_to_slot, alloc_slot, put_slot, on_slot, max_open_files, open_slot, open_normalized,
  open_create, close_slot, close, open_flags,
}
use hq_platform.Osal.File.Table.{
  code-ne, used, Found, first_free-Found, first_free-none, first_free-some, used-set,
  fd_to_slot-put_self, fd_to_slot-put_ne, fd_to_slot-at, fd_to_slot_free, get_elem?-length,
}

module _ (L : Littlefs) where
  abbrev with_file : OpenFile L → L.File → OpenFile L
  with_file slot file = record slot { file = file }

  abbrev opened : CString → L.File → OpenFile L
  opened path file = record { in_use = true; file = file; path = stored_path path }

  -- `open_slot` gives a descriptor only for the slot that it was given.
  open_slot-ok :
      (fs fs' : Fs L) (path : CString) (flags i j : ℕ) (slot : OpenFile L)
      → open_slot L fs path flags i slot ≡ (pos (suc j), fs')
      → (j ≡ i)
        × (file : L.File) × (volume : L.Volume) × (fs' ≡ put_slot L fs i (opened path file) volume)
  unfolding open_slot
  open_slot-ok fs fs' path flags i j slot e =
      let (err, file, volume) = L.file_open fs.volume slot.file path flags in
      (
        ground (arith, code-ne (map_error L err) j),
        file,
        volume,
        ground (arith, code-ne (map_error L err) j),
      )

  -- What a successful open did: a free slot was found, and filled.
  record Opened (fs fs' : Fs L) (path : CString) (j : ℕ) : Type 0 where
    slot : OpenFile L
    found : Found L fs.open_files j slot
    file : L.File
    volume : L.Volume
    after : fs' ≡ put_slot L fs j (opened path file) volume

  from_alloc :
      (fs fs' : Fs L) (path : CString) (flags j : ℕ) (r : Option (ℕ × OpenFile L))
      → alloc_slot L fs ≡ r
      → on_slot L r (code err_no_free_ids, fs) (open_slot L fs path flags) ≡ (pos (suc j), fs')
      → Opened fs fs' path j
  from_alloc fs fs' path flags j none at e = absurd (code-ne err_no_free_ids j (ap (λ p. p.0) e))
  from_alloc fs fs' path flags j (some (i, slot)) at e =
      let (n, from_zero, found) = first_free-Found L fs.open_files 0 i slot at in
      let (same, file, volume, after) = open_slot-ok fs fs' path flags i j slot e in
      let here : n ≡ j = omega arith in
      record {
        slot = slot;
        found = subst (λ m. Found L fs.open_files m slot) here found;
        file = file;
        volume = volume;
        after = subst (λ m. fs' ≡ put_slot L fs m (opened path file) volume) (sym same) after;
      }

  is_ok-eq : (s : Status) → is_ok s ≡ true → s ≡ success
  is_ok-eq Status.success h = refl
  is_ok-eq _ h = cc

  open_normalized-ok :
      (fs fs' : Fs L) (rc : Status) (path : CString) (flags access j : ℕ)
      → open_normalized L fs (rc, path) flags access ≡ (pos (suc j), fs')
      → (rc ≡ success) × Opened fs fs' path j
  unfolding open_normalized
  open_normalized-ok fs fs' rc path flags access j e = elim (Bool-cases (is_ok rc)) [
    | inl good ↦ (
      is_ok-eq rc good,
      from_alloc fs fs' path (open_flags L flags access) j (alloc_slot L fs) refl (rw good at e),
    )
    | inr bad ↦ absurd (code-ne rc j (ap (λ p. p.0) (rw bad at e)))
  ]

  open_create-ok :
      (fs fs' : Fs L) (path : CString) (flags access j : ℕ)
      → open_create L fs (some path) flags access ≡ (pos (suc j), fs')
      → (out : CString) × (path_normalize (some path) max_path_len ≡ (success, out))
        × Opened fs fs' out j
  unfolding open_create
  open_create-ok fs fs' path flags access j e = elim (Bool-cases fs.mounted) [
    | inl up ↦
        let (rc, out) = path_normalize (some path) max_path_len in
        let (good, done) = open_normalized-ok fs fs' rc out flags access j (simp up at e) in
        (out, ap (λ r. (r, out)) good, done)
    | inr down ↦ absurd (code-ne Status.err_incorrect_obj_state j (ap (λ p. p.0) (simp down at e)))
  ]

  -- `osal_open_create` on a table of 32 slots: a descriptor that it returns is one of 1 to 32 and
  -- was not open; it is open now, on the normalised path; every other descriptor means what it
  -- meant, and one more slot is in use.
  pub open_create-fresh :
      (fs fs' : Fs L) (path : CString) (flags access i : ℕ)
      → length fs.open_files ≡ max_open_files
      → open_create L fs (some path) flags access ≡ (pos (suc i), fs')
      → (i < max_open_files)
        × (fd_to_slot L fs (pos (suc i)) ≡ none)
        × ((slot : OpenFile L) × (fd_to_slot L fs' (pos (suc i)) ≡ some (i, slot))
            × (path_normalize (some path) max_path_len ≡ (success, slot.path)))
        × ((j : ℕ) → i ≢ j → fd_to_slot L fs' (pos (suc j)) ≡ fd_to_slot L fs (pos (suc j)))
        × (used L fs'.open_files ≡ used L fs.open_files + 1)
  open_create-fresh fs fs' path flags access i full e =
      let (out, normal, done) = open_create-ok fs fs' path flags access i e in
      let below : i < max_open_files = omega (arith, done.found.in_table, full) in
      let fits : stored_path out ≡ out =
        take_all (max_path_len - 1) out
          (omega (arith, (path_normalize-success path max_path_len out normal).2)) in
      rw done.after (
        below,
        fd_to_slot_free L fs i done.slot done.found.at done.found.free,
        (
          opened out done.file,
          fd_to_slot-put_self L fs i (opened out done.file) done.volume done.found.in_table below,
          normal ∙ ap (λ p. (success, p)) (sym fits),
        ),
        λ j ne. fd_to_slot-put_ne L fs i j (opened out done.file) done.volume ne,
        ground (
          arith,
          used-set L fs.open_files i done.slot (opened out done.file) done.found.at,
          done.found.free,
        ),
      )

  abbrev closed : L.File → OpenFile L
  closed file = record { in_use = false; file = file; path = [] }

  close-eq :
      (fs : Fs L) (filedes : ℤ) (i : ℕ) (slot : OpenFile L)
      → fd_to_slot L fs filedes ≡ some (i, slot)
      → let (err, file, volume) = L.file_close fs.volume slot.file in
        (close L fs filedes).1 ≡ put_slot L fs i (closed file) volume
  unfolding close close_slot
  close-eq fs filedes i slot e = rw e

  close_missing :
      (fs : Fs L) (filedes : ℤ)
      → fd_to_slot L fs filedes ≡ none
      → close L fs filedes ≡ (code err_invalid_id, fs)
  unfolding close
  close_missing fs filedes e = rw e

  -- `osal_close` of an open descriptor closes that one and no other, whatever littlefs answers: a
  -- second close is refused and changes nothing, every other descriptor means what it meant, and
  -- one slot less is in use.
  pub close-closes :
      (fs : Fs L) (filedes : ℤ) (i : ℕ) (slot : OpenFile L)
      → fd_to_slot L fs filedes ≡ some (i, slot)
      → let fs' = (close L fs filedes).1 in
        (fd_to_slot L fs' filedes ≡ none)
        × (close L fs' filedes ≡ (code err_invalid_id, fs'))
        × ((j : ℕ) → i ≢ j → fd_to_slot L fs' (pos (suc j)) ≡ fd_to_slot L fs (pos (suc j)))
        × (used L fs'.open_files + 1 ≡ used L fs.open_files)
  close-closes fs filedes i slot e =
      let (err, file, volume) = L.file_close fs.volume slot.file in
      let (number, at, busy, below) = fd_to_slot-at L fs filedes i slot e in
      let inside = get_elem?-length L fs.open_files i slot at in
      let gone : fd_to_slot L (put_slot L fs i (closed file) volume) filedes ≡ none =
        rw number (fd_to_slot-put_self L fs i (closed file) volume inside below) in
      rw (close-eq fs filedes i slot e) (
        gone,
        close_missing (put_slot L fs i (closed file) volume) filedes gone,
        λ j ne. fd_to_slot-put_ne L fs i j (closed file) volume ne,
        ground (arith, used-set L fs.open_files i slot (closed file) at, busy),
      )

  -- Open and close are matched: the descriptor of a successful open can be closed, and then the
  -- table holds as many open files as before.
  pub close-open_create :
      (fs fs' : Fs L) (path : CString) (flags access i : ℕ)
      → length fs.open_files ≡ max_open_files
      → open_create L fs (some path) flags access ≡ (pos (suc i), fs')
      → (used L (close L fs' (pos (suc i))).1.open_files ≡ used L fs.open_files)
        × (fd_to_slot L (close L fs' (pos (suc i))).1 (pos (suc i)) ≡ none)
  close-open_create fs fs' path flags access i full e =
      let (below, fresh, (slot, at, normal), others, more) =
        open_create-fresh fs fs' path flags access i full e in
      let (gone, twice, kept, less) = close-closes fs' (pos (suc i)) i slot at in
      (omega (arith, more, less), gone)

  open_create-alloc :
      (fs : Fs L) (path : CString) (flags access : ℕ) (out : CString)
      → fs.mounted ≡ true
      → path_normalize (some path) max_path_len ≡ (success, out)
      → open_create L fs (some path) flags access
        ≡ on_slot L
            (alloc_slot L fs)
            (code err_no_free_ids, fs)
            (open_slot L fs out (open_flags L flags access))
  unfolding open_create open_normalized
  open_create-alloc fs path flags access out up normal = simp (up, normal)

  map_error-ne : (err : ℤ) → code (map_error L err) ≢ code err_no_free_ids
  unfolding map_error code
  map_error-ne err = ground arith

  open_slot-ne :
      (fs : Fs L) (path : CString) (flags i : ℕ) (slot : OpenFile L)
      → (open_slot L fs path flags i slot).0 ≢ code err_no_free_ids
  unfolding open_slot
  open_slot-ne fs path flags i slot =
      let (err, file, volume) = L.file_open fs.volume slot.file path flags in
      ground (arith, map_error-ne err, code-ne err_no_free_ids i)

  -- A mounted volume refuses a valid path for want of a descriptor exactly if all 32 slots are in
  -- use, and then nothing changes.
  pub open_create-exhausted :
      (fs : Fs L) (path : CString) (flags access : ℕ) (out : CString)
      → length fs.open_files ≡ max_open_files
      → fs.mounted ≡ true
      → path_normalize (some path) max_path_len ≡ (success, out)
      → ((used L fs.open_files ≡ max_open_files)
          → open_create L fs (some path) flags access ≡ (code err_no_free_ids, fs))
        × ((open_create L fs (some path) flags access).0 ≡ code err_no_free_ids
            → used L fs.open_files ≡ max_open_files)
  open_create-exhausted fs path flags access out full up normal = (
    λ busy. rw (
      open_create-alloc fs path flags access out up normal,
      first_free-some L fs.open_files 0 (busy ∙ sym full),
    ),
    λ e. elim (Option-cases (alloc_slot L fs)) [
      | inl none_free ↦ first_free-none L fs.open_files 0 none_free ∙ full
      | inr ((i, slot), at) ↦ absurd (
          open_slot-ne fs out (open_flags L flags access) i slot
            (rw (open_create-alloc fs path flags access out up normal, at) at e))
    ],
  )
