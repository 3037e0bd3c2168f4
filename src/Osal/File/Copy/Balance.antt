-- ===== src/Osal/File/Copy/Balance.antt =====
-- What a copy leaves open, and when it ends.
use native.Mathlib.Decide.{ℕ_discrete}
use hq_platform.Base.{
  ℕ, suc, ◌+◌, ◌≡◌, ◌≢◌, ◌⊎◌, inl, inr, refl, sym, ap, ◌∙◌, subst, true, false, List, ◌∷◌, Option,
  none, some, arith, length, get_elem?, length-set, Bool-cases, Option-cases,
}
use hq_platform.Base.Int.{ℤ, pos, is_neg, eqb}
use hq_platform.Base.Text.{CString}
use hq_platform.Osal.Littlefs.{Littlefs}
use hq_platform.Osal.Status.{Status, code}
use hq_platform.Osal.Transfer.Whole.{transfer-Keeps}
use hq_platform.Osal.Mount.{OpenFile, Fs, is_ok, map_error, path_normalize, max_path_len}
use hq_platform.Osal.Mount.Volume.{ne-success}
use hq_platform.Osal.File.Descriptors.{open_create-fresh, close-closes}
use hq_platform.Osal.File.{
  fd_to_slot, alloc_slot, put_slot, open_flags, open_slot, open_normalized, validate_io_buffer,
  open_create, close, read, read_slot, write, write_slot, max_open_files, flag_create,
  flag_truncate,
}
use hq_platform.Osal.File.Table.{
  used, used-set, fd_to_slot-at, fd_to_slot-put_self, fd_to_slot-put_ne, first_free-Found,
  get_elem?-length,
}
use hq_platform.Osal.File.Copy.{read_buffer, write_bytes, copy_loop, copy_to, cp, buffer_size}

pub is_some {ℓ} : {A : Type ℓ} (a : A) → some a ≢ none
is_some a e = cc

true-false : true ≢ false
true-false e = cc

module _ (L : Littlefs) where
  abbrev Open : Fs L → ℤ → Type 0
  Open fs filedes = (i : ℕ) × (slot : OpenFile L) × (fd_to_slot L fs filedes ≡ some (i, slot))

  -- The same descriptors are open.
  record Kept (fs fs' : Fs L) : Type 0 where
    number : used L fs'.open_files ≡ used L fs.open_files
    opens : (filedes : ℤ) → Open fs filedes → Open fs' filedes

  Kept-refl : (fs : Fs L) → Kept fs fs
  Kept-refl fs = record { number = refl; opens = λ filedes o. o }

  Kept-trans : {a b c : Fs L} → Kept a b → Kept b c → Kept a c
  Kept-trans f g = record {
    number = g.number ∙ f.number;
    opens = λ filedes o. g.opens filedes (f.opens filedes o);
  }

  put-Kept :
      (fs : Fs L) (filedes : ℤ) (i : ℕ) (slot : OpenFile L) (file : L.File) (volume : L.Volume)
      → fd_to_slot L fs filedes ≡ some (i, slot)
      → Kept fs (put_slot L fs i (record slot { file = file }) volume)
  put-Kept fs filedes i slot file volume e =
      let (number, at, busy, below) = fd_to_slot-at L fs filedes i slot e in
      let new = record slot { file = file } in
      let inside = get_elem?-length L fs.open_files i slot at in
      let here : fd_to_slot L (put_slot L fs i new volume) (pos (suc i)) ≡ some (i, new) =
        fd_to_slot-put_self L fs i new volume inside below ∙ rw busy refl in
      record {
        number = omega (arith, used-set L fs.open_files i slot new at);
        opens = λ other (j, slot', o).
            let (number', at', busy', below') = fd_to_slot-at L fs other j slot' o in
            elim (ℕ_discrete i j) [
              | yes same ↦ (
                i,
                new,
                ap (λ k. fd_to_slot L (put_slot L fs i new volume) k)
                      (number' ∙ ap (λ k. pos (suc k)) (sym same))
                    ∙ here,
              )
              | no ne ↦ (
                j,
                slot',
                ap (λ k. fd_to_slot L (put_slot L fs i new volume) k) number'
                    ∙ fd_to_slot-put_ne L fs i j new volume ne
                    ∙ ap (λ k. fd_to_slot L fs k) (sym number')
                    ∙ o,
              )
            ];
      }

  read-Kept : (fs : Fs L) (filedes : ℤ) (nbytes : ℕ) → Kept fs (read L fs filedes true nbytes).2
  unfolding read read_slot
  read-Kept fs filedes nbytes = elim (Bool-cases (is_ok (validate_io_buffer L fs true nbytes))) [
    | inl good ↦ elim (Option-cases (fd_to_slot L fs filedes)) [
      | inl missing ↦ rw (good, missing) (Kept-refl fs)
      | inr ((i, slot), at) ↦ rw (good, at) (put-Kept fs filedes i slot _ _ at)
    ]
    | inr bad ↦ rw bad (Kept-refl fs)
  ]

  write-Kept :
      (fs : Fs L) (filedes : ℤ) (bytes : List ℕ) → Kept fs (write L fs filedes (some bytes)).1
  unfolding write write_slot
  write-Kept fs filedes bytes =
      elim (Bool-cases (is_ok (validate_io_buffer L fs true (length bytes)))) [
        | inl good ↦ elim (Option-cases (fd_to_slot L fs filedes)) [
          | inl missing ↦ rw (good, missing) (Kept-refl fs)
          | inr ((i, slot), at) ↦ rw (good, at) (put-Kept fs filedes i slot _ _ at)
        ]
        | inr bad ↦ rw bad (Kept-refl fs)
      ]

  end_state :
      (a b : ℤ) (fs fs' : Fs L)
      → ◌≡◌ {A = Option (ℤ × Fs L)} (some (a, fs)) (some (b, fs'))
      → fs ≡ fs'
  end_state a b fs fs' e = cc

  copy_loop-Kept :
      (fuel : ℕ) (fs : Fs L) (src_fd dst_fd st : ℤ) (fs' : Fs L)
      → copy_loop L fuel fs src_fd dst_fd ≡ some (st, fs')
      → Kept fs fs'
  copy_loop-Kept fuel fs src_fd dst_fd st fs' =
      transfer-Keeps (read_buffer L src_fd) (write_bytes L dst_fd) (Kept fs)
        (λ s k. Kept-trans k (read-Kept s src_fd buffer_size))
        (λ s b bytes k. Kept-trans k (write-Kept s dst_fd (b ∷ bytes))) fuel fs st fs'
        (Kept-refl fs)

  code-neg : (s : Status) → is_ok s ≡ false → is_neg (code s) ≡ true
  unfolding code
  code-neg Status.success h = cc
  code-neg _ h = refl

  -- What a call of `osal_open_create` can return.
  abbrev Result : Fs L → ℤ × Fs L → Type 0
  Result fs r =
      (((is_neg r.0 ≡ true) × Kept fs r.1) ⊎ ((i : ℕ) × (r.0 ≡ pos (suc i))))
      × (length r.1.open_files ≡ length fs.open_files)

  refused : (fs : Fs L) (s : Status) → is_ok s ≡ false → Result fs (code s, fs)
  refused fs s bad = (inl (code-neg s bad, Kept-refl fs), refl)

  free-Kept :
      (fs : Fs L) (i : ℕ) (slot : OpenFile L) (file : L.File) (volume : L.Volume)
      → get_elem? fs.open_files i ≡ some slot
      → slot.in_use ≡ false
      → Kept fs (put_slot L fs i (record slot { file = file }) volume)
  free-Kept fs i slot file volume at free = record {
    number = omega (arith, used-set L fs.open_files i slot (record slot { file = file }) at);
    opens = λ other (j, slot', o).
        let (number, at', busy, below) = fd_to_slot-at L fs other j slot' o in
        elim (ℕ_discrete i j) [
          | yes same ↦
              let one : slot ≡ slot' = ground arith in
              absurd (true-false (sym busy ∙ ap (λ s. s.in_use) (sym one) ∙ free))
          | no ne ↦ (
            j,
            slot',
            ap (λ k. fd_to_slot L (put_slot L fs i (record slot { file = file }) volume) k) number
                ∙ fd_to_slot-put_ne L fs i j (record slot { file = file }) volume ne
                ∙ ap (λ k. fd_to_slot L fs k) (sym number)
                ∙ o,
          )
        ];
  }

  open_slot-Result :
      (fs : Fs L) (path : CString) (flags i : ℕ) (slot : OpenFile L)
      → get_elem? fs.open_files i ≡ some slot
      → slot.in_use ≡ false
      → Result fs (open_slot L fs path flags i slot)
  unfolding open_slot
  open_slot-Result fs path flags i slot at free =
      let r = L.file_open fs.volume slot.file path flags in
      elim (Bool-cases (eqb r.0 (pos 0))) [
        | inl ok ↦ rw ok (inr (i, refl), length-set fs.open_files i _)
        | inr bad ↦ rw bad (
          inl (
            code-neg (map_error L r.0) (ne-success L r.0 bad),
            free-Kept fs i slot r.1 r.2 at free,
          ),
          length-set fs.open_files i _,
        )
      ]

  open_create-Result :
      (fs : Fs L) (path : CString) (flags access : ℕ)
      → Result fs (open_create L fs (some path) flags access)
  unfolding open_create open_normalized
  open_create-Result fs path flags access = elim (Bool-cases fs.mounted) [
    | inr down ↦ simp down (refused fs Status.err_incorrect_obj_state refl)
    | inl up ↦
        let n = path_normalize (some path) max_path_len in
        elim (Bool-cases (is_ok n.0)) [
          | inr bad ↦ simp (up, bad) (refused fs n.0 bad)
          | inl good ↦ elim (Option-cases (alloc_slot L fs)) [
            | inl busy ↦ simp (up, good, busy) (refused fs Status.err_no_free_ids refl)
            | inr ((i, slot), at) ↦
                let (k, same, found) = first_free-Found L fs.open_files 0 i slot at in
                let here : k ≡ i = omega arith in
                simp (up, good, at)
                  (open_slot-Result fs n.1 (open_flags L flags access) i slot
                    (subst (λ m. get_elem? fs.open_files m ≡ some slot) here found.at) found.free)
          ]
        ]
  ]

  close_one :
      (fs : Fs L) (filedes : ℤ)
      → Open fs filedes
      → (used L (close L fs filedes).1.open_files + 1 ≡ used L fs.open_files)
        × ((other : ℤ) → other ≢ filedes → Open fs other → Open (close L fs filedes).1 other)
  close_one fs filedes (i, slot, o) =
      let (gone, twice, others, less) = close-closes L fs filedes i slot o in
      let (number, at, busy, below) = fd_to_slot-at L fs filedes i slot o in
      (
        less,
        λ other ne (j, slot', o').
            let (number', at', busy', below') = fd_to_slot-at L fs other j slot' o' in
            let apart : i ≢ j =
              λ same. ne (number' ∙ ap (λ k. pos (suc k)) (sym same) ∙ sym number) in
            (
              j,
              slot',
              ap (λ k. fd_to_slot L (close L fs filedes).1 k) number'
                  ∙ others j apart
                  ∙ ap (λ k. fd_to_slot L fs k) (sym number')
                  ∙ o',
            ),
      )

  close_both-used :
      (fs : Fs L) (src_fd dst_fd : ℤ)
      → dst_fd ≢ src_fd
      → Open fs src_fd
      → Open fs dst_fd
      → used L (close L (close L fs src_fd).1 dst_fd).1.open_files + 2 ≡ used L fs.open_files
  close_both-used fs src_fd dst_fd ne o o' =
      let (less, keeps) = close_one fs src_fd o in
      let (less', keeps') = close_one (close L fs src_fd).1 dst_fd (keeps dst_fd ne o') in
      omega (arith, less, less')

  copy_to-used :
      (fuel : ℕ) (fs : Fs L) (dest : CString) (i : ℕ) (slot : OpenFile L) (st : ℤ) (fs' : Fs L)
      → length fs.open_files ≡ max_open_files
      → fd_to_slot L fs (pos (suc i)) ≡ some (i, slot)
      → copy_to L fuel (pos (suc i), fs) dest ≡ some (st, fs')
      → used L fs'.open_files + 1 ≡ used L fs.open_files
  unfolding copy_to
  copy_to-used fuel fs dest i slot st fs' full o e =
      let src_fd = pos (suc i) in
      let b = open_create L fs (some dest) (flag_create + flag_truncate) 1 in
      elim (open_create-Result fs dest (flag_create + flag_truncate) 1).0 [
        | inl (neg, kept) ↦
            let (less, keeps) = close_one b.1 src_fd (kept.opens src_fd (i, slot, o)) in
            let same = end_state b.0 st (close L b.1 src_fd).1 fs' (rw (neg, copy_to) at e) in
            omega (arith, less, kept.number, ap (λ x. used L x.open_files) same)
        | inr (j, opened) ↦
            let (below, fresh, (slot', o', normal), others, more) =
              open_create-fresh L fs b.1 dest (flag_create + flag_truncate) 1 j full
                (ap (λ x. (x, b.1)) opened) in
            let apart : j ≢ i = λ same.
              is_some (i, slot)
                (sym (sym fresh ∙ ap (λ k. fd_to_slot L fs (pos (suc k))) same ∙ o)) in
            elim (Option-cases (copy_loop L fuel b.1 src_fd (pos (suc j)))) [
              | inl unended ↦ absurd (is_some (st, fs') (sym (rw (opened, unended, copy_to) at e)))
              | inr ((st', fs3), ended) ↦
                  let kept = copy_loop-Kept fuel b.1 src_fd (pos (suc j)) st' fs3 ended in
                  let closed =
                    close_both-used fs3 src_fd (pos (suc j)) (λ same. apart (cc same))
                      (kept.opens src_fd (i, slot, others i apart ∙ o))
                      (kept.opens (pos (suc j)) (j, slot', o')) in
                  let same =
                    end_state st' st (close L (close L fs3 src_fd).1 (pos (suc j))).1 fs'
                      (rw (opened, ended, copy_to) at e) in
                  omega (arith, closed, kept.number, more, ap (λ x. used L x.open_files) same)
            ]
      ]

  -- A copy that has ended, whatever it met, leaves as many files open as there were.
  pub cp-used :
      (fuel : ℕ) (fs : Fs L) (src dest : Option CString) (st : ℤ) (fs' : Fs L)
      → length fs.open_files ≡ max_open_files
      → cp L fuel fs src dest ≡ some (st, fs')
      → used L fs'.open_files ≡ used L fs.open_files
  unfolding cp
  cp-used fuel fs none dest st fs' full e =
      ap (λ x. used L x.open_files) (sym (end_state (code Status.invalid_pointer) st fs fs' e))
  cp-used fuel fs (some src) none st fs' full e =
      ap (λ x. used L x.open_files) (sym (end_state (code Status.invalid_pointer) st fs fs' e))
  cp-used fuel fs (some src) (some dest) st fs' full e =
      let a = open_create L fs (some src) 0 0 in
      let (result, size) = open_create-Result fs src 0 0 in
      elim result [
        | inl (neg, kept) ↦
            let same = end_state a.0 st a.1 fs' (rw (neg, cp) at e) in
            ap (λ x. used L x.open_files) (sym same) ∙ kept.number
        | inr (i, opened) ↦
            let (below, fresh, (slot, o, normal), others, more) =
              open_create-fresh L fs a.1 src 0 0 i full (ap (λ x. (x, a.1)) opened) in
            let one =
              copy_to-used fuel a.1 dest i slot st fs' (size ∙ full) o (rw (opened, cp) at e) in
            omega (arith, one, more)
      ]
