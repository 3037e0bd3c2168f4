-- ===== src/Osal/Esp/File/Tracked.antt =====
-- The table of src/osal/esp/osal_file_impl.c and the descriptors that the system has open.
use hq_platform.Base.{
  ℕ, ◌+◌, ◌-◌, ◌≡◌, refl, sym, ap, ◌∙◌, subst, inl, inr, Bool, true, false, ◌&&◌, ◌||◌, not, List,
  [], ◌∷◌, Option, none, some, arith, set, Bool-cases, Option-cases,
}
use hq_platform.Base.Int.{ℤ, pos, is_neg, eqb, eqb-eq}
use hq_platform.Base.Text.{CString}
use hq_platform.Osal.Status.{Status}
use hq_platform.Osal.Esp.File.{
  Slot, free_slot, Access, PosixFiles, Files, find_from, free_from, resolve, record_fd, open_path,
  open_resolved, open_create, close, stored, value,
}
use hq_platform.Osal.Esp.File.Slots.{
  one, holders, InPlace, holders-set_free, holders-clear, holders-none, InPlace-opened,
  InPlace-closed, InPlace-absent,
}

-- What POSIX documents of descriptors: `open` makes one that was not open, a `close` that succeeds ends
-- the one it is given, one that is given a descriptor that is not open changes nothing, and neither
-- changes another.
pub record Documented (F : PosixFiles) : Type 0 where
  pub is_open : F.State → ℤ → Bool
  pub open_new :
      (s : F.State) (path : CString) (create truncate : Bool) (access : Access) (fd : ℕ)
      → (F.open_file s path create truncate access).0 ≡ some fd
      → (is_open s (pos fd) ≡ false)
        × ((g : ℤ)
            → is_open (F.open_file s path create truncate access).1 g
              ≡ eqb (pos fd) g || is_open s g)
  pub open_none :
      (s : F.State) (path : CString) (create truncate : Bool) (access : Access)
      → (F.open_file s path create truncate access).0 ≡ none
      → (g : ℤ) → is_open (F.open_file s path create truncate access).1 g ≡ is_open s g
  pub close_ends :
      (s : F.State) (fd : ℤ) (n : ℕ)
      → (F.close s fd).0 ≡ value n
      → (g : ℤ) → is_open (F.close s fd).1 g ≡ not (eqb fd g) && is_open s g
  pub close_refused :
      (s : F.State) (fd : ℤ)
      → is_open s fd ≡ false
      → (g : ℤ) → is_open (F.close s fd).1 g ≡ is_open s g

-- No `close` of an open descriptor fails.
abbrev pub Closing : (F : PosixFiles) → Documented F → Type 0
Closing F D =
    (s : F.State) (fd : ℤ) → D.is_open s fd ≡ true → (n : ℕ) × ((F.close s fd).0 ≡ value n)

module _ (F : PosixFiles) (D : Documented F) (closing : Closing F D) where
  closes_one :
      (s : F.State) (fd g : ℤ) → D.is_open (F.close s fd).1 g ≡ not (eqb fd g) && D.is_open s g
  closes_one s fd g = elim (Bool-cases (D.is_open s fd)) [
    | inl there ↦ let (n, fine) = closing s fd there in D.close_ends s fd n fine g
    | inr absent ↦
        let at : eqb fd g ≡ true → D.is_open s g ≡ false =
          λ same. subst (λ z. D.is_open s z ≡ false) (eqb-eq fd g same) absent in
        D.close_refused s fd absent g ∙ without (eqb fd g) at
  ]
    where
      without :
          (same : Bool)
          → (same ≡ true → D.is_open s g ≡ false)
          → D.is_open s g ≡ not same && D.is_open s g
      without true h = h refl
      without false h = refl

  -- Each descriptor that is open is in one slot or is one of the others, and no slot has one that is
  -- not open or is in another slot.
  abbrev pub Tracked : (ℤ → Bool) → Files F → Type 0
  Tracked others fs = (g : ℤ) → InPlace (holders fs.table g) (D.is_open fs.sys g) (others g)

  record_fd-Tracked :
      (others : ℤ → Bool) (fs : Files F) (path : CString) (fd : ℕ) (before : F.State)
      → D.is_open before (pos fd) ≡ false
      → ((g : ℤ) → D.is_open fs.sys g ≡ eqb (pos fd) g || D.is_open before g)
      → ((g : ℤ) → InPlace (holders fs.table g) (D.is_open before g) (others g))
      → Tracked others (record_fd F fs path fd (free_from fs.table 0)).1
  unfolding record_fd
  record_fd-Tracked others fs path fd before fresh opens tracked g =
      let was : eqb (pos fd) g ≡ true → D.is_open before g ≡ false =
        λ same. subst (λ z. D.is_open before z ≡ false) (eqb-eq (pos fd) g same) fresh in
      elim (Option-cases (free_from fs.table 0)) [
        | inl full ↦
            let gone = closes_one fs.sys (pos fd) g in
            rw full (
              subst (λ z. InPlace (holders fs.table g) z (others g))
                (without (eqb (pos fd) g) was
                  ∙ sym (gone ∙ ap (λ z. not (eqb (pos fd) g) && z) (opens g)))
                (tracked g))
        | inr (i, free) ↦
            let new : Slot = record { in_use = true; fd = pos fd; path = stored path } in
            let put = holders-set_free fs.table 0 i new g free refl in
            let held : holders (set fs.table i new) g ≡ one (eqb (pos fd) g) + holders fs.table g =
              ap (λ k. holders (set fs.table k new) g) (omega arith) ∙ put in
            rw free (
              subst (λ n. InPlace n (D.is_open fs.sys g) (others g)) (sym held)
                (subst (λ z. InPlace (one (eqb (pos fd) g) + holders fs.table g) z (others g))
                  (sym (opens g)) (InPlace-opened _ (eqb (pos fd) g) _ _ was (tracked g))))
      ]
    where
      without :
          (same : Bool)
          → (same ≡ true → D.is_open before g ≡ false)
          → D.is_open before g ≡ not same && (same || D.is_open before g)
      without true h = h refl
      without false h = refl

  open_path-Tracked :
      (others : ℤ → Bool) (fs : Files F) (path : CString) (create truncate : Bool) (access : Access)
      → Tracked others fs
      → Tracked others (open_path F fs path create truncate access).1
  unfolding open_path
  open_path-Tracked others fs path create truncate access tracked =
      let (fd, sys) = F.open_file fs.sys path create truncate access in
      elim (Option-cases (F.open_file fs.sys path create truncate access).0) [
        | inl refused ↦
            let same = D.open_none fs.sys path create truncate access refused in
            rw refused (λ g.
              subst (λ z. InPlace (holders fs.table g) z (others g)) (sym (same g)) (tracked g))
        | inr (n, made) ↦
            let (fresh, opens) = D.open_new fs.sys path create truncate access n made in
            rw made
              (record_fd-Tracked others (record fs { sys = sys }) path n fs.sys fresh opens tracked)
      ]

  open_resolved-Tracked :
      (others : ℤ → Bool) (fs : Files F) (create truncate : Bool) (access : Access)
      (r : Status × Option CString)
      → Tracked others fs
      → Tracked others (open_resolved F fs create truncate access r).1
  open_resolved-Tracked others fs create truncate access (st, none) tracked = tracked
  open_resolved-Tracked others fs create truncate access (st, some path) tracked =
      open_path-Tracked others fs path create truncate access tracked

  pub open_create-Tracked :
      (others : ℤ → Bool) (fs : Files F) (path : Option CString) (create truncate : Bool)
      (access : Access)
      → Tracked others fs
      → Tracked others (open_create F fs path create truncate access).1
  unfolding open_create
  open_create-Tracked others fs path create truncate access tracked =
      open_resolved-Tracked others fs create truncate access (resolve F fs path) tracked

  pub close-Tracked :
      (others : ℤ → Bool) (fs : Files F) (filedes : ℤ)
      → Tracked others fs
      → Tracked others (close F fs filedes).1
  unfolding close
  close-Tracked others fs filedes tracked g = elim (Bool-cases (is_neg filedes)) [
    | inl wrong ↦ rw wrong (tracked g)
    | inr right ↦ elim (Option-cases (find_from fs.table filedes 0)) [
      | inl absent ↦
          let nobody : eqb filedes g ≡ true → holders fs.table g ≡ 0 = λ same.
            subst (λ z. holders fs.table z ≡ 0) (eqb-eq filedes g same)
              (holders-none fs.table filedes 0 absent) in
          rw (right, absent)
            (subst (λ z. InPlace (holders fs.table g) z (others g))
              (sym (closes_one fs.sys filedes g))
              (InPlace-absent _ (eqb filedes g) _ _ nobody (tracked g)))
      | inr (i, present) ↦
          let cleared = holders-clear fs.table filedes 0 i g present in
          let place : i - 0 ≡ i = omega arith in
          let freed : holders (set fs.table i free_slot) g + one (eqb filedes g)
              ≡ holders fs.table g =
            ap (λ k. holders (set fs.table k free_slot) g + one (eqb filedes g)) (sym place)
            ∙ cleared in
          rw (right, present)
            (subst (λ z. InPlace (holders (set fs.table i free_slot) g) z (others g))
              (sym (closes_one fs.sys filedes g))
              (InPlace-closed _ _ (eqb filedes g) _ _ freed (tracked g)))
    ]
  ]

  -- What a client does with its files: it opens and closes them.
  pub data Call : Type 0 where
    opens : Option CString → Bool → Bool → Access → Call
    closes : ℤ → Call

  unfoldable pub run : Files F → List Call → Files F
  run fs [] = fs
  run fs (opens path create truncate access ∷ calls) =
      run (open_create F fs path create truncate access).1 calls
  run fs (closes filedes ∷ calls) = run (close F fs filedes).1 calls

  run_from-Tracked :
      (others : ℤ → Bool) (calls : List Call) (fs : Files F)
      → Tracked others fs
      → Tracked others (run fs calls)
  unfolding run
  run_from-Tracked others [] fs tracked = tracked
  run_from-Tracked others (opens path create truncate access ∷ calls) fs tracked =
      run_from-Tracked others calls _
        (open_create-Tracked others fs path create truncate access tracked)
  run_from-Tracked others (closes filedes ∷ calls) fs tracked =
      run_from-Tracked others calls _ (close-Tracked others fs filedes tracked)

  -- On the ESP port, from an empty table, whatever files are opened and closed: a descriptor is in
  -- at most one slot of the table, and only while the system has it open; and each one that is open
  -- is in a slot, or it was open before. This holds if `open` and `close` do what POSIX documents
  -- of descriptors, no close of an open descriptor fails, and only these calls open and close.
  pub run-Tracked :
      (calls : List Call) (fs : Files F)
      → ((g : ℤ) → holders fs.table g ≡ 0)
      → Tracked (D.is_open fs.sys) (run fs calls)
  run-Tracked calls fs empty =
      run_from-Tracked (D.is_open fs.sys) calls fs (λ g. rw (empty g) (omega arith, omega arith))
