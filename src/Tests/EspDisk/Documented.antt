-- ===== src/Tests/EspDisk/Documented.antt =====
-- The disk in memory does what POSIX documents.
use hq_platform.Base.{
  ℕ, ◌+◌, ◌<◌, ◌≤◌, ◌≡◌, ◌≢◌, inl, inr, refl, sym, ap, subst, ◌∙◌, Bool, true, false, List, [], ◌∷◌,
  ◌++◌, Option, none, some, arith, length, take, drop, zero, suc, if◌then◌else◌, Bool-cases,
  length-take, take_all,
}
use hq_platform.Base.Int.{ℤ, pos, negsuc, eqb, eqb-eq}
use hq_platform.Base.Text.{CString, str_eq, str_eq_refl}
use hq_platform.Osal.Esp.File.{Answer, value}
use hq_platform.Osal.Esp.Copy.Documented.{Documented, Closing}
use hq_platform.Tests.EspDisk.{Disk, below, place, put, move, read_at, write_at, disk}

str_eq-sym : (p q : CString) → str_eq p q ≡ str_eq q p
unfolding str_eq
str_eq-sym [] [] = refl
str_eq-sym [] (b ∷ q) = refl
str_eq-sym (a ∷ p) [] = refl
str_eq-sym (a ∷ p) (b ∷ q) = ground (arith, str_eq-sym p q)

eqb_ne : (a b : ℤ) → b ≢ a → eqb a b ≡ false
eqb_ne a b ne = elim (Bool-cases (eqb a b)) [
  | inl same ↦ absurd (ne (sym (eqb-eq a b same)))
  | inr other ↦ other
]

eqb_same : (a : ℤ) → eqb a a ≡ true
eqb_same (pos n) = ground arith
eqb_same (negsuc n) = ground arith

below_next : (n : ℕ) (g : ℤ) → g ≢ pos n → below (n + 1) g ≡ below n g
below_next n (pos m) ne = let apart : m ≢ n = λ same. ne (ap (λ k. pos k) same) in ground arith
below_next n (negsuc m) ne = refl

drop_nil : (n : ℕ) → drop {A = ℕ} n [] ≡ []
drop_nil zero = refl
drop_nil (suc n) = refl

drop-drop : (o n : ℕ) (xs : List ℕ) → drop n (drop o xs) ≡ drop (o + n) xs
drop-drop zero n xs = ap (λ k. drop k xs) (omega arith)
drop-drop (suc o) n [] = drop_nil n ∙ sym (drop_nil (suc o + n))
drop-drop (suc o) n (x ∷ xs) =
    drop-drop o n xs
    ∙ ap (λ k. drop k (x ∷ xs)) (let e : suc (o + n) ≡ suc o + n = omega arith in e)

take-length-drop : (n : ℕ) (xs : List ℕ) → xs ≡ take n xs ++ drop (length (take n xs)) xs
take-length-drop zero xs = refl
take-length-drop (suc n) [] = refl
take-length-drop (suc n) (x ∷ xs) = ap (◌∷◌ x) (take-length-drop n xs)

move_others :
    (s : Disk) (fd g : ℤ) (path : CString) (o : ℕ)
    → g ≢ fd
    → place (s.0, s.1, move s fd path o) g ≡ place s g
move_others (next, files, places) fd g path o ne = rw (eqb_ne fd g ne) refl

move_self :
    (s : Disk) (fd : ℤ) (path q : CString) (o k : ℕ)
    → place s fd ≡ some (q, k)
    → place (s.0, s.1, move s fd path o) fd ≡ some (path, o)
move_self (next, files, places) fd path q o k at = rw (eqb_same fd) (ground arith)

answered : (n m : ℕ) → value n ≡ value m → n ≡ m
answered n m e = cc

abbrev Reads : Disk → ℤ → ℕ → CString → ℕ → Answer × List ℕ × Disk → ℕ → Type 0
Reads s fd size path o (answer, bytes, s') n =
    (drop o (s.1 path) ≡ take n bytes ++ drop (o + n) (s.1 path))
    × (length (take n bytes) ≡ n)
    × (n ≤ size)
    × (n ≡ 0 → 0 < size → drop o (s.1 path) ≡ [])
    × (place s' fd ≡ some (path, o + n))

taken_none : (size : ℕ) (xs : List ℕ) → 0 < size → length (take size xs) ≡ 0 → xs ≡ []
taken_none zero xs h e = absurd (omega arith)
taken_none (suc size) [] h e = refl
taken_none (suc size) (x ∷ xs) h e = absurd (omega arith)

disk-Reads :
    (s : Disk) (fd : ℤ) (size : ℕ) (path : CString) (o : ℕ)
    → place s fd ≡ some (path, o)
    → Reads s fd size path o
        (read_at s fd size (some (path, o)))
        (length (take size (drop o (s.1 path))))
disk-Reads (next, files, places) fd size path o at =
    let rest = drop o (files path) in
    let bytes = take size rest in
    let whole : take (length bytes) bytes ≡ bytes = take_all (length bytes) bytes (omega arith) in
    (
      take-length-drop size rest
          ∙ ap (λ z. z ++ drop (length bytes) rest) (sym whole)
          ∙ ap (λ z. take (length bytes) bytes ++ z) (drop-drop o (length bytes) (files path)),
      ap length whole,
      omega (arith, length-take size rest),
      λ e h. taken_none size rest h e,
      move_self (next, files, places) fd path path (o + length bytes) o at,
    )

read_at-others :
    (s : Disk) (fd : ℤ) (size : ℕ) (at : Option (CString × ℕ))
    → let s' = (read_at s fd size at).2 in
      ((g : ℤ) → g ≢ fd → place s' g ≡ place s g) × ((q : CString) → s'.1 q ≡ s.1 q)
read_at-others s fd size none = (λ g ne. refl, λ q. refl)
read_at-others s fd size (some (path, o)) = (λ g ne. move_others s fd g path _ ne, λ q. refl)

abbrev Writes : Disk → ℤ → List ℕ → CString → Answer × Disk → ℕ → Type 0
Writes s fd bytes path (answer, s') n =
    (0 < n)
    × (n ≤ length bytes)
    × (s'.1 path ≡ s.1 path ++ take n bytes)
    × (place s' fd ≡ some (path, length (s'.1 path)))

disk-Writes :
    (s : Disk) (fd : ℤ) (b : ℕ) (bytes : List ℕ) (path : CString)
    → place s fd ≡ some (path, length (s.1 path))
    → Writes s fd
        (b ∷ bytes)
        path
        (write_at s fd (b ∷ bytes) (some (path, length (s.1 path))))
        (length (b ∷ bytes))
disk-Writes (next, files, places) fd b bytes path at =
    let after = files path ++ b ∷ bytes in
    let there : put files path after path ≡ after = rw (str_eq_refl path) refl in
    (
      omega arith,
      omega arith,
      there
          ∙ ap (λ z. files path ++ z)
              (sym (take_all (length (b ∷ bytes)) (b ∷ bytes) (omega arith))),
      move_self (next, files, places) fd path path (length after) _ at
          ∙ ap (λ z. some (path, length z)) (sym there),
    )

write_at-others :
    (s : Disk) (fd : ℤ) (bytes : List ℕ) (path : CString) (o : ℕ)
    → place s fd ≡ some (path, o)
    → let s' = (write_at s fd bytes (some (path, o))).1 in
      ((o' : ℕ) × (place s' fd ≡ some (path, o')))
      × ((g : ℤ) → g ≢ fd → place s' g ≡ place s g)
      × ((q : CString) → str_eq path q ≡ false → s'.1 q ≡ s.1 q)
write_at-others s fd bytes path o at = (
  (length (s.1 path ++ bytes), move_self s fd path path _ o at),
  λ g ne. move_others s fd g path _ ne,
  λ q ne. rw ne refl,
)

pub disk-Documented : Documented disk
disk-Documented = record {
  same_file = λ path q. str_eq path q;
  same_file_sym = str_eq-sym;
  content = λ s path. s.1 path;
  at = place;
  opened = λ s path create truncate access fd made. opened s path fd made;
  open_keeps = λ s path create access q. refl;
  open_others = λ s path create truncate access q ne. truncated s path truncate q ne;
  open_empties = λ s path create fd made. rw (str_eq_refl path) refl;
  read_others = λ s fd size. read_at-others s fd size (place s fd);
  write_others = λ s fd b bytes path o at.
      subst
        (λ z.
          let s' = (write_at s fd (b ∷ bytes) z).1 in
          ((o' : ℕ) × (place s' fd ≡ some (path, o')))
          × ((g : ℤ) → g ≢ fd → place s' g ≡ place s g)
          × ((q : CString) → str_eq path q ≡ false → s'.1 q ≡ s.1 q))
        (sym at) (write_at-others s fd (b ∷ bytes) path o at);
  removes = λ s path q ne. rw ne refl;
  remove_fails = λ s path q failed. cc;
  renames = λ s old new moved. cc;
  rename_fails = λ s old new q failed. refl;
  reads = λ s fd size n path o at answer.
      let n_is = answered _ n (ap (λ z. (read_at s fd size z).0) (sym at) ∙ answer) in
      subst (λ z. Reads s fd size path o (read_at s fd size z) n) (sym at)
        (subst (Reads s fd size path o (read_at s fd size (some (path, o)))) n_is
          (disk-Reads s fd size path o at));
  writes = λ s fd b bytes n path at answer.
      let n_is = answered _ n (ap (λ z. (write_at s fd (b ∷ bytes) z).0) (sym at) ∙ answer) in
      subst (λ z. Writes s fd (b ∷ bytes) path (write_at s fd (b ∷ bytes) z) n) (sym at)
        (subst
          (Writes s fd (b ∷ bytes) path
            (write_at s fd (b ∷ bytes) (some (path, length (s.1 path)))))
          n_is (disk-Writes s fd b bytes path at));
  close_keeps = λ s fd q fine. refl;
}
  where
    truncated :
        (s : Disk) (path : CString) (truncate : Bool) (q : CString)
        → str_eq path q ≡ false
        → (if truncate then put s.1 path [] else s.1) q ≡ s.1 q
    truncated s path true q ne = rw ne refl
    truncated s path false q ne = refl

    opened :
        (s : Disk) (path : CString) (fd : ℕ)
        → some s.0 ≡ some fd
        → (place s (pos fd) ≡ none)
          × (place (s.0 + 1, s.1, move s (pos s.0) path 0) (pos fd) ≡ some (path, 0))
          × ((g : ℤ) → g ≢ pos fd → place (s.0 + 1, s.1, move s (pos s.0) path 0) g ≡ place s g)
    opened s path fd made =
        let same : s.0 ≡ fd = ground arith in
        (
          ground arith,
          ground arith,
          λ g ne.
              rw
                (
                  eqb_ne (pos s.0) g (λ e. ne (e ∙ ap (λ k. pos k) same)),
                  below_next s.0 g (λ e. ne (e ∙ ap (λ k. pos k) same)),
                )
                refl,
        )

pub disk_content : (s : Disk) (path : CString) → disk-Documented.content s path ≡ s.1 path
unfolding disk-Documented
disk_content s path = refl

pub disk_distinct :
    (path q : CString) → str_eq path q ≡ false → disk-Documented.same_file path q ≡ false
unfolding disk-Documented
disk_distinct path q apart = apart

pub disk-Closing : Closing disk
disk-Closing s fd e = cc
