-- ===== src/Osal/Esp/Copy/Documented.antt =====
-- What the copies of src/osal/esp/osal_file_impl.c rely on in the file calls of POSIX.
use hq_platform.Base.{
  ℕ, ◌+◌, ◌<◌, ◌≤◌, ◌≡◌, ◌≢◌, Bool, true, false, List, [], ◌∷◌, ◌++◌, Option, none, some, length,
  take, drop,
}
use hq_platform.Base.Int.{ℤ, pos}
use hq_platform.Base.Text.{CString}
use hq_platform.Osal.Esp.File.{PosixFiles, Access, value, failed, write_only}

-- What POSIX documents of the contents of files and of the places of descriptors in them, whatever a
-- call answers: it changes no other file and moves no other descriptor. A file is read from its start
-- to its end, and written behind what was written; one that is opened with O_TRUNC is empty. A read
-- of at least one byte that gives none is at the end. A rename moves the contents. Different paths can
-- be the same file, such as two that differ in the number of their slashes. A close keeps the contents
-- unless it fails with an error of the device.
pub record Documented (F : PosixFiles) : Type 0 where
  pub same_file : CString → CString → Bool
  pub same_file_sym : (path q : CString) → same_file path q ≡ same_file q path
  pub content : F.State → CString → List ℕ
  pub at : F.State → ℤ → Option (CString × ℕ)
  pub opened :
      (s : F.State) (path : CString) (create truncate : Bool) (access : Access) (fd : ℕ)
      → (F.open_file s path create truncate access).0 ≡ some fd
      → let s' = (F.open_file s path create truncate access).1 in
        (at s (pos fd) ≡ none)
        × (at s' (pos fd) ≡ some (path, 0))
        × ((g : ℤ) → g ≢ pos fd → at s' g ≡ at s g)
  pub open_keeps :
      (s : F.State) (path : CString) (create : Bool) (access : Access) (q : CString)
      → content (F.open_file s path create false access).1 q ≡ content s q
  pub open_others :
      (s : F.State) (path : CString) (create truncate : Bool) (access : Access) (q : CString)
      → same_file path q ≡ false
      → content (F.open_file s path create truncate access).1 q ≡ content s q
  pub open_empties :
      (s : F.State) (path : CString) (create : Bool) (fd : ℕ)
      → (F.open_file s path create true write_only).0 ≡ some fd
      → content (F.open_file s path create true write_only).1 path ≡ []
  pub reads :
      (s : F.State) (fd : ℤ) (size n : ℕ) (path : CString) (o : ℕ)
      → at s fd ≡ some (path, o)
      → (F.read s fd size).0 ≡ value n
      → let (answer, bytes, s') = F.read s fd size in
        (drop o (content s path) ≡ take n bytes ++ drop (o + n) (content s path))
        × (length (take n bytes) ≡ n)
        × (n ≤ size)
        × (n ≡ 0 → 0 < size → drop o (content s path) ≡ [])
        × (at s' fd ≡ some (path, o + n))
  pub read_others :
      (s : F.State) (fd : ℤ) (size : ℕ)
      → let s' = (F.read s fd size).2 in
        ((g : ℤ) → g ≢ fd → at s' g ≡ at s g) × ((q : CString) → content s' q ≡ content s q)
  pub writes :
      (s : F.State) (fd : ℤ) (b : ℕ) (bytes : List ℕ) (n : ℕ) (path : CString)
      → at s fd ≡ some (path, length (content s path))
      → (F.write s fd (b ∷ bytes)).0 ≡ value n
      → let s' = (F.write s fd (b ∷ bytes)).1 in
        (0 < n)
        × (n ≤ length (b ∷ bytes))
        × (content s' path ≡ content s path ++ take n (b ∷ bytes))
        × (at s' fd ≡ some (path, length (content s' path)))
  pub write_others :
      (s : F.State) (fd : ℤ) (b : ℕ) (bytes : List ℕ) (path : CString) (o : ℕ)
      → at s fd ≡ some (path, o)
      → let s' = (F.write s fd (b ∷ bytes)).1 in
        ((o' : ℕ) × (at s' fd ≡ some (path, o')))
        × ((g : ℤ) → g ≢ fd → at s' g ≡ at s g)
        × ((q : CString) → same_file path q ≡ false → content s' q ≡ content s q)
  pub close_keeps :
      (s : F.State) (fd : ℤ) (q : CString)
      → (F.close s fd).0 ≢ failed
      → content (F.close s fd).1 q ≡ content s q
  pub removes :
      (s : F.State) (path q : CString)
      → same_file path q ≡ false
      → content (F.remove s path).1 q ≡ content s q
  pub remove_fails :
      (s : F.State) (path q : CString)
      → (F.remove s path).0 ≡ false
      → content (F.remove s path).1 q ≡ content s q
  pub renames :
      (s : F.State) (old new : CString)
      → (F.rename s old new).0 ≡ true
      → content (F.rename s old new).1 new ≡ content s old
  pub rename_fails :
      (s : F.State) (old new q : CString)
      → (F.rename s old new).0 ≡ false
      → content (F.rename s old new).1 q ≡ content s q

-- No close fails with an error of the device; a descriptor that is not open can still be refused.
abbrev pub Closing : PosixFiles → Type 0
Closing F = (s : F.State) (fd : ℤ) → (F.close s fd).0 ≢ failed
