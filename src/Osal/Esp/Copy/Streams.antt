-- ===== src/Osal/Esp/Copy/Streams.antt =====
-- A copy of src/osal/esp/osal_file_impl.c from one descriptor to another, as Osal.Transfer sees it.
use hq_platform.Base.{
  ℕ, ◌+◌, ◌%◌, ◌^◌, ◌≤◌, ◌≡◌, ◌≢◌, refl, sym, ap, ◌∙◌, subst, false, List, ◌∷◌, ◌++◌, some, arith,
  length, take, drop,
}
use hq_platform.Base.Int.{ℤ, pos}
use hq_platform.Base.Text.{CString}
use hq_platform.Osal.Status.{code}
use hq_platform.Osal.Task.{as_int}
use hq_platform.Osal.Transfer.{transfer, Streams}
use hq_platform.Osal.Transfer.Whole.{transfer-Keeps}
use hq_platform.Osal.Esp.File.{PosixFiles, Files, Answer, value, read, write, counted}
use hq_platform.Osal.Esp.Copy.{buffer_size, read_buffer, write_bytes}
use hq_platform.Osal.Esp.Copy.Documented.{Documented}

-- The two states are on the same volume.
abbrev pub SameVolume : (F : PosixFiles) → Files F → Files F → Type 0
SameVolume F fs fs' = (fs'.mounted ≡ fs.mounted) × (fs'.mount_point ≡ fs.mount_point)

module _ (F : PosixFiles) (D : Documented F) where
  -- While `a` is copied to `b`: `source` is what `a` has, the first descriptor stands before `rest`,
  -- and `b` has what is copied, with the second descriptor at its end.
  abbrev pub Copying : CString → CString → ℤ → ℤ → List ℕ → Files F → List ℕ → List ℕ → Type 0
  Copying a b src_fd dst_fd source fs rest copied =
      (o : ℕ) × (D.at fs.sys src_fd ≡ some (a, o))
      × (D.content fs.sys a ≡ source)
      × (drop o source ≡ rest)
      × (D.at fs.sys dst_fd ≡ some (b, length (D.content fs.sys b)))
      × (D.content fs.sys b ≡ copied)

  as_int_small : (m n : ℕ) → m ≤ buffer_size → as_int (m % 2 ^ 32) ≡ pos n → m ≡ n
  as_int_small m n small e = ground arith

  -- A number that the code returns is the one that the system gave, if that is not large.
  counted-value :
      (answer : Answer) (bound n : ℕ)
      → ((m : ℕ) → answer ≡ value m → m ≤ bound)
      → bound ≤ buffer_size
      → counted F answer ≡ pos n
      → answer ≡ value n
  unfolding code
  counted-value (value m) bound n few small e =
      let least = few m refl in ap (λ (k : ℕ). value k) (as_int_small m n (omega arith) e)
  counted-value Answer.bad_fd bound n few small e = cc
  counted-value Answer.unsupported bound n few small e = cc
  counted-value Answer.failed bound n few small e = cc

  write_result :
      (fs : Files F) (fd : ℤ) (first : ℕ) (bytes : List ℕ)
      → let (answer, sys) = F.write fs.sys fd (first ∷ bytes) in
        ((write_bytes F fd fs (first ∷ bytes)).0 ≡ counted F answer)
        × ((write_bytes F fd fs (first ∷ bytes)).1 ≡ record fs { sys = sys })
  unfolding write
  write_result fs fd first bytes = (ground arith, ground arith)

  pub Copying-Streams :
      (a b : CString) (src_fd dst_fd : ℤ) (source : List ℕ)
      → D.same_file b a ≡ false
      → src_fd ≢ dst_fd
      → Streams
          (read_buffer F src_fd)
          (write_bytes F dst_fd)
          buffer_size
          (Copying a b src_fd dst_fd source)
  unfolding read
  Copying-Streams a b src_fd dst_fd source files fds = record {
    reads = λ fs rest copied n holds e.
        let (o, src_at, whole, left, dst_at, done) = holds in
        let answer : (F.read fs.sys src_fd buffer_size).0 ≡ value n =
          counted-value _ buffer_size n
            (λ m is. (D.reads fs.sys src_fd buffer_size m a o src_at is).2) (omega arith) e in
        let (split, taken, few, end, src_at') =
          D.reads fs.sys src_fd buffer_size n a o src_at answer in
        let (others, kept) = D.read_others fs.sys src_fd buffer_size in
        let source_is = λ (k : ℕ). ap (λ c. drop k c) whole in
        (
          drop (o + n) source,
          sym left
              ∙ sym (source_is o)
              ∙ split
              ∙ ap (λ c. take n (F.read fs.sys src_fd buffer_size).1 ++ c) (source_is (o + n)),
          taken,
          few,
          λ none_read. sym left ∙ sym (source_is o) ∙ end none_read (omega arith),
          (
            o + n,
            src_at',
            kept a ∙ whole,
            refl,
            others dst_fd (λ same. fds (sym same))
                ∙ dst_at
                ∙ ap (λ c. some (b, length c)) (sym (kept b)),
            kept b ∙ done,
          ),
        );
    writes = λ fs rest copied first bytes n holds small e.
        let (o, src_at, whole, left, dst_at, done) = holds in
        let answer : (F.write fs.sys dst_fd (first ∷ bytes)).0 ≡ value n =
          counted-value _ (length (first ∷ bytes)) n
            (λ m is. (D.writes fs.sys dst_fd first bytes m b dst_at is).1) small
            (sym (write_result fs dst_fd first bytes).0 ∙ e) in
        let (some_taken, few, longer, dst_at') =
          D.writes fs.sys dst_fd first bytes n b dst_at answer in
        let (moved, others, kept) = D.write_others fs.sys dst_fd first bytes b _ dst_at in
        (
          some_taken,
          few,
          subst (λ z. Copying a b src_fd dst_fd source z rest (copied ++ take n (first ∷ bytes)))
              (sym (write_result fs dst_fd first bytes).1)
              (
                o,
                others src_fd fds ∙ src_at,
                kept a files ∙ whole,
                left,
                dst_at',
                longer ∙ ap (λ c. c ++ take n (first ∷ bytes)) done,
              ),
        );
  }

  -- While the copy runs, the source keeps what it has, and the volume stays.
  abbrev pub Intact : Files F → CString → CString → ℤ → List ℕ → Files F → Type 0
  Intact fs0 a b dst_fd source fs =
      SameVolume F fs0 fs
      × (D.content fs.sys a ≡ source)
      × (o : ℕ) × (D.at fs.sys dst_fd ≡ some (b, o))

  pub transfer-Intact :
      (fuel : ℕ) (a b : CString) (src_fd dst_fd : ℤ) (source : List ℕ) (fs0 fs fs' : Files F)
      (st : ℤ)
      → D.same_file b a ≡ false
      → src_fd ≢ dst_fd
      → Intact fs0 a b dst_fd source fs
      → transfer (read_buffer F src_fd) (write_bytes F dst_fd) fuel fs ≡ some (st, fs')
      → Intact fs0 a b dst_fd source fs'
  unfolding read
  transfer-Intact fuel a b src_fd dst_fd source fs0 fs fs' st files fds intact e =
      transfer-Keeps (read_buffer F src_fd) (write_bytes F dst_fd) (Intact fs0 a b dst_fd source)
        (λ s k.
          let (volume, whole, o, dst_at) = k in
          let (others, kept) = D.read_others s.sys src_fd buffer_size in
          (volume, kept a ∙ whole, o, others dst_fd (λ same. fds (sym same)) ∙ dst_at))
        (λ s first bytes k.
          let (volume, whole, o, dst_at) = k in
          let ((o', moved), others, kept) = D.write_others s.sys dst_fd first bytes b o dst_at in
          subst (Intact fs0 a b dst_fd source) (sym (write_result s dst_fd first bytes).1)
            (volume, kept a files ∙ whole, o', moved))
        fuel fs st fs' intact e
