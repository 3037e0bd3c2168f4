-- ===== src/Tests/EspFile.antt =====
-- Descriptors that are numbered one after the other.
use hq_platform.Base.{
  ℕ, ◌+◌, ◌≡◌, refl, ap, subst, ◌∙◌, Bool, true, false, ◌&&◌, ◌||◌, not, ltb, List, [], ◌∷◌, none,
  some, arith, replicate,
}
use hq_platform.Base.Int.{ℤ, pos, negsuc, eqb, eqb-eq}
use hq_platform.Base.Text.{codes}
use hq_platform.Osal.Esp.File.{PosixFiles, Files, free_slot, value, bad_fd, read_only, read_write}
use hq_platform.Osal.Esp.File.Slots.{holders, InPlace}
use hq_platform.Osal.Esp.File.Tracked.{Documented, Closing, Call, opens, closes, run, run-Tracked}

-- The next number, and which of the lower ones are open.
abbrev numbered : PosixFiles
numbered = record {
  State = ℕ × (ℤ → Bool);
  open_file = λ s path create truncate access. (some s.0, (s.0 + 1, λ g. eqb (pos s.0) g || s.1 g));
  close = λ s fd. (value 0, (s.0, λ g. not (eqb fd g) && s.1 g));
  read = λ s fd n. (bad_fd, [], s);
  write = λ s fd bytes. (bad_fd, s);
  ftruncate = λ s fd n. (bad_fd, s);
  lseek = λ s fd offset whence. (bad_fd, s);
  stat = λ s path. none;
  chmod = λ s path mode. (false, s);
  remove = λ s path. (false, s);
  rename = λ s from to. (false, s);
}

abbrev below : ℕ → ℤ → Bool
below n (pos m) = ltb m n
below n (negsuc m) = false

abbrev open_in : ℕ × (ℤ → Bool) → ℤ → Bool
open_in s g = s.1 g && below s.0 g

next_opens :
    (n : ℕ) (known : ℤ → Bool) (g : ℤ)
    → open_in (n + 1, λ h. eqb (pos n) h || known h) g ≡ eqb (pos n) g || open_in (n, known) g
next_opens n known (pos m) = ground arith
next_opens n known (negsuc m) = ground arith

numbered-Documented : Documented numbered
numbered-Documented = record {
  is_open = open_in;
  open_new = λ s path create truncate access fd e. (fresh s fd e, λ g. next s fd e g);
  open_none = λ s path create truncate access e g. cc;
  close_ends = λ s fd n e g. ground arith;
  close_refused = λ s fd absent g. refused_at s fd absent g;
}
  where
    refused_at :
        (s : ℕ × (ℤ → Bool)) (fd : ℤ)
        → open_in s fd ≡ false
        → (g : ℤ) → not (eqb fd g) && s.1 g && below s.0 g ≡ open_in s g
    refused_at s fd absent g =
        let at : eqb fd g ≡ true → open_in s g ≡ false =
          λ same. subst (λ z. open_in s z ≡ false) (eqb-eq fd g same) absent in
        ground (arith, at)

    fresh : (s : ℕ × (ℤ → Bool)) (fd : ℕ) → some s.0 ≡ some fd → open_in s (pos fd) ≡ false
    fresh s fd e = let same : s.0 ≡ fd = ground arith in ground arith

    next :
        (s : ℕ × (ℤ → Bool)) (fd : ℕ)
        → some s.0 ≡ some fd
        → (g : ℤ)
        → open_in (s.0 + 1, λ h. eqb (pos s.0) h || s.1 h) g ≡ eqb (pos fd) g || open_in s g
    next s fd e g =
        let same : s.0 ≡ fd = ground arith in
        next_opens s.0 s.1 g ∙ ap (λ k. eqb (pos k) g || open_in s g) same

abbrev empty_table : Files numbered
empty_table = record {
  mounted = true;
  mount_point = codes "/littlefs";
  table = replicate 32 free_slot;
  sys = (3, λ g. eqb g (pos 0));
}

closing : Closing numbered numbered-Documented
closing s fd there = (0, refl)

abbrev calls : List (Call numbered numbered-Documented closing)
calls =
    opens (some (codes "a")) true false read_write
    ∷ opens (some (codes "b")) false false read_only
    ∷ closes (pos 3)
    ∷ []

run-Tracked_example :
    let end = run numbered numbered-Documented closing empty_table calls in
    InPlace
      (holders end.table (pos 4))
      (numbered-Documented.is_open end.sys (pos 4))
      (numbered-Documented.is_open empty_table.sys (pos 4))
run-Tracked_example =
    run-Tracked numbered numbered-Documented closing calls empty_table (λ g. refl) (pos 4)
