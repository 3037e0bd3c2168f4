-- ===== src/Osal/Mount/Paths.antt =====
-- What `osal_lfs_path_normalize` makes of a path.
use hq_platform.Base.{
  ℕ, suc, ◌<◌, ◌≤◌, ◌≡◌, ◌≢◌, ◌⊎◌, inl, inr, refl, sym, subst, true, false, [], ◌∷◌, ◌++◌, some,
  arith, replicate, length, ◌==◌,
}
use hq_platform.Base.Text.{CString}
use hq_platform.Osal.Status.{success, err_invalid_size, fs_err_path_invalid, fs_err_path_too_long}
use hq_platform.Osal.Mount.{path_normalize, skip_slashes, or_dot}

-- The first byte is there and is no slash.
abbrev pub StartsPlain : CString → Type 0
StartsPlain [] = ⊥
StartsPlain (c ∷ path) = c ≢ b'/'

-- The number of leading slashes.
abbrev pub slashes : CString → ℕ
slashes [] = 0
slashes (c ∷ path) = elim (c == b'/') [ true ↦ suc (slashes path) | false ↦ 0 ]

slashes-skip_slashes : (path : CString) → path ≡ replicate (slashes path) b'/' ++ skip_slashes path
slashes-skip_slashes [] = refl
slashes-skip_slashes (c ∷ path) = ground (arith, slashes-skip_slashes path)

skip_slashes-plain : (path : CString) → (skip_slashes path ≡ []) ⊎ StartsPlain (skip_slashes path)
skip_slashes-plain [] = inl refl
skip_slashes-plain (c ∷ path) = ground (arith, skip_slashes-plain path)

-- What a path without its leading slashes is written as.
abbrev pub Written : CString → CString → Type 0
Written rest out = (out ≡ rest) ⊎ ((rest ≡ []) × (out ≡ b'.' ∷ []))

or_dot-Written :
    (rest : CString)
    → (rest ≡ []) ⊎ StartsPlain rest
    → StartsPlain (or_dot rest) × Written rest (or_dot rest)
or_dot-Written [] h = (λ e. absurd (omega arith), inr (refl, refl))
or_dot-Written (c ∷ rest) (inl e) = cc
or_dot-Written (c ∷ rest) (inr h) = (h, inl refl)

normalize_plain :
    (path : CString) (out_size : ℕ)
    → StartsPlain path
    → length path < out_size
    → path_normalize (some path) out_size ≡ (success, path)
unfolding path_normalize
normalize_plain [] out_size h lt = absurd h
normalize_plain (c ∷ path) out_size h lt = ground arith

copied :
    (c : ℕ) (path : CString) (out_size : ℕ) (out : CString)
    → path_normalize (some (c ∷ path)) out_size ≡ (success, out)
    → (out ≡ or_dot (skip_slashes (c ∷ path))) × (length out < out_size)
unfolding path_normalize
copied c path out_size out h = ground arith

-- A path that is normalised is the given one without its leading slashes, or "." if nothing else is
-- left. It is not empty, starts with no slash, fits into the buffer with its terminator, and is
-- left as it is when it is normalised again.
pub path_normalize-success :
    (path : CString) (out_size : ℕ) (out : CString)
    → path_normalize (some path) out_size ≡ (success, out)
    → ((k : ℕ) × (rest : CString) × (path ≡ replicate k b'/' ++ rest) × Written rest out)
      × StartsPlain out
      × (length out < out_size)
      × (path_normalize (some out) out_size ≡ (success, out))
unfolding path_normalize
path_normalize-success [] out_size out h = ground arith
path_normalize-success (c ∷ path) out_size out h =
    let (at, fits) = copied c path out_size out h in
    let (plain, written) =
      or_dot-Written (skip_slashes (c ∷ path)) (skip_slashes-plain (c ∷ path)) in
    let starts = subst StartsPlain (sym at) plain in
    (
      (
        slashes (c ∷ path),
        skip_slashes (c ∷ path),
        slashes-skip_slashes (c ∷ path),
        subst (Written (skip_slashes (c ∷ path))) (sym at) written,
      ),
      starts,
      fits,
      normalize_plain out out_size starts fits,
    )

-- A path is refused exactly if the buffer has no byte, the path is empty, or what is left of it
-- does not fit, and the status says which.
pub path_normalize-refused :
    (path : CString) (out_size : ℕ)
    → let rest = or_dot (skip_slashes path) in
      (out_size ≡ 0 → (path_normalize (some path) out_size).0 ≡ err_invalid_size)
      × (out_size ≢ 0 → path ≡ [] → (path_normalize (some path) out_size).0 ≡ fs_err_path_invalid)
      × (out_size ≢ 0
          → path ≢ []
          → out_size ≤ length rest
          → (path_normalize (some path) out_size).0 ≡ fs_err_path_too_long)
      × (out_size ≢ 0
          → path ≢ []
          → length rest < out_size
          → path_normalize (some path) out_size ≡ (success, rest))
unfolding path_normalize
path_normalize-refused [] out_size =
    (λ z. ground arith, λ n e. ground arith, λ n e. absurd (e refl), λ n e. absurd (e refl))
path_normalize-refused (c ∷ path) out_size =
    (λ z. ground arith, λ n e. cc, λ n e le. ground arith, λ n e lt. ground arith)
