-- ===== src/Osal/Esp/Mount/Paths.antt =====
-- The paths that src/osal/esp/osal_mount_impl.c passes to the file system.
use hq_platform.Base.{
  ℕ, ◌<◌, ◌≤◌, ◌≡◌, ◌⊎◌, inl, inr, refl, ap, ◌∙◌, true, leb, [], ◌∷◌, ◌++◌, Option, none, some,
  arith, length, if◌then◌else◌, Bool-cases,
}
use hq_platform.Base.Text.{CString}
use hq_platform.Osal.Status.{Status, success, fs_err_path_too_long}
use hq_platform.Osal.Esp.Mount.{starts_with, slash, strip_slash, build_vfs_path}

starts_with-append : (s t : CString) → starts_with (s ++ t) s ≡ true
unfolding starts_with
starts_with-append [] t = refl
starts_with-append (a ∷ s) t = ground (arith, starts_with-append s t)

starts_with-split : (s t : CString) → starts_with s t ≡ true → (rest : CString) × (s ≡ t ++ rest)
unfolding starts_with
starts_with-split s [] h = (s, refl)
starts_with-split [] (b ∷ t) h = cc
starts_with-split (a ∷ s) (b ∷ t) h =
    let (rest, e) = starts_with-split s t (ground arith) in
    let same : a ≡ b = ground arith in (rest, ap (λ z. z ∷ s) same ∙ ap (λ z. b ∷ z) e)

-- What a path becomes.
abbrev pub full_path : CString → CString → CString
full_path point path = if starts_with path point then path else point ++ slash ∷ strip_slash path

full_path-within : (point path : CString) → starts_with (full_path point path) point ≡ true
full_path-within point path = elim (Bool-cases (starts_with path point)) [
  | inl inside ↦ rw inside inside
  | inr outside ↦ rw outside (starts_with-append point (slash ∷ strip_slash path))
]

abbrev fitted : ℕ → CString → Status × Option CString
fitted out_size path =
    if leb out_size (length path) then (fs_err_path_too_long, none) else (success, some path)

build_vfs_path-fitted :
    (point path : CString) (out_size : ℕ)
    → 0 < length point
    → build_vfs_path point (some path) out_size ≡ fitted out_size (full_path point path)
unfolding build_vfs_path
build_vfs_path-fitted point path out_size some_point = ground arith

full_path-again :
    (point path : CString) → full_path point (full_path point path) ≡ full_path point path
full_path-again point path = rw (full_path-within point path) refl

-- With a mount point that is not empty, `osal_lfs_build_vfs_path` gives the path itself if it
-- starts with the mount point, and else the mount point, a slash, and the path without one leading
-- slash. The result fits the buffer, starts with the mount point, and is left as it is when it is
-- built again; the path is refused exactly if the result does not fit.
pub build_vfs_path-full :
    (point path : CString) (out_size : ℕ)
    → 0 < length point
    → ((length (full_path point path) < out_size)
        × (build_vfs_path point (some path) out_size ≡ (success, some (full_path point path)))
        × (build_vfs_path point (some (full_path point path)) out_size
            ≡ (success, some (full_path point path)))
        × ((rest : CString) × (full_path point path ≡ point ++ rest)))
      ⊎ ((out_size ≤ length (full_path point path))
          × (build_vfs_path point (some path) out_size ≡ (fs_err_path_too_long, none)))
build_vfs_path-full point path out_size some_point =
    let once = build_vfs_path-fitted point path out_size some_point in
    let twice =
      build_vfs_path-fitted point (full_path point path) out_size some_point
      ∙ ap (fitted out_size) (full_path-again point path) in
    elim (Bool-cases (leb out_size (length (full_path point path)))) [
      | inl long ↦ inr (ground arith, once ∙ rw long refl)
      | inr fits ↦ inl (
        ground arith,
        once ∙ rw fits refl,
        twice ∙ rw fits refl,
        starts_with-split (full_path point path) point (full_path-within point path),
      )
    ]
