-- ===== src/Base/Text.antt =====
-- C strings: the bytes before the terminating NUL.
use Prim.Native.Char.{code}
use Prim.Native.String.{String}
use hq_platform.Base.{
  ℕ, ◌≡◌, refl, Bool, true, false, ◌&&◌, List, [], ◌∷◌, arith, length, ltb, ◌==◌,
}

abbrev pub CString : Type 0
CString = List ℕ

-- `strcmp (s, t) == 0`
unfoldable pub str_eq : CString → CString → Bool
str_eq [] [] = true
str_eq (a ∷ s) (b ∷ t) = a == b && str_eq s t
str_eq _ _ = false

-- `memchr (s, '\0', len)` finds the terminator.
abbrev pub terminated_within : CString → ℕ → Bool
terminated_within s len = ltb (length s) len

pub str_eq_refl : (s : CString) → str_eq s s ≡ true
unfolding str_eq
str_eq_refl [] = refl
str_eq_refl (a ∷ s) = ground (arith, str_eq_refl s)

pub str_eq-eq : (s t : CString) → str_eq s t ≡ true → s ≡ t
unfolding str_eq
str_eq-eq [] [] h = refl
str_eq-eq (a ∷ s) (b ∷ t) h = ground (arith, str_eq-eq s t)
str_eq-eq [] (b ∷ t) h = ground arith
str_eq-eq (a ∷ s) [] h = ground arith

-- The bytes of an ASCII literal.
abbrev pub codes : String → CString
codes String.[] = []
codes (String.◌∷◌ c s) = code c ∷ codes s
