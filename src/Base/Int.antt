-- ===== src/Base/Int.antt =====
-- Signed integers over the native numbers, under the library's names: the `int` and `int32_t`
-- results of the program, of which it only asks the sign and the value.
use hq_platform.Base.{
  ℕ, ◌-◌, ◌%◌, ◌^◌, ◌≡◌, ◌⊎◌, inl, inr, refl, Bool, true, false, ◌==◌, leb, arith,
}

-- `negsuc n` is -(n + 1).
pub data ℤ : Type 0 where
  pos : ℕ → ℤ
  negsuc : ℕ → ℤ

-- `x < 0`
abbrev pub is_neg : ℤ → Bool
is_neg (pos n) = false
is_neg (negsuc n) = true

abbrev pub eqb : ℤ → ℤ → Bool
eqb (pos a) (pos b) = a == b
eqb (negsuc a) (negsuc b) = a == b
eqb _ _ = false

abbrev pub leb_ℤ : ℤ → ℤ → Bool
leb_ℤ (pos a) (pos b) = leb a b
leb_ℤ (pos a) (negsuc b) = false
leb_ℤ (negsuc a) (pos b) = true
leb_ℤ (negsuc a) (negsuc b) = leb b a

-- The value of a number that is not negative.
abbrev pub magnitude : ℤ → ℕ
magnitude (pos n) = n
magnitude (negsuc n) = 0

-- The value as a `uint32_t`, for a negative result that a function returns as unsigned.
abbrev pub to_uint32 : ℤ → ℕ
to_uint32 (pos n) = n % 2 ^ 32
to_uint32 (negsuc n) = 2 ^ 32 - 1 - n % 2 ^ 32

pub eqb-eq : (a b : ℤ) → eqb a b ≡ true → a ≡ b
eqb-eq (pos a) (pos b) h = ground arith
eqb-eq (negsuc a) (negsuc b) h = ground arith
eqb-eq (pos a) (negsuc b) h = ground arith
eqb-eq (negsuc a) (pos b) h = ground arith

pub ℤ-cases : (z : ℤ) → ((n : ℕ) × (z ≡ pos n)) ⊎ ((n : ℕ) × (z ≡ negsuc n))
ℤ-cases (pos n) = inl (n, refl)
ℤ-cases (negsuc n) = inr (n, refl)
