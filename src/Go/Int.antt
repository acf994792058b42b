-- ===== src/Go/Int.antt =====
-- The integers of Go by their sign, over the native numbers.
use personal_memory.Prelude.{
  ◌+◌, ◌-◌, ◌%◌, ◌<◌, ◌≡◌, Bool, false, leb, true, ℕ, if◌then◌else◌, ltb, refl, arith,
}

pub data ℤ : Type 0 where
  pos negsuc : ℕ → ℤ

-- a <= b
unfoldable pub int_leb : ℤ → ℤ → Bool
int_leb (pos m) (pos n) = leb m n
int_leb (pos m) (negsuc n) = false
int_leb (negsuc m) (pos n) = true
int_leb (negsuc m) (negsuc n) = leb n m

-- The residue of an int of 64 bits, and the int of a residue
abbrev pub residue : ℤ → ℕ
residue (pos n) = n % 18446744073709551616
residue (negsuc n) = 18446744073709551615 - n % 18446744073709551616

abbrev pub of_residue : ℕ → ℤ
of_residue r = if ltb r 9223372036854775808 then pos r else negsuc (18446744073709551615 - r)

-- a + b of two ints, which wraps around
unfoldable pub int_add : ℤ → ℤ → ℤ
int_add a b = of_residue ((residue a + residue b) % 18446744073709551616)

int_add_wraps : int_add (pos 9223372036854775807) (pos 1) ≡ negsuc 9223372036854775807
unfolding int_add
int_add_wraps = refl

int_add_negative : int_add (negsuc 1) (pos 5) ≡ pos 3
unfolding int_add
int_add_negative = refl

-- Two natural numbers are added as such if the sum is an int.
pub int_add-pos : (m n : ℕ) → m + n < 9223372036854775808 → int_add (pos m) (pos n) ≡ pos (m + n)
unfolding int_add
int_add-pos m n h = ground arith
