-- ===== src/Go/Float.antt =====
-- A Go `float64`. Every finite one is a whole multiple of 2 ^ -1074, so it is kept exactly, as a
-- sign and the number of those units; the program compares such values and never adds them here.
use personal_memory.Prelude.{ℕ, ◌+◌, ◌*◌, ◌^◌, ◌≡◌, refl, Bool, true, false, not, ◌&&◌, arith, ltb}

pub data Float : Type 0 where
  nan : Float
  infinite : Bool → Float
  finite : Bool → ℕ → Float

-- How many units make 1.
unfoldable pub one : ℕ
one = 2 ^ 1074

-- !math.IsNaN(x) && !math.IsInf(x, 0)
abbrev pub is_finite : Float → Bool
is_finite (finite _ _) = true
is_finite _ = false

-- `<` between two finite values; both zeros are one number.
abbrev pub finite_lt : Bool → ℕ → Bool → ℕ → Bool
finite_lt true m true n = ltb n m
finite_lt true m false n = ltb 0 (m + n)
finite_lt false m true n = false
finite_lt false m false n = ltb m n

unfoldable pub float_lt : Float → Float → Bool
float_lt (finite s m) (finite t n) = finite_lt s m t n
float_lt (infinite s) (infinite t) = s && not t
float_lt (infinite s) (finite _ _) = s
float_lt (finite _ _) (infinite t) = not t
float_lt _ _ = false

unfoldable pub float_eq : Float → Float → Bool
float_eq (finite s m) (finite t n) = not (finite_lt s m t n) && not (finite_lt t n s m)
float_eq (infinite true) (infinite true) = true
float_eq (infinite false) (infinite false) = true
float_eq _ _ = false

-- A whole number as a float.
unfoldable pub of_nat : ℕ → Float
unfolding one
of_nat n = finite false (n * one)

pub float_lt_irrefl : (a : Float) → float_lt a a ≡ false
unfolding float_lt
float_lt_irrefl nan = refl
float_lt_irrefl (infinite true) = refl
float_lt_irrefl (infinite false) = refl
float_lt_irrefl (finite true m) = ground arith
float_lt_irrefl (finite false m) = ground arith

pub float_lt_asymm : (a b : Float) → float_lt a b ≡ true → float_lt b a ≡ false
unfolding float_lt
float_lt_asymm (finite true m) (finite true n) h = ground arith
float_lt_asymm (finite true m) (finite false n) h = ground arith
float_lt_asymm (finite false m) (finite true n) h = ground arith
float_lt_asymm (finite false m) (finite false n) h = ground arith
float_lt_asymm a b h = ground arith

-- Between finite values the failure of `<` is transitive.
pub float_lt_negtrans :
    (a b c : Float)
    → is_finite a ≡ true
    → is_finite b ≡ true
    → is_finite c ≡ true
    → float_lt b a ≡ false
    → float_lt c b ≡ false
    → float_lt c a ≡ false
unfolding float_lt
float_lt_negtrans (finite true m) (finite true n) (finite true k) _ _ _ h j = ground arith
float_lt_negtrans (finite true m) (finite true n) (finite false k) _ _ _ h j = ground arith
float_lt_negtrans (finite true m) (finite false n) (finite true k) _ _ _ h j = ground arith
float_lt_negtrans (finite true m) (finite false n) (finite false k) _ _ _ h j = ground arith
float_lt_negtrans (finite false m) (finite true n) (finite true k) _ _ _ h j = ground arith
float_lt_negtrans (finite false m) (finite true n) (finite false k) _ _ _ h j = ground arith
float_lt_negtrans (finite false m) (finite false n) (finite true k) _ _ _ h j = ground arith
float_lt_negtrans (finite false m) (finite false n) (finite false k) _ _ _ h j = ground arith
float_lt_negtrans a b c fa fb fc h j = cc

-- On finite values `!=` is exactly "one is less than the other".
pub float_eq-float_lt :
    (a b : Float)
    → is_finite a ≡ true
    → is_finite b ≡ true
    → float_eq a b ≡ (not (float_lt a b) && not (float_lt b a))
unfolding float_lt float_eq
float_eq-float_lt (finite s m) (finite t n) _ _ = refl
float_eq-float_lt a b fa fb = cc
