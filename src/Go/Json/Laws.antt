-- ===== src/Go/Json/Laws.antt =====
-- Laws of map access: get after set, delete and a loop of sets.
use text.Mathlib.Text.{◌==◌ as str_eq}
use text.Mathlib.TextEquality.{eq_iff}
use personal_memory.Prelude.{String, ◌≡◌, refl, Option, none, some, if◌then◌else◌, arith}
use personal_memory.Go.Json.{Value, Fields, end, field, get, set, set_all, delete}

pub get-delete :
    (k j : String) (m : Fields) → get j (delete k m) ≡ (if str_eq k j then none else get j m)
unfolding get delete
get-delete k j end = ground arith
get-delete k j (field i v m) = ground (arith, get-delete k j m, eq_iff i k, eq_iff i j, eq_iff k j)

pub get-set :
    (k j : String) (v : Value) (m : Fields)
    → get j (set k v m) ≡ (if str_eq k j then some v else get j m)
unfolding get set
get-set k j v m = ground (arith, get-delete k j m)

-- The first value if there is one.
abbrev pub or_else : Option Value → Option Value → Option Value
or_else none b = b
or_else (some v) b = some v

pub get-set_all : (j : String) (n m : Fields) → get j (set_all n m) ≡ or_else (get j n) (get j m)
unfolding get set_all
get-set_all j end m = refl
get-set_all j (field k v n) m = ground (arith, get-set k j v (set_all n m), get-set_all j n m)
