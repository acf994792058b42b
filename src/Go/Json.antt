-- ===== src/Go/Json.antt =====
-- `interface{}` as encoding/json and the handlers fill it. A map is the list of its entries; the
-- program only looks keys up, sets and deletes them, so the order of entries is never observed.
pub mod Laws
use text.Mathlib.Text.{◌==◌ as str_eq}
use personal_memory.Prelude.{String, Bool, Option, none, some, List, [], ◌∷◌, if◌then◌else◌}
use personal_memory.Go.Text.{Text}
use personal_memory.Go.Float.{Float}

mutual
  pub data Value : Type 0 where
    null : Value
    bool : Bool → Value
    str : Text → Value
    -- json.Number, the literal's text
    number : Text → Value
    float : Float → Value
    arr : Items → Value
    -- []string
    strs : List Text → Value
    obj : Fields → Value

  pub data Items : Type 0 where
    nil : Items
    cons : Value → Items → Items

  pub data Fields : Type 0 where
    end : Fields
    field : String → Value → Fields → Fields

-- m[k], with the second result of `v, ok := m[k]` as the Option
unfoldable pub get : String → Fields → Option Value
get k end = none
get k (field j v m) = if str_eq j k then some v else get k m

-- delete(m, k)
unfoldable pub delete : String → Fields → Fields
delete k end = end
delete k (field j v m) = let rest = delete k m in if str_eq j k then rest else field j v rest

-- m[k] = v
unfoldable pub set : String → Value → Fields → Fields
unfolding delete
set k v m = field k v (delete k m)

-- for k, v := range n { m[k] = v }
unfoldable pub set_all : Fields → Fields → Fields
unfolding set
set_all end m = m
set_all (field k v n) m = set k v (set_all n m)

-- The strings of a []string, each as an interface{}.
unfoldable pub items_of : List Text → Items
items_of [] = nil
items_of (t ∷ ts) = cons (str t) (items_of ts)
