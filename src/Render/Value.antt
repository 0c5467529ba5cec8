-- ===== src/Render/Value.antt =====
-- Go's `any` as JSON and YAML decode into it. A `map[string]any` is the list of its entries; numbers
-- are their text.
use rpc_operator.Prelude.{
  String, ◌≡◌, refl, Bool, Option, none, some, ◌==◌, if◌then◌else◌, arith, eq_iff,
}

mutual
  -- the entries of a map
  pub data Fields : Type 0 where
    end : Fields
    field : String → Value → Fields → Fields

  pub data Value : Type 0 where
    obj : Fields → Value
    arr : Items → Value
    str num : String → Value
    bool : Bool → Value
    null : Value

  -- the elements of an array
  pub data Items : Type 0 where
    nil : Items
    cons : Value → Items → Items

-- `m[key]`
unfoldable pub get : String → Fields → Option Value
get key end = none
get key (field k v fs) = if k == key then some v else get key fs

-- `m[key] = v`
unfoldable pub put : String → Value → Fields → Fields
put key v end = field key v end
put key v (field k w fs) = if k == key then field key v fs else field k w (put key v fs)

-- `delete(m, key)`
unfoldable pub delete : String → Fields → Fields
delete key end = end
delete key (field k w fs) = let rest = delete key fs in if k == key then rest else field k w rest

pub get-put :
    (j key : String) (v : Value) (fs : Fields)
    → get j (put key v fs) ≡ (if key == j then some v else get j fs)
unfolding get put
get-put j key v end = refl
get-put j key v (field k w fs) =
    ground (arith, eq_iff k key, eq_iff k j, eq_iff key j, get-put j key v fs)

pub get-delete :
    (j key : String) (fs : Fields) → get j (delete key fs) ≡ (if key == j then none else get j fs)
unfolding get delete
get-delete j key end = ground arith
get-delete j key (field k w fs) =
    ground (arith, eq_iff k key, eq_iff k j, eq_iff key j, get-delete j key fs)
