-- ===== src/Json.antt =====
-- The `serde_json` values that the program reads and builds, and MySQL's `JSON_SET` on a payload.
-- A number is an integer or the 64 bits of an `f64`.
use claude_job_runner.Prelude.{
  ℕ, ◌≡◌, refl, Bool, Option, none, some, List, [], ◌∷◌, arith, leb, if◌then◌else◌, ℤ, pos, negsuc,
  max_i64, Str, eq_str, eq_str_iff,
}

pub data Number : Type 0 where
  int : ℤ → Number
  float : ℕ → Number

mutual
  pub data Value : Type 0 where
    null : Value
    bool : Bool → Value
    num : Number → Value
    str : Str → Value
    array : Items → Value
    object : Fields → Value

  pub data Items : Type 0 where
    nil : Items
    cons : Value → Items → Items

  pub data Fields : Type 0 where
    end : Fields
    field : Str → Value → Fields → Fields

unfoldable pub lookup : Str → Fields → Option Value
lookup k end = none
lookup k (field j v fs) = if eq_str j k then some v else lookup k fs

-- `Value::get(key)`
unfoldable pub get : Value → Str → Option Value
unfolding lookup
get (object fs) k = lookup k fs
get _ k = none

-- `value[key]`, which is `Null` where the key is missing
unfoldable pub index : Value → Str → Value
unfolding get
index v k = elim (get v k) [ none ↦ null | some w ↦ w ]

unfoldable pub as_i64 : Value → Option ℤ
as_i64 (num (int (pos n))) = if leb n max_i64 then some (pos n) else none
as_i64 (num (int (negsuc n))) = some (negsuc n)
as_i64 _ = none

unfoldable pub as_str : Value → Option Str
as_str (str s) = some s
as_str _ = none

unfoldable pub as_bool : Value → Option Bool
as_bool (bool b) = some b
as_bool _ = none

unfoldable pub items : Items → List Value
items nil = []
items (cons v vs) = v ∷ items vs

unfoldable pub from_list : List Value → Items
from_list [] = nil
from_list (v ∷ vs) = cons v (from_list vs)

-- `json!({k: v, ...})`
unfoldable pub from_fields : List (Str × Value) → Fields
from_fields [] = end
from_fields ((k, v) ∷ kvs) = field k v (from_fields kvs)

-- The value of one key replaced, or added at the end.
unfoldable pub put : Str → Value → Fields → Fields
put k v end = field k v end
put k v (field j w fs) = if eq_str j k then field j v fs else field j w (put k v fs)

-- `JSON_SET(doc, '$.key', v)`: a document that is no object has no such path and stays as it is.
unfoldable pub json_set : Value → Str → Value → Value
unfolding put
json_set (object fs) k v = object (put k v fs)
json_set doc k v = doc

pub lookup-put :
    (k j : Str) (v : Value) (fs : Fields)
    → lookup j (put k v fs) ≡ (if eq_str k j then some v else lookup j fs)
unfolding lookup put
lookup-put k j v end = refl
lookup-put k j v (field i w fs) =
    ground (arith, eq_str_iff k j, eq_str_iff i k, eq_str_iff i j, lookup-put k j v fs)

pub items-from_list : (vs : List Value) → items (from_list vs) ≡ vs
unfolding items from_list
items-from_list [] = refl
items-from_list (v ∷ vs) = rw (items-from_list vs)
