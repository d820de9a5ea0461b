-- ===== src/Json.antt =====
-- The values of serde_json that the client builds and reads: `Value`, `Number` and `Map`.
-- An `f64` is its bit pattern. A map is its entries in key order, as in a `BTreeMap`.
pub mod Maps
mod Tests
use tricoredb_sdk_rust.Common.{
  ℕ, ◌/◌, ◌%◌, ◌^◌, ◌≡◌, refl, sym, ap, ◌∙◌, Bool, true, false, List, [], ◌∷◌, Option, none, some,
  Text, text_eq, text_lt, ◌==◌, not, if◌then◌else◌,
}

pub data Number : Type 0 where
  pos_int : ℕ → Number
  neg_int : ℕ → Number
  float : ℕ → Number

mutual
  pub data Value : Type 0 where
    null : Value
    bool : Bool → Value
    number : Number → Value
    string : Text → Value
    arr : Items → Value
    obj : Fields → Value

  pub data Items : Type 0 where
    nil : Items
    cons : Value → Items → Items

  pub data Fields : Type 0 where
    end : Fields
    field : Text → Value → Fields → Fields

abbrev pub to_list : Items → List Value
to_list nil = []
to_list (cons v vs) = v ∷ to_list vs

abbrev pub of_list : List Value → Items
of_list [] = nil
of_list (v ∷ vs) = cons v (of_list vs)

pub to_list-of_list : (vs : List Value) → to_list (of_list vs) ≡ vs
to_list-of_list [] = refl
to_list-of_list (v ∷ vs) = ap (◌∷◌ v) (to_list-of_list vs)

-- `Value::as_array`.
abbrev pub as_array : Value → Option (List Value)
as_array (arr xs) = some (to_list xs)
as_array _ = none

-- `Value::as_str`.
abbrev pub as_str : Value → Option Text
as_str (string s) = some s
as_str _ = none

-- `Value::as_u64`.
abbrev pub as_u64 : Value → Option ℕ
as_u64 (number (pos_int n)) = some n
as_u64 _ = none

unfoldable pub find_field : Text → Fields → Option Value
find_field k end = none
find_field k (field j v fs) = if text_eq j k then some v else find_field k fs

-- `Value::get` with a key.
abbrev pub get : Value → Text → Option Value
get (obj fs) k = find_field k fs
get _ k = none

-- `Map::insert`: the entries stay in key order.
unfoldable pub insert_field : Text → Value → Fields → Fields
insert_field k v end = field k v end
insert_field k v (field j w fs) =
    let later = insert_field k v fs in
    if text_eq j k
    then field k v fs
    else if text_lt k j
    then field k v (field j w fs)
    else field j w later

-- `Map::is_empty`.
abbrev pub is_empty_map : Fields → Bool
is_empty_map end = true
is_empty_map _ = false

-- `json!` of an array.
abbrev pub array : List Value → Value
array vs = arr (of_list vs)

-- `json!` of an object with one field.
abbrev pub tagged : Text → Value → Value
tagged k v = obj (field k v end)

abbrev pub num : ℕ → Value
num n = number (pos_int n)

-- `f64::is_finite`: the exponent bits are not all set.
unfoldable pub is_finite : ℕ → Bool
is_finite bits = not (bits / 2 ^ 52 % 2 ^ 11 == 2047)

pub of_list-to_list : (xs : Items) → of_list (to_list xs) ≡ xs
of_list-to_list nil = refl
of_list-to_list (cons v vs) = ap (cons v) (of_list-to_list vs)

-- Only an array is read as one.
pub as_array-eq-some : (v : Value) (vs : List Value) → as_array v ≡ some vs → v ≡ array vs
as_array-eq-some (arr xs) vs h =
    let e : to_list xs ≡ vs = cc in ap arr (sym (of_list-to_list xs)) ∙ ap array e
as_array-eq-some null vs h = cc
as_array-eq-some (bool b) vs h = cc
as_array-eq-some (number n) vs h = cc
as_array-eq-some (string s) vs h = cc
as_array-eq-some (obj fs) vs h = cc
