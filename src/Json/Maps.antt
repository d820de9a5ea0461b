-- ===== src/Json/Maps.antt =====
-- How a body is built: fields that are set are inserted one after another into a `serde_json::Map`,
-- and those that are unset are left out.
use mathlib.Core.Option
use tricoredb_sdk_rust.Common.{
  ℕ, ltb, ◌≡◌, inl, inr, refl, ap, subst, ◌∙◌, false, Bool-cases, List, [], ◌∷◌, map, Option, none,
  some, filter_option, Text, text_eq, text_eq_refl, text_eq_iff, text_lt, if◌then◌else◌,
}
use tricoredb_sdk_rust.Json.{
  Value, Number, Fields, field, end, obj, null, string, array, num, number, is_finite, find_field,
  insert_field,
}

-- A key, and its value where it has one.
abbrev pub Entry : Type 0
Entry = Text × Option Value

-- A key that is always sent.
abbrev pub entry : Text → Value → Entry
entry k v = (k, some v)

unfoldable pub put_field : Text → Option Value → Fields → Fields
put_field k none fs = fs
put_field k (some v) fs = insert_field k v fs

-- `put` and `Map::insert`, one call for each entry in turn.
unfoldable pub fill : List Entry → Fields → Fields
fill [] fs = fs
fill (e ∷ es) fs = fill es (put_field e.0 e.1 fs)

-- What the calls leave under a key: the value set last, or else what stood there before.
unfoldable pub last_set : Text → List Entry → Option Value → Option Value
last_set k [] d = d
last_set k ((j, none) ∷ es) d = last_set k es d
last_set k ((j, some v) ∷ es) d = last_set k es (if text_eq j k then some v else d)

find-insert_same :
    (k : Text) (v : Value) (fs : Fields) → find_field k (insert_field k v fs) ≡ some v
unfolding find_field insert_field
find-insert_same k v end = rw (text_eq_refl k) refl
find-insert_same k v (field j w fs) = elim (Bool-cases (text_eq j k)) [
  | inl p ↦ rw p (rw (text_eq_refl k) refl)
  | inr p ↦ elim (Bool-cases (text_lt k j)) [
    | inl q ↦ rw (p, q) (rw (text_eq_refl k) refl)
    | inr q ↦ rw (p, q) (rw p (find-insert_same k v fs))
  ]
]

find-insert_other :
    (i k : Text) (v : Value) (fs : Fields)
    → text_eq k i ≡ false
    → find_field i (insert_field k v fs) ≡ find_field i fs
unfolding find_field insert_field
find-insert_other i k v end h = rw h refl
find-insert_other i k v (field j w fs) h = elim (Bool-cases (text_eq j k)) [
  | inl p ↦
      let same : j ≡ k = (text_eq_iff j k).0 p in
      let skip : text_eq j i ≡ false = ap (λ x. text_eq x i) same ∙ h in rw p (rw (h, skip) refl)
  | inr p ↦ elim (Bool-cases (text_lt k j)) [
    | inl q ↦ rw (p, q) (rw h refl)
    | inr q ↦ rw (p, q) (ap (λ o. if text_eq j i then some w else o) (find-insert_other i k v fs h))
  ]
]

find-insert :
    (i k : Text) (v : Value) (fs : Fields)
    → find_field i (insert_field k v fs) ≡ (if text_eq k i then some v else find_field i fs)
find-insert i k v fs = elim (Bool-cases (text_eq k i)) [
  | inl p ↦ rw p (
      subst (λ x. find_field x (insert_field k v fs) ≡ some v) ((text_eq_iff k i).0 p)
        (find-insert_same k v fs))
  | inr p ↦ rw p (find-insert_other i k v fs p)
]

-- A body that is filled with entries holds, under each key, the value that was set last, and nothing
-- under a key that no set entry names.
pub find_field-fill :
    (k : Text) (es : List Entry) (fs : Fields)
    → find_field k (fill es fs) ≡ last_set k es (find_field k fs)
unfolding fill put_field last_set
find_field-fill k [] fs = refl
find_field-fill k ((j, none) ∷ es) fs = find_field-fill k es fs
find_field-fill k ((j, some v) ∷ es) fs =
    find_field-fill k es (insert_field j v fs) ∙ ap (last_set k es) (find-insert k j v fs)

-- `json!` of an `Option`.
abbrev pub or_null : {A : Type 0} → (A → Value) → Option A → Value
or_null write none = null
or_null write (some a) = write a

-- A bound that is zero counts as unset: `filter(|n| *n > 0)`.
abbrev pub positive : Option ℕ → Option Value
positive bound = Option.map num (filter_option (λ n. ltb 0 n) bound)

abbrev pub texts : List Text → Value
texts ts = array (map string ts)

-- An `f64` without a number of JSON is null.
pub float_value : ℕ → Value
float_value bits = if is_finite bits then number (Number.float bits) else null

-- `json!` of an object.
pub object : List Entry → Value
object es = obj (fill es end)
