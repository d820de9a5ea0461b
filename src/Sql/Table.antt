-- ===== src/Sql/Table.antt =====
-- A cell by name, and a row as a map, of `Rows` in sql.rs.
use tricoredb_sdk_rust.Common.{
  ℕ, zero, suc, ◌≡◌, refl, sym, subst, ◌∙◌, false, Bool-cases, inl, inr, List, [], ◌∷◌, map, All,
  Option, none, some, Text, text_eq, text_eq_iff, get_elem?, if◌then◌else◌,
}
use tricoredb_sdk_rust.Sql.{Rows, get, position, cell, one_more}

-- `columns.iter().zip(row.iter())`.
pub zip_row : List Text → List Text → List (Text × Text)
zip_row (c ∷ cs) (v ∷ vs) = (c, v) ∷ zip_row cs vs
zip_row _ _ = []

-- `Rows::maps`: each row's entries, in the order in which they are collected into a map.
pub maps : Rows → List (List (Text × Text))
unfolding zip_row
maps t = map (λ row. zip_row t.columns row) t.rows

abbrev or_else : Option Text → Option Text → Option Text
or_else none later = later
or_else (some v) later = some v

-- What a `HashMap` that was collected from entries holds under a key: the value that came last.
pub last_value : Text → List (Text × Text) → Option Text
last_value k [] = none
last_value k ((c, v) ∷ entries) =
    or_else (last_value k entries) (if text_eq c k then some v else none)

pub map_value : Text → Option (List (Text × Text)) → Option Text
map_value k none = none
map_value k (some entries) = last_value k entries

-- No name occurs twice.
abbrev pub Distinct : List Text → Type 0
Distinct [] = Unit
Distinct (c ∷ cs) = All (λ d. text_eq d c ≡ false) cs × Distinct cs

last_value-absent :
    (k : Text) (cs vs : List Text)
    → All (λ d. text_eq d k ≡ false) cs
    → last_value k (zip_row cs vs) ≡ none
unfolding last_value zip_row
last_value-absent k [] vs h = refl
last_value-absent k (c ∷ cs) [] h = refl
last_value-absent k (c ∷ cs) (v ∷ vs) h = rw (last_value-absent k cs vs h.1, h.0) refl

cell-nil : (i : Option ℕ) → cell (some []) i ≡ none
unfolding cell
cell-nil none = refl
cell-nil (some zero) = refl
cell-nil (some (suc i)) = refl

cell-one_more :
    (v : Text) (vs : List Text) (i : Option ℕ)
    → cell (some (v ∷ vs)) (one_more i) ≡ cell (some vs) i
unfolding cell one_more
cell-one_more v vs none = refl
cell-one_more v vs (some i) = refl

or_else-none : (o : Option Text) → or_else o none ≡ o
or_else-none none = refl
or_else-none (some v) = refl

cell-last_value :
    (k : Text) (cs vs : List Text)
    → Distinct cs
    → cell (some vs) (position k cs) ≡ last_value k (zip_row cs vs)
unfolding position cell last_value zip_row
cell-last_value k [] vs h = refl
cell-last_value k (c ∷ cs) [] h = cell-nil _
cell-last_value k (c ∷ cs) (v ∷ vs) h = elim (Bool-cases (text_eq c k)) [
  | inl p ↦
      let absent : last_value k (zip_row cs vs) ≡ none =
        last_value-absent k cs vs
          (subst (λ x. All (λ d. text_eq d x ≡ false) cs) ((text_eq_iff c k).0 p) h.0) in
      rw (p, absent) refl
  | inr p ↦ rw p (
      cell-one_more v vs (position k cs)
      ∙ cell-last_value k cs vs h.1
      ∙ sym (or_else-none (last_value k (zip_row cs vs))))
]

cell-maps :
    (k : Text) (cs : List Text) (rows : List (List Text)) (i : ℕ)
    → Distinct cs
    → cell (get_elem? rows i) (position k cs)
      ≡ map_value k (get_elem? (map (λ row. zip_row cs row) rows) i)
unfolding cell map_value
cell-maps k cs [] i h = refl
cell-maps k cs (row ∷ rows) zero h = cell-last_value k cs row h
cell-maps k cs (row ∷ rows) (suc i) h = cell-maps k cs rows i h

-- Where no column name occurs twice, the value that a row's map holds for a column is the cell that
-- is got by the row's number and the column's name, and neither is there without the other.
pub get-maps :
    (t : Rows) (i : ℕ) (column : Text)
    → Distinct t.columns
    → get t i column ≡ map_value column (get_elem? (maps t) i)
unfolding get maps
get-maps t i column h = cell-maps column t.columns t.rows i h
