-- ===== src/Document/Updates/Building.antt =====
-- What an update holds after any sequence of `set` and `inc`.
use tricoredb_sdk_rust.Common.{
  ◌≡◌, ◌↔◌, refl, ap, ◌∙◌, inl, inr, Bool, true, false, Bool-cases, ◌&&◌, List, [], ◌∷◌, none, Text,
  text_eq, text_lt,
}
use tricoredb_sdk_rust.Json.{Value, Fields, field, end, find_field, insert_field, is_empty_map}
use tricoredb_sdk_rust.Json.Maps.{Entry, entry, fill, put_field, last_set, find_field-fill}
use tricoredb_sdk_rust.Document.Updates.{
  DocumentUpdate, new_update, set_path, inc_path, is_empty_update,
}

-- One call on the builder.
pub data UpdateStep : Type 0 where
  set_to : Text → Value → UpdateStep
  inc_by : Text → Value → UpdateStep

abbrev applied : UpdateStep → DocumentUpdate → DocumentUpdate
applied (set_to path v) u = set_path path v u
applied (inc_by path v) u = inc_path path v u

abbrev pub applied_all : List UpdateStep → DocumentUpdate → DocumentUpdate
applied_all [] u = u
applied_all (step ∷ steps) u = applied_all steps (applied step u)

-- The paths that are set, and those that are incremented, in the order of the calls.
abbrev pub sets_of : List UpdateStep → List Entry
sets_of [] = []
sets_of (set_to path v ∷ steps) = entry path v ∷ sets_of steps
sets_of (inc_by path v ∷ steps) = sets_of steps

abbrev pub incs_of : List UpdateStep → List Entry
incs_of [] = []
incs_of (set_to path v ∷ steps) = incs_of steps
incs_of (inc_by path v ∷ steps) = entry path v ∷ incs_of steps

set-fill :
    (steps : List UpdateStep) (u : DocumentUpdate)
    → (applied_all steps u).set ≡ fill (sets_of steps) u.set
unfolding fill put_field set_path inc_path
set-fill [] u = refl
set-fill (set_to path v ∷ steps) u = set-fill steps (set_path path v u)
set-fill (inc_by path v ∷ steps) u = set-fill steps (inc_path path v u)

inc-fill :
    (steps : List UpdateStep) (u : DocumentUpdate)
    → (applied_all steps u).inc ≡ fill (incs_of steps) u.inc
unfolding fill put_field set_path inc_path
inc-fill [] u = refl
inc-fill (set_to path v ∷ steps) u = inc-fill steps (set_path path v u)
inc-fill (inc_by path v ∷ steps) u = inc-fill steps (inc_path path v u)

insert-is_empty : (k : Text) (v : Value) (fs : Fields) → is_empty_map (insert_field k v fs) ≡ false
unfolding insert_field
insert-is_empty k v end = refl
insert-is_empty k v (field j w fs) = elim (Bool-cases (text_eq j k)) [
  | inl p ↦ rw p refl
  | inr p ↦ elim (Bool-cases (text_lt k j)) [ inl q ↦ rw (p, q) refl | inr q ↦ rw (p, q) refl ]
]

and_false : (b : Bool) → (b && false) ≡ false
and_false true = refl
and_false false = refl

applied-is_empty :
    (step : UpdateStep) (u : DocumentUpdate) → is_empty_update (applied step u) ≡ false
unfolding is_empty_update set_path inc_path
applied-is_empty (set_to path v) u = rw (insert-is_empty path v u.set) refl
applied-is_empty (inc_by path v) u =
    rw (insert-is_empty path v u.inc) (and_false (is_empty_map u.set))

steps-is_empty :
    (steps : List UpdateStep) (u : DocumentUpdate)
    → is_empty_update u ≡ false
    → is_empty_update (applied_all steps u) ≡ false
steps-is_empty [] u h = h
steps-is_empty (step ∷ steps) u h = steps-is_empty steps (applied step u) (applied-is_empty step u)

no_steps-is_empty :
    (steps : List UpdateStep)
    → (is_empty_update (applied_all steps new_update) ≡ true) ↔ (steps ≡ [])
unfolding new_update is_empty_update
no_steps-is_empty [] = (λ h. refl, λ h. refl)
no_steps-is_empty (step ∷ steps) =
    let filled : is_empty_update (applied_all steps (applied step new_update)) ≡ false =
      steps-is_empty steps (applied step new_update) (applied-is_empty step new_update) in
    (λ h. cc, λ h. cc)

-- An update holds, for each path, the value of the last `set` and of the last `inc` that named it,
-- and nothing else; and it counts as empty, and so is refused, exactly if neither was called.
pub built_update :
    (steps : List UpdateStep) (path : Text)
    → (find_field path (applied_all steps new_update).set ≡ last_set path (sets_of steps) none)
      × (find_field path (applied_all steps new_update).inc ≡ last_set path (incs_of steps) none)
      × ((is_empty_update (applied_all steps new_update) ≡ true) ↔ (steps ≡ []))
unfolding new_update find_field
built_update steps path = (
  ap (find_field path) (set-fill steps new_update) ∙ find_field-fill path (sets_of steps) end,
  ap (find_field path) (inc-fill steps new_update) ∙ find_field-fill path (incs_of steps) end,
  no_steps-is_empty steps,
)
