-- ===== src/Sql/Script/Brackets.antt =====
-- What a transaction script holds, and which statements it refuses.
use tricoredb_sdk_rust.Common.{
  ◌≡◌, ◌≢◌, ◌↔◌, refl, sym, ap, ◌∙◌, inl, inr, false, List, [], ◌∷◌, ◌++◌, map, Text, codes, All,
  is_empty, arith, Bool-cases,
}
use tricoredb_sdk_rust.Failure.{ok, >>=-eq-ok, ok-injective}
use tricoredb_sdk_rust.Params.{Param}
use tricoredb_sdk_rust.Sql.Script.{
  Statement, statement_text, first_word, is_control, part_of, build_parts, join,
  build_transaction_script,
}

-- A statement that a script takes: it is not empty when trimmed, and its first word, in capitals, is
-- no transaction control.
abbrev pub IsPlain : Statement → Type 0
IsPlain st =
    (statement_text st.sql ≢ []) × (is_control (first_word (statement_text st.sql)) ≡ false)

abbrev pub all_params : List Statement → List Param
all_params [] = []
all_params (st ∷ sts) = st.params ++ all_params sts

abbrev pub texts : List Statement → List Text
texts = map λ st. statement_text st.sql

empty_iff : (t : Text) → is_empty t ≡ false → t ≢ []
empty_iff [] h = absurd (cc)
empty_iff (c ∷ t) h = λ e. cc

nonempty : (t : Text) → t ≢ [] → is_empty t ≡ false
nonempty [] h = absurd (h refl)
nonempty (c ∷ t) h = refl

part_of-IsPlain : (st : Statement) → IsPlain st → part_of st ≡ ok (statement_text st.sql)
unfolding part_of
part_of-IsPlain st (h, k) = rw (nonempty _ h) (rw k refl)

part_of-eq-ok :
    (st : Statement) (t : Text) → part_of st ≡ ok t → IsPlain st × (t ≡ statement_text st.sql)
unfolding part_of
part_of-eq-ok st t h = elim (Bool-cases (is_empty (statement_text st.sql))) [
  | inl e ↦ absurd (ground (arith, h, e))
  | inr e ↦ elim (Bool-cases (is_control (first_word (statement_text st.sql)))) [
    | inl f ↦ absurd (ground (arith, h, e, f))
    | inr f ↦ ((empty_iff _ e, f), ground (arith, h, e, f))
  ]
]

build_parts-IsPlain :
    (sts : List Statement) → All IsPlain sts → build_parts sts ≡ ok (texts sts, all_params sts)
unfolding build_parts
build_parts-IsPlain [] h = refl
build_parts-IsPlain (st ∷ sts) h = rw (part_of-IsPlain st h.0, build_parts-IsPlain sts h.1) refl

build_parts-eq-ok :
    (sts : List Statement) (out : List Text × List Param)
    → build_parts sts ≡ ok out
    → All IsPlain sts
unfolding build_parts
build_parts-eq-ok [] out h = tt
build_parts-eq-ok (st ∷ sts) out h =
    let (t, e, h1) = >>=-eq-ok (part_of st) _ h in
    let (more, f, h2) = >>=-eq-ok (build_parts sts) _ h1 in
    ((part_of-eq-ok st t e).0, build_parts-eq-ok sts more f)

-- A script is built exactly if there is a statement and every statement is plain; it brackets the
-- trimmed statements, in order, between BEGIN and COMMIT, and lists their parameters in that order.
pub build_transaction_script_iff :
    (sts : List Statement) (script : Text) (params : List Param)
    → (build_transaction_script sts ≡ ok (script, params)) ↔ (
        (sts ≢ [])
        × All IsPlain sts
        × (script ≡ codes "BEGIN; " ++ (join (texts sts) ++ codes "; COMMIT"))
        × (params ≡ all_params sts))
unfolding build_transaction_script
build_transaction_script_iff [] script params =
    (λ h. absurd (ground (arith, h)), λ h. absurd (h.0 refl))
build_transaction_script_iff (st ∷ sts) script params = (
  λ h.
      let (out, e, h1) = >>=-eq-ok (build_parts (st ∷ sts)) _ h in
      let plain = build_parts-eq-ok (st ∷ sts) out e in
      let same : out ≡ (texts (st ∷ sts), all_params (st ∷ sts)) =
        ok-injective (sym e ∙ build_parts-IsPlain (st ∷ sts) plain) in
      let pair : (script, params) ≡ (codes "BEGIN; " ++ (join out.0 ++ codes "; COMMIT"), out.1) =
        sym (ok-injective h1) in
      (
        λ z. cc,
        plain,
        ap (λ x. x.0) pair
            ∙ ap (λ (x : List Text × List Param). codes "BEGIN; " ++ (join x.0 ++ codes "; COMMIT"))
                same,
        ap (λ x. x.1) pair ∙ ap (λ (x : List Text × List Param). x.1) same,
      ),
  λ h. rw (build_parts-IsPlain (st ∷ sts) h.1) (rw (h.2, h.3) refl),
)
