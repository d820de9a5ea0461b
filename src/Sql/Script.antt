-- ===== src/Sql/Script.antt =====
-- sql.rs: the script of a whole transaction that is sent as one request.
pub mod Brackets
mod Tests
use tricoredb_sdk_rust.Common.{
  ℕ, ◌+◌, ◌-◌, Bool, true, false, not, ◌&&◌, ◌||◌, List, [], ◌∷◌, ◌++◌, map, Text, codes, text_eq,
  leb, ◌==◌, is_empty, if◌then◌else◌,
}
use mathlib.Core.List.{reverse}
use tricoredb_sdk_rust.Failure.{Error, Result, ok, err, invalid, ◌>>=◌}
use tricoredb_sdk_rust.Params.{Param}

pub record Statement : Type 0 where
  pub sql : Text
  pub params : List Param

-- `Statement::new`.
new_statement : Text → Statement
new_statement sql = record { sql = sql; params = [] }

with_params : Text → List Param → Statement
with_params sql params = record { sql = sql; params = params }

-- `char::is_whitespace`: Unicode's White_Space.
is_whitespace : ℕ → Bool
is_whitespace c =
    (leb 9 c && leb c 13)
    || c == 32
    || c == 0x85
    || c == 0xa0
    || c == 0x1680
    || (leb 0x2000 c && leb c 0x200a)
    || c == 0x2028
    || c == 0x2029
    || c == 0x202f
    || c == 0x205f
    || c == 0x3000

trim_start_by : (ℕ → Bool) → Text → Text
trim_start_by p [] = []
trim_start_by p (c ∷ s) = if p c then trim_start_by p s else c ∷ s

trim_end_by : (ℕ → Bool) → Text → Text
trim_end_by p s = reverse (trim_start_by p (reverse s))

-- `str::trim`.
trim : Text → Text
unfolding trim_start_by trim_end_by
trim s = trim_end_by is_whitespace (trim_start_by is_whitespace s)

-- `sql.trim().trim_end_matches(';').trim()`
pub statement_text : Text → Text
unfolding trim is_whitespace
statement_text sql = trim (trim_end_by (λ c. c == b';') (trim sql))

to_ascii_uppercase : Text → Text
to_ascii_uppercase = map λ c. if leb b'a' c && leb c b'z' then c - 32 else c

-- The text up to the first white space.
word : Text → Text
word [] = []
word (c ∷ s) = if is_whitespace c then [] else c ∷ word s

-- `split_whitespace().next().unwrap_or_default()`, in capitals.
pub first_word : Text → Text
unfolding word trim_start_by is_whitespace to_ascii_uppercase
first_word s = to_ascii_uppercase (word (trim_start_by is_whitespace s))

pub is_control : Text → Bool
is_control w =
    text_eq w (codes "BEGIN")
    || text_eq w (codes "START")
    || text_eq w (codes "COMMIT")
    || text_eq w (codes "ROLLBACK")

pub part_of : Statement → Result Text
part_of statement =
    let t = statement_text statement.sql in
    if is_empty t
    then err (invalid (codes "every statement in a transaction must be non-empty SQL"))
    else if is_control (first_word t)
    then err (
        invalid (
          codes "transaction() brackets the script itself — remove the `"
          ++ (first_word t ++ codes "` statement")))
    else ok t

-- The loop over the statements: their texts, and their parameters in a row.
build_parts : List Statement → Result (List Text × List Param)
build_parts [] = ok ([], [])
build_parts (statement ∷ rest) =
    let later = build_parts rest in
    do t ← part_of statement; more ← later; ok (t ∷ more.0, statement.params ++ more.1)

-- `parts.join("; ")`.
pub join : List Text → Text
join [] = []
join (t ∷ []) = t
join (t ∷ u ∷ ts) = t ++ (codes "; " ++ join (u ∷ ts))

pub build_transaction_script : List Statement → Result (Text × List Param)
unfolding build_parts
build_transaction_script statements =
    if is_empty statements
    then err (invalid (codes "a transaction needs at least one statement"))
    else do
      parts ← build_parts statements
      ok (codes "BEGIN; " ++ (join parts.0 ++ codes "; COMMIT"), parts.1)
