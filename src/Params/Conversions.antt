-- ===== src/Params/Conversions.antt =====
-- params.rs: the conversions into a parameter. The widening of an integer keeps its value, and that
-- of a single float is a parameter.
use tricoredb_sdk_rust.Common.{ℕ, Bool, List, Option, none, some, Text}
use tricoredb_sdk_rust.Common.Int.{ℤ}
use tricoredb_sdk_rust.Params.{Param, null, bool, int, uint, float, bytes, text}

-- `Param::bytes`.
abbrev bytes_of : List ℕ → Param
bytes_of bs = bytes bs

-- `Param::text`.
abbrev text_of : Text → Param
text_of t = text t

-- `from_int!(Int, i128, ...)` and `From<isize>`.
abbrev from_int : ℤ → Param
from_int i = int i

-- `from_int!(UInt, u128, ...)` and `From<usize>`.
abbrev from_uint : ℕ → Param
from_uint u = uint u

abbrev from_bool : Bool → Param
from_bool b = bool b

abbrev from_f64 : ℕ → Param
from_f64 f = float f

-- The first argument is `f64::from`, on bit patterns.
abbrev from_f32 : (ℕ → ℕ) → ℕ → Param
from_f32 widen f = float (widen f)

abbrev from_str : Text → Param
from_str t = text t

abbrev from_byte_slice : List ℕ → Param
from_byte_slice bs = bytes bs

-- `From<Option<T>>`, for a `T` that converts.
abbrev from_option {ℓ} : {T : Type ℓ} → (T → Param) → Option T → Param
from_option into none = null
from_option into (some v) = into v
