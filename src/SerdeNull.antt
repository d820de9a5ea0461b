-- ===== src/SerdeNull.antt =====
-- serde_null.rs: a null read as the default of its type. The reader of an optional value, which
-- serde provides, and the default are parameters.
use tricoredb_sdk_rust.Common.{◌⊎◌, inl, inr, Option, unwrap_or}

-- `unwrap_or_default`, behind the error of the reader.
abbrev defaulted {ℓ} : {E T : Type ℓ} → T → E ⊎ Option T → E ⊎ T
defaulted default (inl e) = inl e
defaulted default (inr v) = inr (unwrap_or v default)

abbrev or_default {ℓ} : {D E T : Type ℓ} → (D → E ⊎ Option T) → T → D → E ⊎ T
or_default deserialize default d = defaulted default (deserialize d)
