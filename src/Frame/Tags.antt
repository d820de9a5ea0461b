-- ===== src/Frame/Tags.antt =====
-- The wire bytes of tags, and the length field.
use tricoredb_sdk_rust.Common.{ℕ, ◌^◌, ◌<◌, ◌≡◌, ◌↔◌, refl, [], ◌∷◌, some, arith}
use tricoredb_sdk_rust.Frame.{
  Tag, as_u8, from_u8, max_payload, to_be_bytes, from_be_bytes, declared_len,
}

pub from_u8-as_u8 : (t : Tag) → from_u8 (as_u8 t) ≡ some t
unfolding from_u8 as_u8
from_u8-as_u8 Tag.hello = refl
from_u8-as_u8 _ = refl

pub from_u8-eq-some : (b : ℕ) (t : Tag) → from_u8 b ≡ some t → b ≡ as_u8 t
unfolding from_u8 as_u8
from_u8-eq-some b t h = ground arith

-- A wire byte stands for a tag exactly if it is the byte that the tag is sent as.
pub from_u8_iff : (b : ℕ) (t : Tag) → (from_u8 b ≡ some t) ↔ (b ≡ as_u8 t)
from_u8_iff b t = (from_u8-eq-some b t, λ e. rw e (from_u8-as_u8 t))

pub max_payload-lt : (t : Tag) → max_payload t < 2 ^ 32
unfolding max_payload
max_payload-lt Tag.hello = omega arith
max_payload-lt _ = omega arith

pub declared_len-to_be_bytes : (v b n : ℕ) → n < 2 ^ 32 → declared_len (v ∷ b ∷ to_be_bytes n) ≡ n
unfolding to_be_bytes from_be_bytes
declared_len-to_be_bytes v b n h = omega arith

pub to_be_bytes-from_be_bytes :
    (a b c d : ℕ)
    → a < 256
    → b < 256
    → c < 256
    → d < 256
    → to_be_bytes (from_be_bytes a b c d) ≡ a ∷ b ∷ c ∷ d ∷ []
unfolding to_be_bytes from_be_bytes
to_be_bytes-from_be_bytes a b c d ha hb hc hd = ground arith
