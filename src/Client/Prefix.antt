-- ===== src/Client/Prefix.antt =====
-- client.rs: the prefix that makes the request ids of a connection its own.
pub mod Unique
mod Tests
use tricoredb_sdk_rust.Common.{
  ℕ, zero, suc, ◌+◌, ◌/◌, ◌%◌, ◌^◌, List, [], ◌∷◌, ◌++◌, Option, none, some, Text, ltb,
  if◌then◌else◌,
}
use tricoredb_sdk_rust.Environment.{Environment}

-- A digit of `{:x}`.
unfoldable pub hex_char : ℕ → ℕ
hex_char d = if ltb d 10 then 48 + d else 87 + d

-- Hexadecimal digits, most significant first; `n` has at most `n + 1` of them.
unfoldable pub hex_of : ℕ → ℕ → Text → Text
unfolding hex_char
hex_of zero n acc = acc
hex_of (suc fuel) n acc =
    let rest = hex_of fuel (n / 16) (hex_char (n % 16) ∷ acc) in
    if ltb n 16 then hex_char n ∷ acc else rest

-- `{:x}`.
unfoldable pub show_hex : ℕ → Text
unfolding hex_of
show_hex n = hex_of (suc n) n []

-- The nanoseconds since the epoch as a `u64`, or 0 before it.
unfoldable pub stamp_of : Option ℕ → ℕ
stamp_of none = 0
stamp_of (some nanos) = nanos % 2 ^ 64

-- `format!("{:x}{:x}{:x}", ...)`.
unfoldable pub prefix_text : ℕ → Option ℕ → ℕ → Text
unfolding show_hex stamp_of
prefix_text process_id since_epoch sequence =
    show_hex process_id ++ (show_hex (stamp_of since_epoch) ++ show_hex sequence)

module _ {W A S T : Type 0} (env : Environment W A S T) where
  unfoldable pub next_connection_prefix : W → Text × W
  next_connection_prefix w =
      let (t, w1) = env.since_epoch w in
      let (sequence, w2) = env.fetch_sequence w1 in (prefix_text (env.process_id w1) t sequence, w2)

-- The prefixes of the connections that one process opens, by what the clock says to each, from a
-- value of the counter on.
unfoldable pub prefixes : ℕ → ℕ → List (Option ℕ) → List Text
unfolding prefix_text
prefixes process_id sequence [] = []
prefixes process_id sequence (t ∷ ts) =
    prefix_text process_id t sequence ∷ prefixes process_id ((sequence + 1) % 2 ^ 64) ts
