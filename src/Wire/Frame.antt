-- ===== src/Wire/Frame.antt =====
-- crates/gp-wire/src/lib.rs: `frame` and `deframe`, a length prefix of four bytes before a payload.
pub mod RoundTrip
use master_recovery.Prelude.{
  ℕ, ◌+◌, ◌*◌, ◌-◌, ◌^◌, ◌≤◌, ◌<◌, ◌≡◌, refl, ◌||◌, Option, none, some, List, [], ◌∷◌, ◌++◌, arith,
  length, length-append, take, drop, ltb, ◌!=◌, if◌then◌else◌, Result, ok, err, ok_or, ◌>>=◌,
}
use master_recovery.Types.Basic.{Bytes}
use master_recovery.Wire.Bytes.{
  to_be_bytes, from_be_bytes, length-to_be_bytes, from_to_be_bytes, prefix_canonical, AreBytes,
}

abbrev pub max_field_len : ℕ
max_field_len = 16 * 1024 * 1024

pub data WireError : Type 0 where
  field_too_large invalid_frame invalid_value duplicate_actor : WireError

-- `u32::try_from(len)`, with the error that every caller gives it.
abbrev pub u32_len : ℕ → Result WireError ℕ
u32_len n = if ltb (2 ^ 32 - 1) n then err field_too_large else ok n

unfoldable pub frame : Bytes → Result WireError Bytes
frame payload =
    if ltb max_field_len (length payload)
    then err field_too_large
    else do len ← u32_len (length payload); ok (to_be_bytes 4 len ++ payload)

-- `frame.get(..4)`
unfoldable pub get_prefix : Bytes → Option Bytes
get_prefix bytes = if ltb (length bytes) 4 then none else some (take 4 bytes)

unfoldable pub deframe : Bytes → Result WireError Bytes
unfolding get_prefix
deframe bytes = do
  prefix ← ok_or (get_prefix bytes) invalid_frame
  let len = from_be_bytes prefix
  if ltb max_field_len len || length bytes != len + 4 then err invalid_frame else ok (drop 4 bytes)
