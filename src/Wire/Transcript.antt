-- ===== src/Wire/Transcript.antt =====
-- crates/gp-wire/src/lib.rs: `Transcript`, the buffer that a canonical transcript is written to.
-- A writer takes the bytes written so far and returns those after it, or the error that the `?` of
-- every caller returns at once.
use master_recovery.Prelude.{
  ℕ, [], ◌++◌, length, ltb, if◌then◌else◌, Result, ok, err, ◌>>=◌ as bind,
}
use master_recovery.Types.Basic.{Bytes, Id32}
use master_recovery.Wire.Bytes.{to_be_bytes}
use master_recovery.Wire.Frame.{max_field_len, WireError, field_too_large, u32_len}

abbrev pub Writer : Type 0
Writer = Bytes → Result WireError Bytes

infixr 5 ◌>>◌
-- `w?; v`
abbrev pub ◌>>◌ : Writer → Writer → Writer
◌>>◌ w v out = bind (w out) v

unfoldable pub bytes : Bytes → Writer
bytes value out = bind (u32_len (length value)) λ len.
    if ltb max_field_len (length value)
    then err field_too_large
    else ok ((out ++ to_be_bytes 4 len) ++ value)

unfoldable pub domain : Bytes → Writer
unfolding bytes
domain value = bytes value

unfoldable pub u16 : ℕ → Writer
u16 value out = ok (out ++ to_be_bytes 2 value)

unfoldable pub u32 : ℕ → Writer
u32 value out = ok (out ++ to_be_bytes 4 value)

unfoldable pub u64 : ℕ → Writer
u64 value out = ok (out ++ to_be_bytes 8 value)

-- `bytes(&inner?)?`: the bytes of another transcript.
unfoldable pub nested : Result WireError Bytes → Writer
nested (ok inner) out = bytes inner out
nested (err e) out = err e

-- The 32 bytes of an identifier, a digest or a key.
abbrev pub id_bytes : Id32 → Bytes
id_bytes id = to_be_bytes 32 id

-- `Transcript::default()` before, and `finish` after.
abbrev pub transcript : Writer → Result WireError Bytes
transcript w = w []
