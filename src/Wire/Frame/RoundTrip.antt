-- ===== src/Wire/Frame/RoundTrip.antt =====
-- Framing and deframing undo one another, and a truncated frame is refused.
use native.Mathlib.Decide.{dec_le}
use master_recovery.Prelude.{
  suc, zero, ap, ◌∙◌, ◌↔◌, length-take-le, length-take_of_le, take-append, ℕ, ◌-◌, ◌≤◌, ◌<◌, ◌≡◌,
  refl, ◌||◌, [], ◌∷◌, ◌++◌, arith, length, length-append, take, drop, ltb, ◌!=◌, if◌then◌else◌, ok,
  err,
}
use master_recovery.Types.Basic.{Bytes}
use master_recovery.Wire.Bytes.{
  to_be_bytes, from_be_bytes, length-to_be_bytes, from_to_be_bytes, prefix_canonical, AreBytes,
}
use master_recovery.Wire.Frame.{max_field_len, invalid_frame, frame, deframe}

-- The bytes of a prefix of four, by name.
prefix-split :
    (bytes : Bytes)
    → 4 ≤ length bytes
    → (take 4 bytes ++ drop 4 bytes ≡ bytes) × (length (take 4 bytes) ≡ 4)
prefix-split (a ∷ b ∷ c ∷ d ∷ rest) h = (refl, refl)
prefix-split [] h = absurd (omega arith)
prefix-split (a ∷ []) h = absurd (omega arith)
prefix-split (a ∷ b ∷ []) h = absurd (omega arith)
prefix-split (a ∷ b ∷ c ∷ []) h = absurd (omega arith)

take-prefix :
    (p rest : Bytes) → length p ≡ 4 → (take 4 (p ++ rest) ≡ p) × (drop 4 (p ++ rest) ≡ rest)
take-prefix (a ∷ b ∷ c ∷ d ∷ []) rest h = (refl, refl)
take-prefix [] rest h = absurd (omega arith)
take-prefix (a ∷ []) rest h = absurd (omega arith)
take-prefix (a ∷ b ∷ []) rest h = absurd (omega arith)
take-prefix (a ∷ b ∷ c ∷ []) rest h = absurd (omega arith)
take-prefix (a ∷ b ∷ c ∷ d ∷ e ∷ more) rest h = absurd (omega arith)

frame-ok :
    (payload f : Bytes)
    → frame payload ≡ ok f
    → (length payload ≤ max_field_len) × (f ≡ to_be_bytes 4 (length payload) ++ payload)
unfolding frame
frame-ok payload f h = ground arith

ok-frame :
    (payload : Bytes)
    → length payload ≤ max_field_len
    → frame payload ≡ ok (to_be_bytes 4 (length payload) ++ payload)
unfolding frame
ok-frame payload h = ground arith

-- What `deframe` does to a prefix of four bytes before a rest.
deframe-parts :
    (p rest : Bytes)
    → length p ≡ 4
    → deframe (p ++ rest) ≡ (
        if ltb max_field_len (from_be_bytes p) || length rest != from_be_bytes p
        then err invalid_frame
        else ok rest)
unfolding deframe
deframe-parts p rest h =
    rw ((take-prefix p rest h).0, (take-prefix p rest h).1) (ground (arith, length-append p rest))

to_be_bytes_len :
    (payload : Bytes)
    → length payload ≤ max_field_len
    → from_be_bytes (to_be_bytes 4 (length payload)) ≡ length payload
to_be_bytes_len payload h = from_to_be_bytes 4 (length payload) (omega arith)

deframe-of-frame : (payload f : Bytes) → frame payload ≡ ok f → deframe f ≡ ok payload
deframe-of-frame payload f h =
    let (small, shape) = frame-ok payload f h in
    let back = to_be_bytes_len payload small in
    rw
      (
        shape,
        deframe-parts (to_be_bytes 4 (length payload)) payload
            (length-to_be_bytes 4 (length payload)),
      )
      (ground (arith, back))

short-deframe : (f : Bytes) → length f < 4 → deframe f ≡ err invalid_frame
unfolding deframe
short-deframe f h = ground arith

deframe-long : (f payload : Bytes) → deframe f ≡ ok payload → 4 ≤ length f
unfolding deframe
deframe-long f payload h = ground arith

AreBytes-take : (n : ℕ) (bs : Bytes) → AreBytes bs → AreBytes (take n bs)
AreBytes-take zero bs h = tt
AreBytes-take (suc n) [] h = tt
AreBytes-take (suc n) (b ∷ bs) h = (h.0, AreBytes-take n bs h.1)

frame-of-parts :
    (p rest payload : Bytes)
    → length p ≡ 4
    → AreBytes p
    → deframe (p ++ rest) ≡ ok payload
    → frame payload ≡ ok (p ++ rest)
frame-of-parts p rest payload four bytes h =
    let parts : (length rest ≤ max_field_len) × (length rest ≡ from_be_bytes p) × (rest ≡ payload) =
      ground (arith, deframe-parts p rest four) in
    let framed = ok-frame rest parts.0 in
    rw (← parts.2) (
      framed
      ∙ ap (λ (q : Bytes). ok (q ++ rest))
          (ap (to_be_bytes 4) parts.1 ∙ prefix_canonical p four bytes))

frame-of-deframe : (payload f : Bytes) → AreBytes f → deframe f ≡ ok payload → frame payload ≡ ok f
frame-of-deframe payload f bytes h =
    let (whole, four) = prefix-split f (deframe-long f payload h) in
    frame-of-parts (take 4 f) (drop 4 f) payload four (AreBytes-take 4 f bytes) (rw whole h)
    ∙ ap ok whole

-- A list of bytes is the frame of a payload exactly when deframing it gives that payload.
pub frame_iff_deframe :
    (payload f : Bytes) → AreBytes f → (frame payload ≡ ok f) ↔ (deframe f ≡ ok payload)
frame_iff_deframe payload f bytes = (deframe-of-frame payload f, frame-of-deframe payload f bytes)

deframe-shorter :
    (p rest : Bytes)
    → length p ≡ 4
    → length rest < from_be_bytes p
    → deframe (p ++ rest) ≡ err invalid_frame
deframe-shorter p rest four short = rw (deframe-parts p rest four) (ground arith)

-- A frame that is cut short anywhere is refused as an invalid frame.
pub truncated_frame_refused :
    (payload f : Bytes) (n : ℕ)
    → frame payload ≡ ok f
    → n < length f
    → deframe (take n f) ≡ err invalid_frame
truncated_frame_refused payload f n h short = elim (dec_le 4 n) [
  | no low ↦ short-deframe (take n f) (omega (arith, length-take-le n f))
  | yes high ↦
      let (small, shape) = frame-ok payload f h in
      let four = length-to_be_bytes 4 (length payload) in
      let cut : n - 4 < length payload =
        omega
          (arith, ap length shape, length-append (to_be_bytes 4 (length payload)) payload, four) in
      rw
        (
          shape,
          take-append n (n - 4) (to_be_bytes 4 (length payload)) payload (omega (arith, four)),
        )
        (deframe-shorter (to_be_bytes 4 (length payload)) (take (n - 4) payload) four (
          rw (to_be_bytes_len payload small, length-take_of_le (n - 4) payload (omega (arith, cut)))
            cut))
]
