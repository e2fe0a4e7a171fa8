-- ===== src/Wire/Fields.antt =====
-- The fields of a transcript, and why their bytes determine them: words have a fixed width and
-- blocks a length prefix.
use mathlib.Core.List.{append_assoc}
use master_recovery.Prelude.{
  ℕ, ◌^◌, ◌<◌, ◌≡◌, refl, sym, ap, ◌∙◌, List, [], ◌∷◌, ◌++◌, length, append_inj,
}
use master_recovery.Types.Basic.{Bytes}
use master_recovery.Wire.Bytes.{to_be_bytes, length-to_be_bytes, to_be_bytes-injective}

pub data Field : Type 0 where
  -- the width in bytes and the value
  word : ℕ → ℕ → Field
  block : Bytes → Field

unfoldable pub encode_field : Field → Bytes
encode_field (word w n) = to_be_bytes w n
encode_field (block b) = to_be_bytes 4 (length b) ++ b

unfoldable pub encode : List Field → Bytes
encode [] = []
encode (f ∷ fs) = encode_field f ++ encode fs

-- A value that its width, or its length prefix, can hold.
abbrev pub Fits : Field → Type 0
Fits (word w n) = n < 256 ^ w
Fits (block b) = length b < 256 ^ 4

abbrev pub AllFit : List Field → Type 0
AllFit [] = Unit {0}
AllFit (f ∷ fs) = Fits f × AllFit fs

pub data Shape : Type 0 where
  word : ℕ → Shape
  block : Shape

abbrev pub shape : Field → Shape
shape (word w n) = Shape.word w
shape (block b) = Shape.block

abbrev pub shapes : List Field → List Shape
shapes [] = []
shapes (f ∷ fs) = shape f ∷ shapes fs

-- A block before a rest determines both.
pub block-inj :
    (a b r s : Bytes)
    → length a < 256 ^ 4
    → length b < 256 ^ 4
    → encode_field (block a) ++ r ≡ encode_field (block b) ++ s
    → (a ≡ b) × (r ≡ s)
unfolding encode_field
block-inj a b r s ha hb e =
    let e' =
      sym (append_assoc (to_be_bytes 4 (length a)) a r)
      ∙ e
      ∙ append_assoc (to_be_bytes 4 (length b)) b s in
    let (lengths, rest) =
      append_inj (to_be_bytes 4 (length a)) (to_be_bytes 4 (length b)) (a ++ r) (b ++ s)
        (length-to_be_bytes 4 (length a) ∙ sym (length-to_be_bytes 4 (length b))) e' in
    append_inj a b r s (to_be_bytes-injective 4 (length a) (length b) ha hb lengths) rest

pub word-inj :
    (w a b : ℕ) (r s : Bytes)
    → a < 256 ^ w
    → b < 256 ^ w
    → to_be_bytes w a ++ r ≡ to_be_bytes w b ++ s
    → (a ≡ b) × (r ≡ s)
word-inj w a b r s ha hb e =
    let (words, rest) =
      append_inj (to_be_bytes w a) (to_be_bytes w b) r s
        (length-to_be_bytes w a ∙ sym (length-to_be_bytes w b)) e in
    (to_be_bytes-injective w a b ha hb words, rest)

field-inj :
    (f g : Field) (r s : Bytes)
    → Fits f
    → Fits g
    → shape f ≡ shape g
    → encode_field f ++ r ≡ encode_field g ++ s
    → (f ≡ g) × (r ≡ s)
unfolding encode_field
field-inj (word w a) (word v b) r s ha hb same e =
    let width : w ≡ v = cc same in
    let (words, rest) = word-inj v a b r s (rw width at ha) hb (rw width at e) in
    (cc (width, words), rest)
field-inj (word w a) (block b) r s ha hb same e = absurd (cc same)
field-inj (block a) (word v b) r s ha hb same e = absurd (cc same)
field-inj (block a) (block b) r s ha hb same e =
    let (blocks, rest) = block-inj a b r s ha hb e in (ap block blocks, rest)

-- Fields of one shape before a rest are determined with it.
pub prefix-inj :
    (fs gs : List Field) (r s : Bytes)
    → AllFit fs
    → AllFit gs
    → shapes fs ≡ shapes gs
    → encode fs ++ r ≡ encode gs ++ s
    → (fs ≡ gs) × (r ≡ s)
unfolding encode
prefix-inj [] [] r s hf hg same e = (refl, e)
prefix-inj [] (g ∷ gs) r s hf hg same e = absurd (cc same)
prefix-inj (f ∷ fs) [] r s hf hg same e = absurd (cc same)
prefix-inj (f ∷ fs) (g ∷ gs) r s hf hg same e =
    let e' =
      sym (append_assoc (encode_field f) (encode fs) r)
      ∙ e
      ∙ append_assoc (encode_field g) (encode gs) s in
    let (first, rest) = field-inj f g (encode fs ++ r) (encode gs ++ s) hf.0 hg.0 (cc same) e' in
    let (others, after) = prefix-inj fs gs r s hf.1 hg.1 (cc same) rest in
    (cc (first, others), after)

-- Two lists of fields of one shape with the same bytes are the same.
pub encode-injective :
    (fs gs : List Field)
    → AllFit fs
    → AllFit gs
    → shapes fs ≡ shapes gs
    → encode fs ≡ encode gs
    → fs ≡ gs
encode-injective fs gs hf hg same e =
    (prefix-inj fs gs [] [] hf hg same (ap (λ (q : Bytes). q ++ []) e)).0
