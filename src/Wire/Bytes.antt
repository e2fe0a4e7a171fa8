-- ===== src/Wire/Bytes.antt =====
-- `to_be_bytes` and `from_be_bytes` of the standard library, for a word of `w` bytes.
use native.Mathlib.Nat.{pow-suc}
use Prim.Native.String.{String}
use Prim.Native.Char.{code}
use master_recovery.Prelude.{
  ℕ, zero, suc, ◌+◌, ◌*◌, ◌/◌, ◌%◌, ◌^◌, ◌<◌, ◌≡◌, refl, sym, ap, ◌∙◌, [], ◌∷◌, ◌++◌, arith, length,
  Bool, true, false, ◌&&◌, ◌==◌, length-append,
}
use master_recovery.Types.Basic.{Bytes}

-- The bytes of an ASCII literal.
abbrev pub ascii : String → Bytes
ascii String.[] = []
ascii (String.◌∷◌ c s) = code c ∷ ascii s

-- `==` on vectors of bytes.
unfoldable pub same_bytes : Bytes → Bytes → Bool
same_bytes [] [] = true
same_bytes [] (b ∷ bs) = false
same_bytes (a ∷ rest) [] = false
same_bytes (a ∷ rest) (b ∷ bs) = (a == b) && same_bytes rest bs

unfoldable pub to_be_bytes : ℕ → ℕ → Bytes
to_be_bytes zero n = []
to_be_bytes (suc w) n = to_be_bytes w (n / 256) ++ (n % 256) ∷ []

from_acc : ℕ → Bytes → ℕ
from_acc acc [] = acc
from_acc acc (b ∷ bs) = from_acc (acc * 256 + b) bs

unfoldable pub from_be_bytes : Bytes → ℕ
unfolding from_acc
from_be_bytes bs = from_acc 0 bs

pub length-to_be_bytes : (w n : ℕ) → length (to_be_bytes w n) ≡ w
unfolding to_be_bytes
length-to_be_bytes zero n = refl
length-to_be_bytes (suc w) n = omega (
  arith,
  length-append (to_be_bytes w (n / 256)) ((n % 256) ∷ []),
  length-to_be_bytes w (n / 256),
)

from_acc-append : (acc b : ℕ) (bs : Bytes) → from_acc acc (bs ++ b ∷ []) ≡ from_acc acc bs * 256 + b
unfolding from_acc
from_acc-append acc b [] = refl
from_acc-append acc b (x ∷ bs) = from_acc-append (acc * 256 + x) b bs

-- A word is read back from its bytes.
pub from_to_be_bytes : (w n : ℕ) → n < 256 ^ w → from_be_bytes (to_be_bytes w n) ≡ n
unfolding from_be_bytes to_be_bytes
from_to_be_bytes zero n h = omega arith
from_to_be_bytes (suc w) n h =
    rw (from_acc-append 0 (n % 256) (to_be_bytes w (n / 256)))
      (omega (arith, from_to_be_bytes w (n / 256) (omega (arith, rw (pow-suc 256 w) at h))))

-- Two words of one width with the same bytes are the same.
pub to_be_bytes-injective :
    (w a b : ℕ) → a < 256 ^ w → b < 256 ^ w → to_be_bytes w a ≡ to_be_bytes w b → a ≡ b
to_be_bytes-injective w a b ha hb e =
    sym (from_to_be_bytes w a ha) ∙ ap from_be_bytes e ∙ from_to_be_bytes w b hb

abbrev pub AreBytes : Bytes → Type 0
AreBytes [] = Unit {0}
AreBytes (b ∷ bs) = (b < 256) × AreBytes bs

-- Four bytes are the encoding of the word that they spell.
pub prefix_canonical : (p : Bytes) → length p ≡ 4 → AreBytes p → to_be_bytes 4 (from_be_bytes p) ≡ p
unfolding to_be_bytes from_be_bytes
prefix_canonical (a ∷ b ∷ c ∷ d ∷ []) h r = ground arith
prefix_canonical [] h r = absurd (omega arith)
prefix_canonical (a ∷ []) h r = absurd (omega arith)
prefix_canonical (a ∷ b ∷ []) h r = absurd (omega arith)
prefix_canonical (a ∷ b ∷ c ∷ []) h r = absurd (omega arith)
prefix_canonical (a ∷ b ∷ c ∷ d ∷ e ∷ more) h r = absurd (omega arith)
