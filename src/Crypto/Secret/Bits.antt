-- ===== src/Crypto/Secret/Bits.antt =====
-- The bits of a word, and the four words as the set of the indices seen so far.
use master_recovery.Prelude.{
  ℕ, zero, suc, ◌+◌, ◌*◌, ◌/◌, ◌%◌, ◌≡◌, ◌<◌, refl, ap, ◌∙◌, false, ◌||◌, arith, ◌==◌,
  if◌then◌else◌,
}
use master_recovery.Crypto.Secret.{
  bit, set_bit, SeenIndices, no_indices, get_word, set_word, has_index, mark_index,
}

below_half : (word : ℕ) → (word / 2 * 2 + 1) / 2 ≡ word / 2
below_half word = omega arith

low_bit : (n word : ℕ) → (n * 2 + word % 2) % 2 ≡ word % 2
low_bit n word = omega arith

high_bits : (n word : ℕ) → (n * 2 + word % 2) / 2 ≡ n
high_bits n word = omega arith

pub bit-set_bit : (word k j : ℕ) → bit (set_bit word k) j ≡ (k == j || bit word j)
unfolding bit set_bit
bit-set_bit word zero zero = ground arith
bit-set_bit word zero (suc j) = ground (arith, below_half word)
bit-set_bit word (suc k) zero = ground (arith, low_bit (set_bit (word / 2) k) word)
bit-set_bit word (suc k) (suc j) =
    ground (arith, high_bits (set_bit (word / 2) k) word, bit-set_bit (word / 2) k j)

bit-zero : (j : ℕ) → bit 0 j ≡ false
unfolding bit
bit-zero zero = refl
bit-zero (suc j) = bit-zero j

get_word-set_word :
    (seen : SeenIndices) (i j value : ℕ)
    → i < 4
    → j < 4
    → get_word (set_word seen i value) j ≡ (if i == j then value else get_word seen j)
unfolding get_word set_word
get_word-set_word seen i j value hi hj = ground arith

no_words : (i : ℕ) → get_word no_indices i ≡ 0
unfolding get_word no_indices
no_words i = ground arith

pub has_index-no_indices : (i : ℕ) → has_index no_indices i ≡ false
unfolding has_index
has_index-no_indices i = ap (λ w. bit w (i % 64)) (no_words (i / 64)) ∙ bit-zero (i % 64)

-- Marking an index that a byte can spell adds that index to the set, and no other.
pub has_index-mark_index :
    (seen : SeenIndices) (i j : ℕ)
    → i < 256
    → j < 256
    → has_index (mark_index seen i) j ≡ (i == j || has_index seen j)
unfolding has_index mark_index
has_index-mark_index seen i j hi hj = ground (
  arith,
  get_word-set_word seen (i / 64) (j / 64) (set_bit (get_word seen (i / 64)) (i % 64)),
  bit-set_bit (get_word seen (i / 64)) (i % 64) (j % 64),
)
