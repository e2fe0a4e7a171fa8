-- ===== src/Crypto/Secret.antt =====
-- crates/gp-crypto/src/lib.rs: `split_secret` and `recover_secret` around the Shamir library.
pub mod Bits
pub mod Shares
use master_recovery.Prelude.{
  ℕ, zero, suc, ◌*◌, ◌+◌, ◌/◌, ◌%◌, Bool, true, false, ◌||◌, Option, none, some, List, [], ◌∷◌,
  length, ltb, ◌==◌, ◌!=◌, if◌then◌else◌, Result, ok, err, ok_or, ◌>>=◌ as bind,
}
use master_recovery.Types.Basic.{Id32, Bytes}
use master_recovery.Crypto.{
  CryptoError, invalid_threshold, invalid_secret_length, insufficient_shares, invalid_share,
  duplicate_share,
}

abbrev pub shamir_secret_len : ℕ
shamir_secret_len = 32

abbrev pub shamir_share_len : ℕ
shamir_share_len = 33

abbrev pub shamir_max_shares : ℕ
shamir_max_shares = 255

abbrev pub shamir_index_words : ℕ
shamir_index_words = 4

abbrev pub shamir_index_bits_per_word : ℕ
shamir_index_bits_per_word = 64

-- What the source calls of the Shamir library: the shares that a seeded dealer gives a secret, the
-- decoding of one share, and the recovery from decoded shares.
pub record Shamir (Share : Type 0) : Type 0 where
  pub deal : ℕ → Bytes → Id32 → ℕ → List Bytes
  pub try_from : Bytes → Option Share
  pub recover : ℕ → List Share → Option Bytes

-- `word & (1 << k) != 0`
unfoldable pub bit : ℕ → ℕ → Bool
bit word zero = word % 2 == 1
bit word (suc k) = bit (word / 2) k

-- `word | (1 << k)`
unfoldable pub set_bit : ℕ → ℕ → ℕ
set_bit word zero = word / 2 * 2 + 1
set_bit word (suc k) = set_bit (word / 2) k * 2 + word % 2

-- `[u64; SHAMIR_INDEX_WORDS]`
pub record SeenIndices : Type 0 where
  pub word0 : ℕ
  pub word1 : ℕ
  pub word2 : ℕ
  pub word3 : ℕ

unfoldable pub no_indices : SeenIndices
no_indices = record { word0 = 0; word1 = 0; word2 = 0; word3 = 0 }

-- `seen_indices[word]`, for a word below `SHAMIR_INDEX_WORDS`.
unfoldable pub get_word : SeenIndices → ℕ → ℕ
get_word seen word =
    if word == 0
    then seen.word0
    else if word == 1
    then seen.word1
    else if word == 2
    then seen.word2
    else seen.word3

-- `seen_indices[word] = value`, for a word below `SHAMIR_INDEX_WORDS`.
unfoldable pub set_word : SeenIndices → ℕ → ℕ → SeenIndices
set_word seen word value =
    if word == 0
    then record seen { word0 = value }
    else if word == 1
    then record seen { word1 = value }
    else if word == 2
    then record seen { word2 = value }
    else record seen { word3 = value }

unfoldable pub has_index : SeenIndices → ℕ → Bool
has_index seen index =
    bit (get_word seen (index / shamir_index_bits_per_word)) (index % shamir_index_bits_per_word)

unfoldable pub mark_index : SeenIndices → ℕ → SeenIndices
mark_index seen index =
    let word = index / shamir_index_bits_per_word in
    set_word seen word (set_bit (get_word seen word) (index % shamir_index_bits_per_word))

-- `encoded[0]`
unfoldable pub first_byte : Bytes → ℕ
first_byte [] = 0
first_byte (byte ∷ bytes) = byte

module _ {Share : Type 0} (shamir : Shamir Share) where
  unfoldable pub split_secret : Bytes → ℕ → ℕ → Id32 → Result CryptoError (List Bytes)
  split_secret secret threshold total seed =
      if length secret != shamir_secret_len
      then err invalid_secret_length
      else if threshold == 0 || ltb total threshold || ltb shamir_max_shares total
      then err invalid_threshold
      else ok (shamir.deal threshold secret seed total)

  -- The loop of `recover_secret`: what is decoded after the shares before.
  unfoldable pub decode_shares : SeenIndices → List Bytes → Result CryptoError (List Share)
  decode_shares seen [] = ok []
  decode_shares seen (encoded ∷ shares) =
      let rest = decode_shares (mark_index seen (first_byte encoded)) shares in
      if length encoded != shamir_share_len || first_byte encoded == 0
      then err invalid_share
      else if has_index seen (first_byte encoded)
      then err duplicate_share
      else bind (ok_or (shamir.try_from encoded) invalid_share)
          (λ share. bind rest (λ decoded. ok (share ∷ decoded)))

  unfoldable pub recover_decoded : ℕ → List Share → Result CryptoError Bytes
  recover_decoded threshold decoded =
      bind (ok_or (shamir.recover threshold decoded) invalid_share) (λ recovered.
        if length recovered != shamir_secret_len then err invalid_share else ok recovered)

  unfoldable pub recover_secret : List Bytes → ℕ → Result CryptoError Bytes
  recover_secret shares threshold =
      if threshold == 0 || ltb shamir_max_shares threshold
      then err invalid_threshold
      else if ltb (length shares) threshold
      then err insufficient_shares
      else if ltb shamir_max_shares (length shares)
      then err invalid_share
      else bind (decode_shares no_indices shares) (recover_decoded threshold)
