-- ===== src/Crypto/Secret/Shares.antt =====
-- `recover_secret` of crates/gp-crypto/src/lib.rs against the same function with an ordinary set of the
-- indices seen.
pub mod Recovered
use master_recovery.Prelude.{
  ℕ, ◌≡◌, ◌≤◌, ◌<◌, ◌↔◌, refl, sym, ◌∙◌, Bool, false, ◌||◌, Option, none, some, List, [], ◌∷◌, map,
  arith, length, ltb, ◌==◌, ◌!=◌, if◌then◌else◌, Result, ok, err, ok_or, ◌>>=◌ as bind, ok-bind,
}
use master_recovery.Collections.Set
use master_recovery.Collections.Set.{Set}
use master_recovery.Types.Basic.{Bytes}
use master_recovery.Wire.Rotation.Ids.{
  AllWithin, Distinct, AllNew, AllNew-insert, insert-AllNew, empty-AllNew,
}
use master_recovery.Crypto.{
  CryptoError, invalid_threshold, insufficient_shares, invalid_share, duplicate_share,
}
use master_recovery.Crypto.Secret.{
  Shamir, SeenIndices, no_indices, has_index, mark_index, first_byte, decode_shares,
  recover_decoded, recover_secret, shamir_share_len, shamir_secret_len, shamir_max_shares,
}
use master_recovery.Crypto.Secret.Bits.{has_index-no_indices, has_index-mark_index}

abbrev pub indices : List Bytes → List ℕ
indices shares = map first_byte shares

abbrev pub AllOfLength : ℕ → List Bytes → Type 0
AllOfLength n [] = Unit {0}
AllOfLength n (share ∷ shares) = (length share ≡ n) × AllOfLength n shares

-- The first byte of every share is a byte.
abbrev pub LeadByBytes : List Bytes → Type 0
LeadByBytes [] = Unit {0}
LeadByBytes (share ∷ shares) = (first_byte share < 256) × LeadByBytes shares

-- The words and the set hold the same indices.
pub record Represents (seen : SeenIndices) (s : Set) : Type 0 where
  same : (i : ℕ) → i < 256 → has_index seen i ≡ Set.contains s i

pub no_indices-Represents : Represents no_indices Set.empty
no_indices-Represents = record { same = λ i h. has_index-no_indices i ∙ sym (Set.contains-empty i) }

mark-Represents :
    (seen : SeenIndices) (s : Set) (i : ℕ)
    → i < 256
    → Represents seen s
    → Represents (mark_index seen i) (Set.insert s i)
mark-Represents seen s i h r = record {
  same = λ j hj.
      ground (arith, has_index-mark_index seen i j h hj, r.same j hj, Set.contains-insert s i j);
}

module _ {Share : Type 0} (shamir : Shamir Share) where
  -- `decode_shares` with a set in place of the words.
  pub decode_with_set : Set → List Bytes → Result CryptoError (List Share)
  decode_with_set seen [] = ok []
  decode_with_set seen (encoded ∷ shares) =
      let rest = decode_with_set (Set.insert seen (first_byte encoded)) shares in
      if length encoded != shamir_share_len || first_byte encoded == 0
      then err invalid_share
      else if Set.contains seen (first_byte encoded)
      then err duplicate_share
      else bind (ok_or (shamir.try_from encoded) invalid_share)
          (λ share. bind rest (λ decoded. ok (share ∷ decoded)))

  -- `recover_secret` with a set in place of the words.
  pub recover_with_set : List Bytes → ℕ → Result CryptoError Bytes
  recover_with_set shares threshold =
      if threshold == 0 || ltb shamir_max_shares threshold
      then err invalid_threshold
      else if ltb (length shares) threshold
      then err insufficient_shares
      else if ltb shamir_max_shares (length shares)
      then err invalid_share
      else bind (decode_with_set Set.empty shares) (recover_decoded shamir threshold)

  pub decode-agrees :
      (seen : SeenIndices) (s : Set) (shares : List Bytes)
      → Represents seen s
      → LeadByBytes shares
      → decode_shares shamir seen shares ≡ decode_with_set s shares
  unfolding decode_shares decode_with_set
  decode-agrees seen s [] r h = refl
  decode-agrees seen s (encoded ∷ shares) r h =
      rw
        (
          r.same (first_byte encoded) h.0,
          decode-agrees (mark_index seen (first_byte encoded)) (Set.insert s (first_byte encoded))
              shares (mark-Represents seen s (first_byte encoded) h.0 r) h.1,
        )
        refl

  -- On shares whose first byte is a byte, `recover_secret` gives the same result, errors included, as the
  -- function that keeps an ordinary set of the indices seen in place of four words of bits.
  pub bitmap_as_set :
      (shares : List Bytes) (threshold : ℕ)
      → LeadByBytes shares
      → recover_secret shamir shares threshold ≡ recover_with_set shares threshold
  unfolding recover_secret recover_with_set
  bitmap_as_set shares threshold h =
      rw (decode-agrees no_indices Set.empty shares no_indices-Represents h) refl
