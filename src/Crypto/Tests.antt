-- ===== src/Crypto/Tests.antt =====
-- The recovery of a secret by a library whose shares are all the secret itself behind an index.
use master_recovery.Prelude.{
  ◌≡◌, ◌↔◌, refl, Option, none, some, List, [], ◌∷◌, arith, drop, replicate, ok, err,
}
use master_recovery.Types.Basic.{Bytes}
use master_recovery.Crypto.{duplicate_share}
use master_recovery.Crypto.Secret.{
  Shamir, recover_secret, decode_shares, recover_decoded, bit, set_bit, no_indices, get_word,
  set_word, has_index, mark_index, first_byte,
}
use master_recovery.Crypto.Secret.Shares.{LeadByBytes, recover_with_set, bitmap_as_set}
use master_recovery.Crypto.Secret.Shares.Recovered.{Recovers, recover_secret_iff}

first : List Bytes → Option Bytes
first [] = none
first (share ∷ shares) = some share

abbrev copies : Shamir Bytes
copies = record {
  deal = λ threshold secret seed total. [];
  try_from = λ share. some (drop 1 share);
  recover = λ threshold shares. first shares;
}

abbrev secret : Bytes
secret = replicate 32 9

-- Their indices are in different words.
abbrev shares : List Bytes
shares = (3 ∷ secret) ∷ (67 ∷ secret) ∷ []

shares-LeadByBytes : LeadByBytes shares
unfolding first_byte
shares-LeadByBytes = (omega arith, (omega arith, tt))

recovers_secret : recover_secret copies shares 2 ≡ ok secret
unfolding recover_secret decode_shares recover_decoded bit set_bit no_indices get_word set_word
    has_index mark_index first_byte first
recovers_secret = refl

repeated_share_is_refused :
    recover_secret copies ((3 ∷ secret) ∷ (3 ∷ secret) ∷ []) 2 ≡ err duplicate_share
unfolding recover_secret decode_shares recover_decoded bit set_bit no_indices get_word set_word
    has_index mark_index first_byte first
repeated_share_is_refused = refl

bitmap_as_set_example : recover_secret copies shares 2 ≡ recover_with_set copies shares 2
bitmap_as_set_example = bitmap_as_set copies shares 2 shares-LeadByBytes

recover_secret_iff_example :
    (recover_secret copies shares 2 ≡ ok secret) ↔ Recovers copies shares 2 secret
recover_secret_iff_example = recover_secret_iff copies shares 2 secret shares-LeadByBytes
