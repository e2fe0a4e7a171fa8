-- ===== src/Crypto/Secret/Shares/Recovered.antt =====
-- Exactly when `recover_secret` of crates/gp-crypto/src/lib.rs gives a secret.
use master_recovery.Prelude.{
  ℕ, ◌≡◌, ◌≤◌, ◌<◌, ◌↔◌, refl, sym, ◌∙◌, Bool, false, Option, none, some, List, [], ◌∷◌, arith,
  length, ◌!=◌, if◌then◌else◌, Result, ok, err, ok_or, ◌>>=◌ as bind, ok-bind,
}
use master_recovery.Collections.Set
use master_recovery.Collections.Set.{Set}
use master_recovery.Types.Basic.{Bytes}
use master_recovery.Wire.Rotation.Ids.{
  AllWithin, Distinct, AllNew, AllNew-insert, insert-AllNew, empty-AllNew,
}
use master_recovery.Crypto.{
  CryptoError, invalid_threshold, insufficient_shares, invalid_share, duplicate_share,
}
use master_recovery.Crypto.Secret.{
  Shamir, no_indices, first_byte, decode_shares, recover_decoded, recover_secret, shamir_share_len,
  shamir_secret_len, shamir_max_shares,
}
use master_recovery.Crypto.Secret.Shares.{
  indices, AllOfLength, LeadByBytes, no_indices-Represents, decode_with_set, decode-agrees,
}

module _ {Share : Type 0} (shamir : Shamir Share) where
  -- The library decodes every share, to these in this order.
  abbrev pub DecodesTo : List Bytes → List Share → Type 0
  DecodesTo [] [] = Unit {0}
  DecodesTo [] (d ∷ ds) = ⊥
  DecodesTo (encoded ∷ shares) [] = ⊥
  DecodesTo (encoded ∷ shares) (d ∷ ds) = (shamir.try_from encoded ≡ some d) × DecodesTo shares ds

  -- The shares pass the checks with these indices seen before.
  record Passes (s : Set) (shares : List Bytes) (ds : List Share) : Type 0 where
    lengths : AllOfLength shamir_share_len shares
    within : AllWithin shamir_max_shares (indices shares)
    distinct : Distinct (indices shares)
    new : AllNew s (indices shares)
    decoded : DecodesTo shares ds

  decode_step :
      (found : Option Share) (rest : Result CryptoError (List Share)) (ds : List Share)
      → bind (ok_or found invalid_share) (λ d. bind rest (λ decoded. ok (d ∷ decoded))) ≡ ok ds
      → (d : Share) × (tail : List Share) × (found ≡ some d) × (rest ≡ ok tail) × (ds ≡ d ∷ tail)
  decode_step none rest ds h = absurd (cc h)
  decode_step (some d) (err e) ds h = absurd (cc h)
  decode_step (some d) (ok tail) ds h = (d, tail, refl, refl, ground arith)

  guards_pass :
      (bad repeated : Bool) (rest : Result CryptoError (List Share)) (ds : List Share)
      → (if bad then err invalid_share else if repeated then err duplicate_share else rest) ≡ ok ds
      → (bad ≡ false) × (repeated ≡ false) × (rest ≡ ok ds)
  guards_pass bad repeated rest ds h = ground arith

  decode-Passes :
      (s : Set) (shares : List Bytes) (ds : List Share)
      → LeadByBytes shares
      → decode_with_set shamir s shares ≡ ok ds
      → Passes s shares ds
  unfolding decode_with_set
  decode-Passes s [] [] b h = record {
    lengths = tt;
    within = tt;
    distinct = tt;
    new = tt;
    decoded = tt;
  }
  decode-Passes s [] (d ∷ ds) b h = absurd (ground arith)
  decode-Passes s (share ∷ shares) ds b h =
      let (shaped, new, h1) = guards_pass _ _ _ ds h in
      let (d, tail, found, h2, e) = decode_step (shamir.try_from share) _ ds h1 in
      let rest = decode-Passes (Set.insert s (first_byte share)) shares tail b.1 h2 in
      let (new_rest, avoids) = AllNew-insert s (first_byte share) (indices shares) rest.new in
      rw e (record {
        lengths = (ground arith, rest.lengths);
        within = (ground arith, ground (arith, b.0), rest.within);
        distinct = (avoids, rest.distinct);
        new = (new, new_rest);
        decoded = (found, rest.decoded);
      })

  Passes-decode :
      (s : Set) (shares : List Bytes) (ds : List Share)
      → Passes s shares ds
      → decode_with_set shamir s shares ≡ ok ds
  unfolding decode_with_set
  Passes-decode s [] [] p = refl
  Passes-decode s [] (d ∷ ds) p = absurd p.decoded
  Passes-decode s (share ∷ shares) [] p = absurd p.decoded
  Passes-decode s (share ∷ shares) (d ∷ ds) p =
      let rest = Passes-decode (Set.insert s (first_byte share)) shares ds (record {
        lengths = p.lengths.1;
        within = p.within.2;
        distinct = p.distinct.1;
        new = insert-AllNew s (first_byte share) (indices shares) p.new.1 p.distinct.0;
        decoded = p.decoded.1;
      }) in
      ground (arith, p.lengths.0, p.within.0, p.new.0, p.decoded.0)

-- What it takes for shares to give a secret.
pub record Recovers {Share : Type 0} (shamir : Shamir Share) (shares : List Bytes) (threshold : ℕ)
    (secret : Bytes) : Type 0 where
  pub positive : 0 < threshold
  pub enough : threshold ≤ length shares
  pub few : length shares ≤ shamir_max_shares
  pub share_lengths : AllOfLength shamir_share_len shares
  pub within : AllWithin shamir_max_shares (indices shares)
  pub distinct : Distinct (indices shares)
  pub decoded : List Share
  pub decodes : DecodesTo shamir shares decoded
  pub recovers : shamir.recover threshold decoded ≡ some secret
  pub secret_length : length secret ≡ shamir_secret_len

module _ {Share : Type 0} (shamir : Shamir Share) where
  recovered_secret :
      (found : Option Bytes) (secret : Bytes)
      → bind (ok_or found invalid_share) (λ recovered.
        if length recovered != shamir_secret_len then err invalid_share else ok recovered)
        ≡ ok secret
      → (found ≡ some secret) × (length secret ≡ shamir_secret_len)
  recovered_secret none secret h = absurd (cc h)
  recovered_secret (some recovered) secret h = ground arith

  secret_recovered :
      (found : Option Bytes) (secret : Bytes)
      → found ≡ some secret
      → length secret ≡ shamir_secret_len
      → bind (ok_or found invalid_share) (λ recovered.
        if length recovered != shamir_secret_len then err invalid_share else ok recovered)
        ≡ ok secret
  secret_recovered found secret e h = rw e (ground arith)

  sizes_pass :
      (bad few many : Bool) (rest : Result CryptoError Bytes) (secret : Bytes)
      → (if bad
          then err invalid_threshold
          else if few
          then err insufficient_shares
          else if many
          then err invalid_share
          else rest)
        ≡ ok secret
      → (bad ≡ false) × (few ≡ false) × (many ≡ false) × (rest ≡ ok secret)
  sizes_pass bad few many rest secret h = ground arith

  -- On shares whose first byte is a byte, `recover_secret` gives a secret exactly when the threshold is
  -- positive and at most the number of shares, which is at most 255, every share has 33 bytes, their
  -- indices are distinct and from 1 to 255, the library decodes all of them and recovers the secret from
  -- these decoded shares, and the secret has 32 bytes.
  pub recover_secret_iff :
      (shares : List Bytes) (threshold : ℕ) (secret : Bytes)
      → LeadByBytes shares
      → (recover_secret shamir shares threshold ≡ ok secret)
        ↔ Recovers shamir shares threshold secret
  unfolding recover_secret recover_decoded
  recover_secret_iff shares threshold secret b = (
    λ h.
        let (positive, enough, few, h1) = sizes_pass _ _ _ _ secret h in
        let (ds, h2, h3) =
          ok-bind (decode_shares shamir no_indices shares) (recover_decoded shamir threshold) secret
            h1 in
        let (recovers, secret_length) = recovered_secret (shamir.recover threshold ds) secret h3 in
        let passed =
          decode-Passes shamir Set.empty shares ds b
            (sym (decode-agrees shamir no_indices Set.empty shares no_indices-Represents b) ∙ h2) in
        record {
          positive = ground arith;
          enough = ground arith;
          few = ground arith;
          share_lengths = passed.lengths;
          within = passed.within;
          distinct = passed.distinct;
          decoded = ds;
          decodes = passed.decoded;
          recovers = recovers;
          secret_length = secret_length;
        },
    λ r.
        let decoded =
          decode-agrees shamir no_indices Set.empty shares no_indices-Represents b
          ∙ Passes-decode shamir Set.empty shares r.decoded (record {
            lengths = r.share_lengths;
            within = r.within;
            distinct = r.distinct;
            new = empty-AllNew (indices shares);
            decoded = r.decodes;
          }) in
        ground (
          arith,
          r.positive,
          r.enough,
          r.few,
          decoded,
          secret_recovered (shamir.recover threshold r.decoded) secret r.recovers r.secret_length,
        ),
  )
