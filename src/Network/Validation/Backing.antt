-- ===== src/Network/Validation/Backing.antt =====
-- What a certificate of signers that passes its check holds: a threshold of distinct members, each of whom
-- signed the transcript of its own vote.
use master_recovery.Prelude.{
  ℕ, ◌+◌, ◌-◌, ◌≡◌, ◌≤◌, ◌<◌, refl, Bool, true, false, ◌||◌, not, List, [], ◌∷◌, map, arith, length,
  if◌then◌else◌, Result, ok, err, ◌>>◌, ok-bind,
}
use master_recovery.Collections.Set
use master_recovery.Collections.Set.{Set}
use master_recovery.Types.Basic.{Id32, Bytes}
use master_recovery.Types.RecoveryV3.{ConfigCapsuleV3}
use master_recovery.Wire.Frame.{WireError}
use master_recovery.Wire.Messages
use master_recovery.Wire.Rotation.Ids.{Distinct, AllNew, AllNew-insert}
use master_recovery.Network.Validation.{
  ProtocolError, invalid_vote, Crypto, SignedVote, written, validate_signer_membership,
  verify_membership, verify_signature, check_vote, check_votes, check_threshold,
}
use master_recovery.Network.Validation.Steps.{bail-ok, bail-last, then-ok, written-ok}

-- The key is the signer's in the set that the capsule commits to.
pub record IsMember (c : Crypto) (capsule : ConfigCapsuleV3) (signer_id : ℕ)
    (signer_public_key : Id32) (membership_proof : Bytes) : Type 0 where
  pub leaf : Bytes
  pub leaf_written : Messages.signer_leaf signer_id signer_public_key ≡ ok leaf
  pub proved :
      c.merkle_verify capsule.signer_set_commitment
        (c.sha256 leaf)
        (signer_id - 1)
        capsule.signer_count
        membership_proof
      ≡ true

-- The key's holder signed these bytes of a message.
pub record IsSigned (c : Crypto) (public_key : Id32) (message : Result WireError Bytes)
    (signature : Bytes) : Type 0 where
  pub transcript : Bytes
  pub is_written : message ≡ ok transcript
  pub signed : c.verify public_key transcript signature ≡ true

pub record Counts (c : Crypto) (capsule : ConfigCapsuleV3) (vote : SignedVote) : Type 0 where
  pub matches : vote.mismatched ≡ false
  pub positive : 0 < vote.signer_id
  pub within : vote.signer_id ≤ capsule.signer_count
  pub member : IsMember c capsule vote.signer_id vote.signer_public_key vote.signer_membership_proof
  pub signed : IsSigned c vote.signer_public_key vote.transcript vote.signer_signature

abbrev pub AllCount : Crypto → ConfigCapsuleV3 → List SignedVote → Type 0
AllCount c capsule [] = Unit {0}
AllCount c capsule (vote ∷ votes) = Counts c capsule vote × AllCount c capsule votes

abbrev pub signer_ids : List SignedVote → List ℕ
signer_ids votes = map (λ vote. vote.signer_id) votes

pub record IsBacked (c : Crypto) (capsule : ConfigCapsuleV3) (votes : List SignedVote)
    : Type 0 where
  pub all_count : AllCount c capsule votes
  pub distinct : Distinct (signer_ids votes)
  pub threshold : capsule.signer_threshold ≤ length votes

module _ (c : Crypto) (capsule : ConfigCapsuleV3) where
  pub verify_membership-IsMember :
      (signer_id : ℕ) (key : Id32) (proof : Bytes)
      → verify_membership c signer_id key proof capsule ≡ ok tt
      → IsMember c capsule signer_id key proof
  unfolding verify_membership
  verify_membership-IsMember signer_id key proof h =
      let (leaf, hl, h1) = ok-bind (written (Messages.signer_leaf signer_id key)) _ tt h in
      let proved = bail-last _ _ tt h1 in
      record { leaf = leaf; leaf_written = written-ok _ leaf hl; proved = ground arith }

  pub verify_signature-IsSigned :
      (key : Id32) (message : Result WireError Bytes) (transcript signature : Bytes)
      → written message ≡ ok transcript
      → verify_signature c key transcript signature ≡ ok tt
      → IsSigned c key message signature
  unfolding verify_signature
  verify_signature-IsSigned key message transcript signature hw h =
      let signed = bail-last (not (c.verify key transcript signature)) _ tt h in
      record {
        transcript = transcript;
        is_written = written-ok message transcript hw;
        signed = ground arith;
      }

  check_vote-Counts :
      (vote : SignedVote)
      → vote.mismatched ≡ false
      → check_vote c capsule vote ≡ ok tt
      → Counts c capsule vote
  unfolding check_vote validate_signer_membership
  check_vote-Counts vote m h =
      let (u, hm, h1) =
        then-ok
          (validate_signer_membership c vote.signer_id vote.signer_public_key
            vote.signer_membership_proof capsule)
          _ tt h in
      let (range, hp) =
        bail-ok _ _
          (verify_membership c vote.signer_id vote.signer_public_key vote.signer_membership_proof
            capsule)
          tt hm in
      let (transcript, hw, h2) = ok-bind (written vote.transcript) _ tt h1 in
      record {
        matches = m;
        positive = ground arith;
        within = ground arith;
        member =
            verify_membership-IsMember vote.signer_id vote.signer_public_key
              vote.signer_membership_proof hp;
        signed =
            verify_signature-IsSigned vote.signer_public_key vote.transcript transcript
              vote.signer_signature hw h2;
      }

  vote_taken :
      (bad : Bool) (checked : Result ProtocolError (Unit {0})) (rest : Result ProtocolError Set)
      (s : Set)
      → (if bad then err invalid_vote else checked >> rest) ≡ ok s
      → (bad ≡ false) × (checked ≡ ok tt) × (rest ≡ ok s)
  vote_taken true checked rest s h = absurd (cc h)
  vote_taken false (ok u) rest s h = (refl, refl, h)
  vote_taken false (err e) rest s h = absurd (cc h)

  votes_taken :
      (s t : Set) (votes : List SignedVote)
      → check_votes c capsule s votes ≡ ok t
      → AllCount c capsule votes
        × Distinct (signer_ids votes)
        × AllNew s (signer_ids votes)
        × (Set.size t ≡ Set.size s + length votes)
  unfolding check_votes
  votes_taken s t [] h = (tt, tt, tt, ground arith)
  votes_taken s t (vote ∷ votes) h =
      let (fresh, hv, hr) = vote_taken (vote.mismatched || Set.contains s vote.signer_id) _ _ t h in
      let (counts, distinct, new, size) = votes_taken (Set.insert s vote.signer_id) t votes hr in
      let (new_rest, avoids) = AllNew-insert s vote.signer_id (signer_ids votes) new in
      let matches : vote.mismatched ≡ false = ground arith in
      let absent : Set.contains s vote.signer_id ≡ false = ground arith in
      (
        (check_vote-Counts vote matches hv, counts),
        (avoids, distinct),
        (absent, new_rest),
        ground (arith, size, Set.size-insert s vote.signer_id, absent),
      )

  -- Votes that pass the check come from at least a threshold of distinct signers; each agrees with its
  -- certificate, its signer is from 1 to the signer count and proved to be in the committed set, and the
  -- signer's key verifies its signature of the vote's transcript.
  pub check_threshold-IsBacked :
      (votes : List SignedVote) → check_threshold c capsule votes ≡ ok tt → IsBacked c capsule votes
  unfolding check_threshold
  check_threshold-IsBacked votes h =
      let (ids, hv, h1) = ok-bind (check_votes c capsule Set.empty votes) _ tt h in
      let few = bail-last _ _ tt h1 in
      let (counts, distinct, new, size) = votes_taken Set.empty ids votes hv in
      record {
        all_count = counts;
        distinct = distinct;
        threshold = ground (arith, size, Set.size-empty);
      }
