-- ===== src/Wire/Rotation/Described/Contexts.antt =====
-- What the transcripts of the contexts of ciphertexts, capsules, policies and custody write.
use master_recovery.Prelude.{ℕ, refl, List, [], ◌∷◌, ◌++◌, map, length}
use master_recovery.Types.Basic.{Id32}
use master_recovery.Types.Rotation.{ConfigRef}
use master_recovery.Types.Epoch.{GuardianPolicyV3}
use master_recovery.Types.RecoveryV3.{
  ConfigCapsuleV3, CustodyChallenge, CustodyBlockProof, CustodyResponse,
}
use master_recovery.Wire.Bytes.{ascii}
use master_recovery.Wire.Transcript.{◌>>◌, bytes, u32, id_bytes}
use master_recovery.Wire.Rotation.{dpss_suite_id}
use master_recovery.Wire.Fields.{word, block}
use master_recovery.Wire.Encoding.{◌⊕◌, bytes-Writes, u16-Writes, u32-Writes, u64-Writes}
use master_recovery.Wire.Rotation.Items.{
  Item, Piece, plain, rows, flatten, length-map, map-AllShaped,
}
use master_recovery.Wire.Rotation.Described.{
  count-Writes, each-Writes, ends, config_ref_fields, config_ref-Writes, IsDescribed, described,
  refused-IsDescribed, after-IsDescribed, b, w2, w4, w8, config_ref_shapes,
}
use master_recovery.Wire.Rotation.Contexts.{
  guardian_share_context_v3, guardian_fragment_context_v3, descriptor_context_v3,
  config_capsule_body_v3, guardian_policy_body_v3, payload_context_v3, custody_challenge,
  custody_response,
}

abbrev pub guardian_share_context_v3_items : ConfigRef → ℕ → List Item
guardian_share_context_v3_items config_ref guardian_index =
    plain ((config_ref_fields config_ref ++ (word 2 guardian_index ∷ []))) ∷ []

abbrev pub guardian_share_context_v3_layout : List Piece
guardian_share_context_v3_layout = Piece.plain (config_ref_shapes ++ (w2 ∷ [])) ∷ []

pub guardian_share_context_v3-IsDescribed :
    (config_ref : ConfigRef) (guardian_index : ℕ)
    → IsDescribed
        (guardian_share_context_v3 config_ref guardian_index)
        (ascii "gp/guardian-dek-share-context/v3")
        (guardian_share_context_v3_items config_ref guardian_index)
        guardian_share_context_v3_layout
unfolding guardian_share_context_v3 flatten
guardian_share_context_v3-IsDescribed config_ref guardian_index =
    described (ascii "gp/guardian-dek-share-context/v3")
      (config_ref-Writes config_ref ⊕ u16-Writes guardian_index) (refl, tt)

abbrev pub guardian_fragment_context_v3_items : ConfigRef → ℕ → ℕ → List Item
guardian_fragment_context_v3_items config_ref guardian_index fragment_index =
    plain ((config_ref_fields config_ref ++ (word 2 guardian_index ∷ word 2 fragment_index ∷ [])))
    ∷ []

abbrev pub guardian_fragment_context_v3_layout : List Piece
guardian_fragment_context_v3_layout = Piece.plain (config_ref_shapes ++ (w2 ∷ w2 ∷ [])) ∷ []

pub guardian_fragment_context_v3-IsDescribed :
    (config_ref : ConfigRef) (guardian_index : ℕ) (fragment_index : ℕ)
    → IsDescribed
        (guardian_fragment_context_v3 config_ref guardian_index fragment_index)
        (ascii "gp/guardian-ciphertext-fragment-context/v3")
        (guardian_fragment_context_v3_items config_ref guardian_index fragment_index)
        guardian_fragment_context_v3_layout
unfolding guardian_fragment_context_v3 flatten
guardian_fragment_context_v3-IsDescribed config_ref guardian_index fragment_index =
    described (ascii "gp/guardian-ciphertext-fragment-context/v3")
      (config_ref-Writes config_ref ⊕ u16-Writes guardian_index ⊕ u16-Writes fragment_index)
      (refl, tt)

abbrev pub descriptor_context_v3_items : ConfigRef → List Item
descriptor_context_v3_items config_ref = plain (config_ref_fields config_ref) ∷ []

abbrev pub descriptor_context_v3_layout : List Piece
descriptor_context_v3_layout = Piece.plain (config_ref_shapes) ∷ []

pub descriptor_context_v3-IsDescribed :
    (config_ref : ConfigRef)
    → IsDescribed
        (descriptor_context_v3 config_ref)
        (ascii "gp/recovery-descriptor-context/v3")
        (descriptor_context_v3_items config_ref)
        descriptor_context_v3_layout
unfolding descriptor_context_v3 flatten
descriptor_context_v3-IsDescribed config_ref =
    described (ascii "gp/recovery-descriptor-context/v3") (config_ref-Writes config_ref) (refl, tt)

abbrev pub config_capsule_body_v3_items : ConfigCapsuleV3 → List Item
config_capsule_body_v3_items value =
    plain (
      word 2 value.protocol_version
      ∷ (config_ref_fields value.config_ref
          ++ (block (id_bytes value.predecessor_capsule_hash)
              ∷ word 2 value.signer_count
              ∷ word 2 value.signer_threshold
              ∷ word 2 value.guardian_count
              ∷ word 2 value.guardian_threshold
              ∷ word 8 value.minimum_recovery_delay
              ∷ word 8 value.max_request_lifetime
              ∷ block (id_bytes value.signer_set_commitment)
              ∷ block (id_bytes value.owner_cancel_public_key)
              ∷ word 2 (dpss_suite_id value.dpss_suite)
              ∷ block (id_bytes value.dpss_public_commitment)
              ∷ block (id_bytes value.ciphertext_fragment_root)
              ∷ block (id_bytes value.guardian_material_root)
              ∷ block value.encrypted_recovery_descriptor.nonce
              ∷ block value.encrypted_recovery_descriptor.ciphertext
              ∷ [])))
    ∷ []

abbrev pub config_capsule_body_v3_layout : List Piece
config_capsule_body_v3_layout =
    Piece.plain (
      w2 ∷ config_ref_shapes
      ++ (b ∷ w2 ∷ w2 ∷ w2 ∷ w2 ∷ w8 ∷ w8 ∷ b ∷ b ∷ w2 ∷ b ∷ b ∷ b ∷ b ∷ b ∷ []))
    ∷ []

pub config_capsule_body_v3-IsDescribed :
    (value : ConfigCapsuleV3)
    → IsDescribed
        (config_capsule_body_v3 value)
        (ascii "gp/config-capsule-body/v3")
        (config_capsule_body_v3_items value)
        config_capsule_body_v3_layout
unfolding config_capsule_body_v3 flatten
config_capsule_body_v3-IsDescribed value = refused-IsDescribed _ (
    described (ascii "gp/config-capsule-body/v3")
      (u16-Writes value.protocol_version
        ⊕ config_ref-Writes value.config_ref
        ⊕ bytes-Writes (id_bytes value.predecessor_capsule_hash)
        ⊕ u16-Writes value.signer_count
        ⊕ u16-Writes value.signer_threshold
        ⊕ u16-Writes value.guardian_count
        ⊕ u16-Writes value.guardian_threshold
        ⊕ u64-Writes value.minimum_recovery_delay
        ⊕ u64-Writes value.max_request_lifetime
        ⊕ bytes-Writes (id_bytes value.signer_set_commitment)
        ⊕ bytes-Writes (id_bytes value.owner_cancel_public_key)
        ⊕ u16-Writes (dpss_suite_id value.dpss_suite)
        ⊕ bytes-Writes (id_bytes value.dpss_public_commitment)
        ⊕ bytes-Writes (id_bytes value.ciphertext_fragment_root)
        ⊕ bytes-Writes (id_bytes value.guardian_material_root)
        ⊕ bytes-Writes value.encrypted_recovery_descriptor.nonce
        ⊕ bytes-Writes value.encrypted_recovery_descriptor.ciphertext)
      (refl, tt))

abbrev pub guardian_policy_body_v3_items : GuardianPolicyV3 → List Item
guardian_policy_body_v3_items value =
    plain (
      (config_ref_fields value.config_ref
        ++ (block (id_bytes value.signer_set_commitment)
            ∷ word 2 value.signer_count
            ∷ word 2 value.signer_threshold
            ∷ block (id_bytes value.owner_cancel_public_key)
            ∷ word 8 value.minimum_recovery_delay
            ∷ word 2 (dpss_suite_id value.dpss_suite)
            ∷ block (id_bytes value.dpss_public_commitment)
            ∷ block (id_bytes value.predecessor_capsule_hash)
            ∷ [])))
    ∷ []

abbrev pub guardian_policy_body_v3_layout : List Piece
guardian_policy_body_v3_layout =
    Piece.plain (config_ref_shapes ++ (b ∷ w2 ∷ w2 ∷ b ∷ w8 ∷ w2 ∷ b ∷ b ∷ [])) ∷ []

pub guardian_policy_body_v3-IsDescribed :
    (value : GuardianPolicyV3)
    → IsDescribed
        (guardian_policy_body_v3 value)
        (ascii "gp/guardian-policy-body/v3")
        (guardian_policy_body_v3_items value)
        guardian_policy_body_v3_layout
unfolding guardian_policy_body_v3 flatten
guardian_policy_body_v3-IsDescribed value = refused-IsDescribed _ (
    described (ascii "gp/guardian-policy-body/v3")
      (config_ref-Writes value.config_ref
        ⊕ bytes-Writes (id_bytes value.signer_set_commitment)
        ⊕ u16-Writes value.signer_count
        ⊕ u16-Writes value.signer_threshold
        ⊕ bytes-Writes (id_bytes value.owner_cancel_public_key)
        ⊕ u64-Writes value.minimum_recovery_delay
        ⊕ u16-Writes (dpss_suite_id value.dpss_suite)
        ⊕ bytes-Writes (id_bytes value.dpss_public_commitment)
        ⊕ bytes-Writes (id_bytes value.predecessor_capsule_hash))
      (refl, tt))

abbrev pub payload_context_v3_items : Id32 → ℕ → List Item
payload_context_v3_items config_id payload_generation =
    plain (block (id_bytes config_id) ∷ word 8 payload_generation ∷ []) ∷ []

abbrev pub payload_context_v3_layout : List Piece
payload_context_v3_layout = Piece.plain (b ∷ w8 ∷ []) ∷ []

pub payload_context_v3-IsDescribed :
    (config_id : Id32) (payload_generation : ℕ)
    → IsDescribed
        (payload_context_v3 config_id payload_generation)
        (ascii "gp/payload-context/v3")
        (payload_context_v3_items config_id payload_generation)
        payload_context_v3_layout
unfolding payload_context_v3 flatten
payload_context_v3-IsDescribed config_id payload_generation =
    described (ascii "gp/payload-context/v3")
      (bytes-Writes (id_bytes config_id) ⊕ u64-Writes payload_generation) (refl, tt)

abbrev pub custody_challenge_items : CustodyChallenge → List Item
custody_challenge_items value =
    plain (
      word 2 value.protocol_version
      ∷ (config_ref_fields value.config_ref
          ++ (block (id_bytes value.opaque_slot_id) ∷ block (id_bytes value.challenge_id) ∷ [])))
    ∷ rows (length value.block_indices) (map (λ (index : ℕ). word 4 index ∷ []) value.block_indices)
    ∷ plain (
        block (id_bytes value.nonce)
        ∷ block value.response_recipient_key
        ∷ word 8 value.expiry
        ∷ [])
    ∷ []

abbrev pub custody_challenge_layout : List Piece
custody_challenge_layout =
    Piece.plain (w2 ∷ config_ref_shapes ++ (b ∷ b ∷ []))
    ∷ Piece.rows (w4 ∷ [])
    ∷ Piece.plain (b ∷ b ∷ w8 ∷ [])
    ∷ []

pub custody_challenge-IsDescribed :
    (value : CustodyChallenge)
    → IsDescribed
        (custody_challenge value)
        (ascii "gp/custody-challenge/v3")
        (custody_challenge_items value)
        custody_challenge_layout
unfolding custody_challenge flatten
custody_challenge-IsDescribed value = refused-IsDescribed _ (
    after-IsDescribed _ (
      described (ascii "gp/custody-challenge/v3")
        (u16-Writes value.protocol_version
          ⊕ config_ref-Writes value.config_ref
          ⊕ bytes-Writes (id_bytes value.opaque_slot_id)
          ⊕ bytes-Writes (id_bytes value.challenge_id)
          ⊕ count-Writes (length value.block_indices) 4096
          ⊕ each-Writes (λ (index : ℕ). u32 index) (λ (index : ℕ). word 4 index ∷ [])
              value.block_indices (λ index. u32-Writes index)
          ⊕ bytes-Writes (id_bytes value.nonce)
          ⊕ bytes-Writes value.response_recipient_key
          ⊕ u64-Writes value.expiry)
        (
          refl,
          (
            length-map (λ (index : ℕ). word 4 index ∷ []) value.block_indices,
            map-AllShaped (w4 ∷ []) (λ (index : ℕ). word 4 index ∷ []) value.block_indices
                (λ a. refl),
            (refl, tt),
          ),
        )))

abbrev pub custody_response_items : CustodyResponse → List Item
custody_response_items value =
    plain (
      word 2 value.protocol_version
      ∷ (config_ref_fields value.config_ref
          ++ (block (id_bytes value.opaque_slot_id)
              ∷ block (id_bytes value.challenge_id)
              ∷ block (id_bytes value.nonce)
              ∷ word 2 value.guardian_index
              ∷ [])))
    ∷ rows (length value.proofs) (
        map
          (λ (proof : CustodyBlockProof).
            word 4 proof.block_index ∷ block proof.block ∷ block proof.merkle_path ∷ [])
          value.proofs)
    ∷ []

abbrev pub custody_response_layout : List Piece
custody_response_layout =
    Piece.plain (w2 ∷ config_ref_shapes ++ (b ∷ b ∷ b ∷ w2 ∷ []))
    ∷ Piece.rows (w4 ∷ b ∷ b ∷ [])
    ∷ []

pub custody_response-IsDescribed :
    (value : CustodyResponse)
    → IsDescribed
        (custody_response value)
        (ascii "gp/custody-response/v3")
        (custody_response_items value)
        custody_response_layout
unfolding custody_response flatten
custody_response-IsDescribed value = refused-IsDescribed _ (
    after-IsDescribed _ (
      described (ascii "gp/custody-response/v3")
        (u16-Writes value.protocol_version
          ⊕ config_ref-Writes value.config_ref
          ⊕ bytes-Writes (id_bytes value.opaque_slot_id)
          ⊕ bytes-Writes (id_bytes value.challenge_id)
          ⊕ bytes-Writes (id_bytes value.nonce)
          ⊕ u16-Writes value.guardian_index
          ⊕ count-Writes (length value.proofs) 4096
          ⊕ ends (
              each-Writes
                (λ (proof : CustodyBlockProof).
                  u32 proof.block_index >> bytes proof.block >> bytes proof.merkle_path)
                (λ (proof : CustodyBlockProof).
                  word 4 proof.block_index ∷ block proof.block ∷ block proof.merkle_path ∷ [])
                value.proofs
                (λ proof.
                  u32-Writes proof.block_index
                  ⊕ bytes-Writes proof.block
                  ⊕ bytes-Writes proof.merkle_path)))
        (
          refl,
          (
            length-map
                (λ (proof : CustodyBlockProof).
                  word 4 proof.block_index ∷ block proof.block ∷ block proof.merkle_path ∷ [])
                value.proofs,
            map-AllShaped (w4 ∷ b ∷ b ∷ [])
                (λ (proof : CustodyBlockProof).
                  word 4 proof.block_index ∷ block proof.block ∷ block proof.merkle_path ∷ [])
                value.proofs (λ a. refl),
            tt,
          ),
        )))
