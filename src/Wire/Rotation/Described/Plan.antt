-- ===== src/Wire/Rotation/Described/Plan.antt =====
-- What the transcripts of the intent to rotate and the plan write.
use master_recovery.Prelude.{ℕ, refl, List, [], ◌∷◌, ◌++◌, map, length}
use master_recovery.Types.Basic.{Id32}
use master_recovery.Types.Epoch.{RotationContext, RotationIntent, DpssSuiteId}
use master_recovery.Types.Ceremony.{GuardianRouteV3, SignerRotationIntentContribution, RotationPlan}
use master_recovery.Wire.Bytes.{ascii}
use master_recovery.Wire.Transcript.{u16, id_bytes}
use master_recovery.Wire.Rotation.{max_rotation_actors, dpss_suite_id, reason_id, route_into}
use master_recovery.Wire.Fields.{word, block}
use master_recovery.Wire.Encoding.{◌⊕◌, bytes-Writes, u16-Writes, u64-Writes}
use master_recovery.Wire.Rotation.Items.{
  Item, Piece, plain, rows, flatten, length-map, map-AllShaped,
}
use master_recovery.Wire.Rotation.Described.{
  count-Writes, each-Writes, ends, config_ref_fields, config_ref-Writes, context_fields,
  context-Writes, sealed_fields, sealed-Writes, route_fields, route-Writes, IsDescribed, described,
  refused-IsDescribed, after-IsDescribed, b, w2, w8, config_ref_shapes, context_shapes,
  sealed_shapes, route_shapes,
}
use master_recovery.Wire.Rotation.Plan.{
  guardian_roster_v3, rotation_intent, signer_rotation_intent_contribution,
  rotation_intent_share_context_v3, rotation_plan,
}

abbrev pub guardian_roster_v3_items : List GuardianRouteV3 → List Item
guardian_roster_v3_items routes =
    rows (length routes) (map (λ (route : GuardianRouteV3). route_fields route) routes) ∷ []

abbrev pub guardian_roster_v3_layout : List Piece
guardian_roster_v3_layout = Piece.rows (route_shapes) ∷ []

pub guardian_roster_v3-IsDescribed :
    (routes : List GuardianRouteV3)
    → IsDescribed
        (guardian_roster_v3 routes)
        (ascii "gp/private-guardian-roster/v3")
        (guardian_roster_v3_items routes)
        guardian_roster_v3_layout
unfolding guardian_roster_v3 flatten
guardian_roster_v3-IsDescribed routes = after-IsDescribed _ (
    described (ascii "gp/private-guardian-roster/v3")
      (count-Writes (length routes) max_rotation_actors
        ⊕ ends (
            each-Writes (λ (route : GuardianRouteV3). route_into route)
              (λ (route : GuardianRouteV3). route_fields route) routes
              (λ route. route-Writes route)))
      (
        length-map (λ (route : GuardianRouteV3). route_fields route) routes,
        map-AllShaped (route_shapes) (λ (route : GuardianRouteV3). route_fields route) routes
            (λ a. refl),
        tt,
      ))

abbrev pub rotation_intent_items : RotationIntent → List Item
rotation_intent_items value =
    plain (
      (context_fields value.context
        ++ (word 2 (reason_id value.reason)
            ∷ word 2 value.old_guardian_count
            ∷ word 2 value.old_guardian_threshold
            ∷ [])))
    ∷ rows (length value.allowed_new_guardian_count)
        (map (λ (count : ℕ). word 2 count ∷ []) value.allowed_new_guardian_count)
    ∷ rows (length value.allowed_new_guardian_threshold)
        (map (λ (threshold : ℕ). word 2 threshold ∷ []) value.allowed_new_guardian_threshold)
    ∷ rows (length value.allowed_dpss_suites)
        (map (λ (suite : DpssSuiteId). word 2 (dpss_suite_id suite) ∷ []) value.allowed_dpss_suites)
    ∷ plain (
        block (id_bytes value.selection_constraints_commitment)
        ∷ block (id_bytes value.witness_read_qc_hash)
        ∷ [])
    ∷ []

abbrev pub rotation_intent_layout : List Piece
rotation_intent_layout =
    Piece.plain (context_shapes ++ (w2 ∷ w2 ∷ w2 ∷ []))
    ∷ Piece.rows (w2 ∷ [])
    ∷ Piece.rows (w2 ∷ [])
    ∷ Piece.rows (w2 ∷ [])
    ∷ Piece.plain (b ∷ b ∷ [])
    ∷ []

pub rotation_intent-IsDescribed :
    (value : RotationIntent)
    → IsDescribed
        (rotation_intent value)
        (ascii "gp/rotation-intent/v3")
        (rotation_intent_items value)
        rotation_intent_layout
unfolding rotation_intent flatten
rotation_intent-IsDescribed value =
    described (ascii "gp/rotation-intent/v3")
      (context-Writes value.context
        ⊕ u16-Writes (reason_id value.reason)
        ⊕ u16-Writes value.old_guardian_count
        ⊕ u16-Writes value.old_guardian_threshold
        ⊕ count-Writes (length value.allowed_new_guardian_count) max_rotation_actors
        ⊕ each-Writes (λ (count : ℕ). u16 count) (λ (count : ℕ). word 2 count ∷ [])
            value.allowed_new_guardian_count (λ count. u16-Writes count)
        ⊕ count-Writes (length value.allowed_new_guardian_threshold) max_rotation_actors
        ⊕ each-Writes (λ (threshold : ℕ). u16 threshold) (λ (threshold : ℕ). word 2 threshold ∷ [])
            value.allowed_new_guardian_threshold (λ threshold. u16-Writes threshold)
        ⊕ count-Writes (length value.allowed_dpss_suites) 32
        ⊕ each-Writes (λ (suite : DpssSuiteId). u16 (dpss_suite_id suite))
            (λ (suite : DpssSuiteId). word 2 (dpss_suite_id suite) ∷ []) value.allowed_dpss_suites
            (λ suite. u16-Writes (dpss_suite_id suite))
        ⊕ bytes-Writes (id_bytes value.selection_constraints_commitment)
        ⊕ bytes-Writes (id_bytes value.witness_read_qc_hash))
      (
        refl,
        (
          length-map (λ (count : ℕ). word 2 count ∷ []) value.allowed_new_guardian_count,
          map-AllShaped (w2 ∷ []) (λ (count : ℕ). word 2 count ∷ [])
              value.allowed_new_guardian_count (λ a. refl),
          (
            length-map (λ (threshold : ℕ). word 2 threshold ∷ [])
                value.allowed_new_guardian_threshold,
            map-AllShaped (w2 ∷ []) (λ (threshold : ℕ). word 2 threshold ∷ [])
                value.allowed_new_guardian_threshold (λ a. refl),
            (
              length-map (λ (suite : DpssSuiteId). word 2 (dpss_suite_id suite) ∷ [])
                  value.allowed_dpss_suites,
              map-AllShaped (w2 ∷ []) (λ (suite : DpssSuiteId). word 2 (dpss_suite_id suite) ∷ [])
                  value.allowed_dpss_suites (λ a. refl),
              (refl, tt),
            ),
          ),
        ),
      )

abbrev pub signer_rotation_intent_contribution_items : SignerRotationIntentContribution → List Item
signer_rotation_intent_contribution_items value =
    plain (
      (context_fields value.context
        ++ (block (id_bytes value.intent_hash)
            ∷ word 2 value.signer_id
            ∷ block (id_bytes value.signer_public_key)
            ∷ block value.signer_membership_proof
            ∷ sealed_fields value.encrypted_authorization_share)))
    ∷ []

abbrev pub signer_rotation_intent_contribution_layout : List Piece
signer_rotation_intent_contribution_layout =
    Piece.plain (context_shapes ++ (b ∷ w2 ∷ b ∷ b ∷ sealed_shapes ++ ([]))) ∷ []

pub signer_rotation_intent_contribution-IsDescribed :
    (value : SignerRotationIntentContribution)
    → IsDescribed
        (signer_rotation_intent_contribution value)
        (ascii "gp/signer-rotation-intent-contribution/v3")
        (signer_rotation_intent_contribution_items value)
        signer_rotation_intent_contribution_layout
unfolding signer_rotation_intent_contribution flatten
signer_rotation_intent_contribution-IsDescribed value =
    described (ascii "gp/signer-rotation-intent-contribution/v3")
      (context-Writes value.context
        ⊕ bytes-Writes (id_bytes value.intent_hash)
        ⊕ u16-Writes value.signer_id
        ⊕ bytes-Writes (id_bytes value.signer_public_key)
        ⊕ bytes-Writes value.signer_membership_proof
        ⊕ sealed-Writes value.encrypted_authorization_share)
      (refl, tt)

abbrev pub rotation_intent_share_context_v3_items : RotationContext → Id32 → ℕ → List Item
rotation_intent_share_context_v3_items context intent_hash signer_id =
    plain ((context_fields context ++ (block (id_bytes intent_hash) ∷ word 2 signer_id ∷ []))) ∷ []

abbrev pub rotation_intent_share_context_v3_layout : List Piece
rotation_intent_share_context_v3_layout = Piece.plain (context_shapes ++ (b ∷ w2 ∷ [])) ∷ []

pub rotation_intent_share_context_v3-IsDescribed :
    (context : RotationContext) (intent_hash : Id32) (signer_id : ℕ)
    → IsDescribed
        (rotation_intent_share_context_v3 context intent_hash signer_id)
        (ascii "gp/rotation-intent-a-share-context/v3")
        (rotation_intent_share_context_v3_items context intent_hash signer_id)
        rotation_intent_share_context_v3_layout
unfolding rotation_intent_share_context_v3 flatten
rotation_intent_share_context_v3-IsDescribed context intent_hash signer_id =
    described (ascii "gp/rotation-intent-a-share-context/v3")
      (context-Writes context ⊕ bytes-Writes (id_bytes intent_hash) ⊕ u16-Writes signer_id)
      (refl, tt)

abbrev pub rotation_plan_items : RotationPlan → List Item
rotation_plan_items value =
    plain (
      (context_fields value.context
        ++ (block (id_bytes value.intent_hash)
            ∷ (config_ref_fields value.predecessor ++ (config_ref_fields value.successor)))))
    ∷ rows (length value.old_roster)
        (map (λ (route : GuardianRouteV3). route_fields route) value.old_roster)
    ∷ rows (length value.new_roster)
        (map (λ (route : GuardianRouteV3). route_fields route) value.new_roster)
    ∷ plain (
        block (id_bytes value.old_roster_commitment)
        ∷ block (id_bytes value.new_roster_commitment)
        ∷ word 2 value.old_guardian_threshold
        ∷ word 2 value.new_guardian_threshold
        ∷ word 2 value.data_shards
        ∷ word 2 value.total_shards
        ∷ word 2 (dpss_suite_id value.dpss_suite)
        ∷ block (id_bytes value.dpss_session_id)
        ∷ block (id_bytes value.dpss_qualified_set_commitment)
        ∷ word 8 value.minimum_delay_secs
        ∷ word 8 value.preparation_deadline
        ∷ word 8 value.drain_deadline
        ∷ [])
    ∷ []

abbrev pub rotation_plan_layout : List Piece
rotation_plan_layout =
    Piece.plain (context_shapes ++ (b ∷ config_ref_shapes ++ (config_ref_shapes ++ ([]))))
    ∷ Piece.rows (route_shapes)
    ∷ Piece.rows (route_shapes)
    ∷ Piece.plain (b ∷ b ∷ w2 ∷ w2 ∷ w2 ∷ w2 ∷ w2 ∷ b ∷ b ∷ w8 ∷ w8 ∷ w8 ∷ [])
    ∷ []

pub rotation_plan-IsDescribed :
    (value : RotationPlan)
    → IsDescribed
        (rotation_plan value)
        (ascii "gp/rotation-plan/v3")
        (rotation_plan_items value)
        rotation_plan_layout
unfolding rotation_plan flatten
rotation_plan-IsDescribed value = refused-IsDescribed _ (
    after-IsDescribed _ (
      after-IsDescribed _ (
        described (ascii "gp/rotation-plan/v3")
          (context-Writes value.context
            ⊕ bytes-Writes (id_bytes value.intent_hash)
            ⊕ config_ref-Writes value.predecessor
            ⊕ config_ref-Writes value.successor
            ⊕ count-Writes (length value.old_roster) max_rotation_actors
            ⊕ each-Writes (λ (route : GuardianRouteV3). route_into route)
                (λ (route : GuardianRouteV3). route_fields route) value.old_roster
                (λ route. route-Writes route)
            ⊕ count-Writes (length value.new_roster) max_rotation_actors
            ⊕ each-Writes (λ (route : GuardianRouteV3). route_into route)
                (λ (route : GuardianRouteV3). route_fields route) value.new_roster
                (λ route. route-Writes route)
            ⊕ bytes-Writes (id_bytes value.old_roster_commitment)
            ⊕ bytes-Writes (id_bytes value.new_roster_commitment)
            ⊕ u16-Writes value.old_guardian_threshold
            ⊕ u16-Writes value.new_guardian_threshold
            ⊕ u16-Writes value.data_shards
            ⊕ u16-Writes value.total_shards
            ⊕ u16-Writes (dpss_suite_id value.dpss_suite)
            ⊕ bytes-Writes (id_bytes value.dpss_session_id)
            ⊕ bytes-Writes (id_bytes value.dpss_qualified_set_commitment)
            ⊕ u64-Writes value.minimum_delay_secs
            ⊕ u64-Writes value.preparation_deadline
            ⊕ u64-Writes value.drain_deadline)
          (
            refl,
            (
              length-map (λ (route : GuardianRouteV3). route_fields route) value.old_roster,
              map-AllShaped (route_shapes) (λ (route : GuardianRouteV3). route_fields route)
                  value.old_roster (λ a. refl),
              (
                length-map (λ (route : GuardianRouteV3). route_fields route) value.new_roster,
                map-AllShaped (route_shapes) (λ (route : GuardianRouteV3). route_fields route)
                    value.new_roster (λ a. refl),
                (refl, tt),
              ),
            ),
          ))))
