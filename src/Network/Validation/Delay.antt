-- ===== src/Network/Validation/Delay.antt =====
-- What the release of a rotation that passes its check says of the delay and of the signers.
use master_recovery.Prelude.{
  ℕ, ◌≡◌, ◌≤◌, ◌<◌, false, map, arith, length, saturating_add, ok, ok-bind,
}
use master_recovery.Types.Basic.{Id32, Bytes}
use master_recovery.Types.Ceremony.{
  RotationPlan, BeginRotationCertificate, RotationReleaseCertificate,
}
use master_recovery.Types.RecoveryV3.{ConfigCapsuleV3}
use master_recovery.Wire.Rotation.Plan as Transcripts
use master_recovery.Wire.Rotation.Votes
use master_recovery.Network.Validation.{Crypto, written, check_threshold}
use master_recovery.Network.Validation.Plan.{breaks_policy, try_u16, validate_rotation_plan_v3}
use master_recovery.Network.Validation.Rotation.{
  signed_begin, signed_rotation_release, validate_begin_rotation_certificate_v3,
  validate_rotation_release_certificate_v3,
}
use master_recovery.Network.Validation.Backing.{IsBacked, check_threshold-IsBacked}
use master_recovery.Network.Validation.Steps.{bail-ok, then-ok}

module _ (c : Crypto) where
  plan-keeps_policy :
      (plan : RotationPlan) (predecessor : ConfigCapsuleV3) (now : ℕ) (hash : Id32)
      → validate_rotation_plan_v3 c plan predecessor now ≡ ok hash
      → (breaks_policy plan predecessor now ≡ false)
        × (transcript : Bytes) × (written (Transcripts.rotation_plan plan) ≡ ok transcript)
        × (c.sha256 transcript ≡ hash)
  unfolding validate_rotation_plan_v3
  plan-keeps_policy plan predecessor now hash h =
      let (transcript, hw, h1) = ok-bind (written (Transcripts.rotation_plan plan)) _ hash h in
      let (keeps, h2) = bail-ok _ _ _ hash h1 in
      let (count, hn, h3) = ok-bind (try_u16 (length plan.new_roster)) _ hash h2 in
      let (enough, h4) = bail-ok _ _ _ hash h3 in
      let (old, ho, h5) =
        ok-bind (written (Transcripts.guardian_roster_v3 plan.old_roster)) _ hash h4 in
      let (new, hm, h6) =
        ok-bind (written (Transcripts.guardian_roster_v3 plan.new_roster)) _ hash h5 in
      let (rosters, h7) = bail-ok _ _ _ hash h6 in (keeps, transcript, hw, ground (arith, h7))

  -- A plan whose release is accepted at `now`: the predecessor's minimum delay since its issue has passed,
  -- and its preparation is not over; both certificates are for the same plan.
  pub record IsReleased (release : RotationReleaseCertificate) (begin : BeginRotationCertificate)
      (plan : RotationPlan) (predecessor : ConfigCapsuleV3) (now : ℕ) : Type 0 where
    pub delay : predecessor.minimum_recovery_delay ≤ plan.minimum_delay_secs
    pub waited : saturating_add begin.context.issued_at plan.minimum_delay_secs ≤ now
    pub in_time : now < plan.preparation_deadline
    pub same_plan : release.plan_hash ≡ begin.plan_hash
    pub begin_backed : IsBacked c predecessor (map signed_begin begin.votes)
    pub release_backed : IsBacked c predecessor (map signed_rotation_release release.votes)

  -- A release that is accepted comes after the delay of the plan, which is at least that of the predecessor
  -- capsule, counted from the issue of the begin certificate, and before the preparation deadline; it is for
  -- the plan of the begin certificate; and each of the two certificates is backed by a threshold of distinct
  -- signers of the predecessor.
  pub rotation_release-IsReleased :
      (release : RotationReleaseCertificate) (begin : BeginRotationCertificate)
      (plan : RotationPlan) (predecessor : ConfigCapsuleV3) (now : ℕ) (hash : Id32)
      → validate_rotation_release_certificate_v3 c release begin plan predecessor now ≡ ok hash
      → IsReleased release begin plan predecessor now
  unfolding validate_rotation_release_certificate_v3 validate_begin_rotation_certificate_v3
      breaks_policy
  rotation_release-IsReleased release begin plan predecessor now hash h =
      let (begin_hash, hb, h1) =
        ok-bind (validate_begin_rotation_certificate_v3 c begin plan predecessor now) _ hash h in
      let (transcript, hw, h2) =
        ok-bind (written (Votes.rotation_release_certificate release)) _ hash h1 in
      let (plan_transcript, hp, h3) =
        ok-bind (written (Transcripts.rotation_plan plan)) _ hash h2 in
      let (binds, h4) = bail-ok _ _ _ hash h3 in
      let (u, votes, h5) =
        then-ok (check_threshold c predecessor (map signed_rotation_release release.votes)) _ hash
          h4 in
      let (plan_hash, hq, g1) =
        ok-bind (validate_rotation_plan_v3 c plan predecessor now) _ begin_hash hb in
      let (begin_transcript, hx, g2) =
        ok-bind (written (Votes.begin_rotation_certificate begin)) _ begin_hash g1 in
      let (begin_binds, g3) = bail-ok _ _ _ begin_hash g2 in
      let (v, begin_votes, g4) =
        then-ok (check_threshold c predecessor (map signed_begin begin.votes)) _ begin_hash g3 in
      let (keeps, plan_written, hy, hz) = plan-keeps_policy plan predecessor now plan_hash hq in
      let same : plan_written ≡ plan_transcript = ground (arith, hp, hy) in
      record {
        delay = ground (arith, keeps);
        waited = ground (arith, binds, begin_binds);
        in_time = ground (arith, binds);
        same_plan = ground (arith, binds, begin_binds, hz, same);
        begin_backed =
            check_threshold-IsBacked c predecessor (map signed_begin begin.votes) begin_votes;
        release_backed =
            check_threshold-IsBacked c predecessor (map signed_rotation_release release.votes)
              votes;
      }
