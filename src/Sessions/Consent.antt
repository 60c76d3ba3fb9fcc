-- ===== src/Sessions/Consent.antt =====
-- src/evidence_engine/domain/sessions/consent.py. `replace` runs the constructor's checks again, so
-- a withdrawal can be refused.
use oratoria_engine.Prelude.{
  ℕ, String, Bool, true, false, not, ◌&&◌, Option, none, some, if◌then◌else◌,
}
use oratoria_engine.Prelude.Int.{ℤ, pos, pos_part, ltb_ℤ, eqb_ℤ}
use oratoria_engine.Shared.Errors.{Result, ok, consent_violation, raise_if, ◌>>◌}
use oratoria_engine.Shared.Provenance.{SemanticVersion, same_version}

pub record RetentionPolicy : Type 0 where
  pub policy_version : SemanticVersion
  pub retain_raw_media : Bool
  pub raw_media_ttl_seconds : ℕ
  pub retain_derived_aggregates : Bool

-- `RetentionPolicy(…)`
unfoldable pub retention_policy : SemanticVersion → Bool → ℤ → Bool → Result RetentionPolicy
retention_policy policy_version retain_raw_media ttl retain_derived = do
  raise_if (ltb_ℤ ttl (pos 0)) consent_violation
  raise_if (retain_raw_media && eqb_ℤ ttl (pos 0)) consent_violation
  raise_if (not retain_raw_media && not (eqb_ℤ ttl (pos 0))) consent_violation
  ok (record {
    policy_version = policy_version;
    retain_raw_media = retain_raw_media;
    raw_media_ttl_seconds = pos_part ttl;
    retain_derived_aggregates = retain_derived;
  })

-- `RetentionPolicy.ephemeral`
unfoldable pub ephemeral : SemanticVersion → Result RetentionPolicy
unfolding retention_policy
ephemeral policy_version = retention_policy policy_version false (pos 0) true

pub record ConsentReceipt : Type 0 where
  pub session_id : String
  pub policy_version : SemanticVersion
  pub retention : RetentionPolicy
  pub granted_at_ms : ℕ
  pub withdrawn_at_ms : Option ℕ

abbrev before_grant : Option ℤ → ℤ → Bool
before_grant none granted = false
before_grant (some withdrawn) granted = ltb_ℤ withdrawn granted

abbrev pos_part? : Option ℤ → Option ℕ
pos_part? none = none
pos_part? (some z) = some (pos_part z)

-- `ConsentReceipt(…)`
unfoldable pub consent_receipt :
    String → SemanticVersion → RetentionPolicy → ℤ → Option ℤ → Result ConsentReceipt
unfolding same_version
consent_receipt session_id policy_version retention granted withdrawn = do
  raise_if (ltb_ℤ granted (pos 0)) consent_violation
  raise_if (before_grant withdrawn granted) consent_violation
  raise_if (not (same_version retention.policy_version policy_version)) consent_violation
  ok (record {
    session_id = session_id;
    policy_version = policy_version;
    retention = retention;
    granted_at_ms = pos_part granted;
    withdrawn_at_ms = pos_part? withdrawn;
  })

unfoldable pub is_active : ConsentReceipt → Bool
is_active r = elim r.withdrawn_at_ms [ none ↦ true | some _ ↦ false ]

unfoldable pub withdraw : ConsentReceipt → ℕ → Result ConsentReceipt
unfolding is_active consent_receipt
withdraw r at_ms =
    if not (is_active r)
    then ok r
    else consent_receipt r.session_id r.policy_version r.retention (pos r.granted_at_ms)
        (some (pos at_ms))

unfoldable pub require_active : ConsentReceipt → Result (Unit {0})
unfolding is_active
require_active r = raise_if (not (is_active r)) consent_violation
