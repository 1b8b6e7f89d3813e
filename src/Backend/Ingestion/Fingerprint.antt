-- ===== src/Backend/Ingestion/Fingerprint.antt =====
-- backend/src/sre_agent/domain/alerts/fingerprint.py: the key by which a repeated alert is recognized.
-- SHA-256 and the bytes of `json.dumps` with sorted keys are arguments.
use cloud_sre_ai_agent.Prelude.{ℕ, List}
use cloud_sre_ai_agent.Backend.Alerts.Json.{Text}
use cloud_sre_ai_agent.Backend.Ingestion.Rows.{AlertState}

-- The dictionary that `make_dedup_key` hashes; its times are written by `isoformat`.
pub record DedupParts : Type 0 where
  pub source_id : Text
  pub fingerprint : Text
  pub status : AlertState
  pub starts_at : ℕ
  pub ends_at : ℕ
  pub raw_sha256 : Text

unfoldable pub hash_raw_body : (List ℕ → Text) → List ℕ → Text
hash_raw_body sha256 raw_body = sha256 raw_body

-- `_canonical_sha256`, of these parts
unfoldable pub canonical_sha256 : (List ℕ → Text) → (DedupParts → List ℕ) → DedupParts → Text
canonical_sha256 sha256 dumps parts = sha256 (dumps parts)

unfoldable pub make_dedup_key :
    (List ℕ → Text) → (DedupParts → List ℕ) → Text → Text → AlertState → ℕ → ℕ → Text → Text
make_dedup_key sha256 dumps source_id fingerprint status starts_at ends_at raw_sha256 =
    canonical_sha256 sha256 dumps (record {
      source_id = source_id;
      fingerprint = fingerprint;
      status = status;
      starts_at = starts_at;
      ends_at = ends_at;
      raw_sha256 = raw_sha256;
    })
