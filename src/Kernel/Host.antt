-- ===== src/Kernel/Host.antt =====
-- What the kernel calls outside the repository: Python's json, hashlib, base64, urllib and datetime,
-- and the validators that the jsonschema package builds from the contract. `Host` has these calls as
-- fields; src/shared_mind/canonical.py is defined on top of them.
use Prim.Native.String.{◌++◌}
use shared_mind.Base.{ℕ, String, Bool, Option, List, Table}
use shared_mind.Documents.{Actor, Proposition, Registry, Proposal, VersionBundle}
use shared_mind.Kernel.Json.{Json}
use shared_mind.Kernel.State.{
  Bytes, ClaimRow, EvidenceRow, ConflictRow, SourceRow, Envelope, LedgerDocument, ReceiptDocument,
}
use shared_mind.Continuity.Rows

-- An active claim of a family.
pub record Member : Type 0 where
  pub claim_id : String
  pub proposition_hash : String
  pub version : ℕ

-- The values of `_state_root_for_schema`: each table in the order of its key, a source with the hash
-- of its content.
pub record StateDocument : Type 0 where
  pub sources : Table (SourceRow × String)
  pub claims : Table ClaimRow
  pub evidence : Table EvidenceRow
  pub conflicts : Table ConflictRow
  pub continuity : Rows.State

-- The Python values that the kernel encodes as canonical JSON.
pub data Document : Type 0 where
  proposition : Proposition → Document
  member_ids : List String → Document
  active_set : List Member → Document
  family_values : List Json → Document
  registry : Registry → Document
  envelope : Envelope → Document
  state : StateDocument → Document

-- json.dumps(...).encode("utf-8") on a submitted value
pub data Encoding : Type 0 where
  encoded : Bytes → Encoding
  recursion_error type_error : Encoding

pub record Host : Type 0 where
  -- json.dumps(value, ensure_ascii=False, sort_keys=True, separators=(",", ":")).encode("utf-8")
  pub dumps : Document → Bytes
  pub encode : Json → Encoding
  -- hashlib.sha256(value).hexdigest()
  pub sha256_hex : Bytes → String
  -- bytes.decode("utf-8"), and none for a UnicodeDecodeError
  pub decode : Bytes → Option String
  -- base64.b64decode(payload, validate=True), and none for an error; unquote_to_bytes(payload)
  pub b64decode : String → Option Bytes
  pub unquote : String → Bytes
  -- datetime.fromisoformat(value.replace("Z", "+00:00")).astimezone(utc), in microseconds after
  -- datetime.min, and none for a ValueError; whether the parsed value has an offset
  pub instant : String → Option ℕ
  pub has_offset : String → Bool
  -- the contract validator on a submitted value, with the proposal that a valid value is
  pub contract : Json → Option Proposal
  -- of a value that it passes and that is no proposal: its versions, where it has such a field
  pub other_document : Json → Option (Option VersionBundle)
  pub actor_ref : Json → Option Actor
  pub ledger_entry_valid : LedgerDocument → Bool
  pub receipt_valid : ReceiptDocument → Bool
  -- the patterns of record ids and idempotency keys
  pub is_record_id : String → Bool
  pub is_idempotency_key : String → Bool
  -- f"{type(proposal).__module__}.{type(proposal).__qualname__}"
  pub type_name : Json → String
  -- the text that a TEXT NOT NULL column of sqlite3 stores for a number or a Boolean, by its JSON, and
  -- none where it cannot be bound or is stored as NULL
  pub literal_text : String → Option String

module _ (h : Host) where
  unfoldable pub sha256_bytes : Bytes → String
  sha256_bytes value = "sha256:" ++ h.sha256_hex value

  unfoldable pub sha256_json : Document → String
  sha256_json value = "sha256:" ++ h.sha256_hex (h.dumps value)
