-- ===== src/Documents/Epistemic.antt =====
-- Sources, claims, evidence links, conflicts and the predicate registry.
use shared_mind.Base.{ℕ, String, Option, List, String-discrete}

pub data ActorType : Type 0 where
  agent human service : ActorType

pub record Actor : Type 0 where
  pub actor_id : String
  pub actor_type : ActorType

pub data RecordType : Type 0 where
  source_revision claim conflict decision_record open_question work_item : RecordType

pub record RecordRef : Type 0 where
  pub record_type : RecordType
  pub record_id : String

pub record SourceRevision : Type 0 where
  pub revision_id : String
  pub content_hash : String
  pub blob_ref : String
  pub media_type : String
  pub captured_at : String
  pub registered_by : Actor
  pub rest : String

pub record Entity : Type 0 where
  pub entity_type : String
  pub entity_id : String

pub data Polarity : Type 0 where
  positive negative : Polarity

-- The object of a proposition, by its kind. `scalar` is any kind but these two.
pub data ObjectValue : Type 0 where
  entity : Entity → ObjectValue
  enum : (value : String) → ObjectValue
  scalar : (kind value : String) → ObjectValue

-- The fields of a scope that are present, `none` for a null.
pub record Proposition : Type 0 where
  pub subject : Entity
  pub predicate : String
  pub object : ObjectValue
  pub polarity : Polarity
  pub scope : List (String × Option String)
  pub valid_from : Option String
  pub valid_to : Option String
  pub proposition_version : String

pub record Claim : Type 0 where
  pub claim_id : String
  pub proposition_hash : String
  pub proposition : Proposition
  pub asserted_by : Actor
  pub rest : String

pub record Selector : Type 0 where
  pub start_byte : ℕ
  pub end_byte : ℕ
  pub excerpt : String
  pub excerpt_hash : String

pub record EvidenceLink : Type 0 where
  pub evidence_link_id : String
  pub claim_id : String
  pub source_revision_id : String
  pub selector : Selector
  pub interpretation : String
  pub rest : String

pub data ConflictKind : Type 0 where
  exclusive_value_conflict polarity_conflict temporal_overlap_conflict : ConflictKind

pub data ConflictStatus : Type 0 where
  open_conflict resolved : ConflictStatus

pub record Resolution : Type 0 where
  pub resolution_epoch : ℕ
  pub resolver : Actor
  pub selected_claim_ids : List String
  pub rejected_claim_ids : List String
  pub evidence_link_ids : List String
  pub rest : String

pub record Conflict : Type 0 where
  pub conflict_id : String
  pub family_key : String
  pub episode : ℕ
  pub kind : ConflictKind
  pub member_claim_ids : List String
  pub member_digest : String
  pub status : ConflictStatus
  pub opened_seq : ℕ
  pub resolution : Option Resolution

pub data ObjectDefinition : Type 0 where
  entity_types : List String → ObjectDefinition
  enum_values : List String → ObjectDefinition
  scalar_kind : String → ObjectDefinition

pub data Temporal : Type 0 where
  required optional forbidden : Temporal

pub data Cardinality : Type 0 where
  one many : Cardinality

pub record Predicate : Type 0 where
  pub key : String
  pub subject_types : List String
  pub object : ObjectDefinition
  pub allowed_fields : List String
  pub required_fields : List String
  pub temporal : Temporal
  pub cardinality : Cardinality
  pub family_key_fields : List (List String)
  pub conflict_rules : List String
  pub minimum_evidence_links : ℕ
  pub allowed_interpretations : List String

pub record Registry : Type 0 where
  pub version : String
  pub guard_dsl_version : String
  pub predicates : List Predicate
  pub rest : String

unfoldable pub ActorType-discrete : Discrete ActorType
ActorType-discrete = hlevel

unfoldable pub ObjectValue-discrete : Discrete ObjectValue
ObjectValue-discrete = hlevel String-discrete

unfoldable pub Polarity-discrete : Discrete Polarity
Polarity-discrete = hlevel

unfoldable pub ConflictKind-discrete : Discrete ConflictKind
ConflictKind-discrete = hlevel

unfoldable pub RecordRef-discrete : Discrete RecordRef
RecordRef-discrete = hlevel String-discrete

unfoldable pub RecordType-discrete : Discrete RecordType
RecordType-discrete = hlevel

unfoldable pub ConflictStatus-discrete : Discrete ConflictStatus
ConflictStatus-discrete = hlevel
