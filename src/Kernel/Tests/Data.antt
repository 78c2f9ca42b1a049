-- ===== src/Kernel/Tests/Data.antt =====
-- A host that hashes by the lengths of its input, a registry of one predicate, and a proposal.
use Prim.Native.String.{◌++◌ as join}
use shared_mind.Base.{
  ℕ, zero, suc, ◌≡◌, refl, String, Bool, true, false, none, some, [], ◌∷◌, length, ◌==◌,
  if◌then◌else◌, Result, ok, err, arith,
}
use shared_mind.Documents.{
  Actor, human, Registry, Predicate, scalar_kind, scalar, Temporal, Cardinality, Proposition,
  Polarity, Claim, Decision, DecisionStatus, record_decision, Operation, assert_claim,
  VersionBundle, Proposal,
}
use shared_mind.Continuity.Errors.{Failure}
use shared_mind.Kernel.Json.{Json, object, text, field, end, get}
use shared_mind.Kernel.Depth.{size}
use shared_mind.Kernel.Host.{
  Host, Document, encoded, proposition, member_ids, active_set, family_values, registry, envelope,
  state,
}
use shared_mind.Kernel.State.{Bytes, Database, ReceiptRow}

-- one letter for each byte and each unit of it
abbrev tally : ℕ → String
tally zero = "0"
tally (suc n) = join "1" (tally n)

abbrev pub digest : Bytes → String
digest [] = ""
digest (b ∷ bs) = join (tally b) (digest bs)

abbrev pub bytes_of : Document → Bytes
bytes_of (proposition p) = 1 ∷ []
bytes_of (member_ids ids) = 2 ∷ length ids ∷ []
bytes_of (active_set members) = 3 ∷ length members ∷ []
bytes_of (family_values values) = 4 ∷ length values ∷ []
bytes_of (registry r) = 5 ∷ []
bytes_of (envelope e) = 6 ∷ e.seq ∷ []
bytes_of (state s) = 7 ∷ length s.claims ∷ length s.conflicts ∷ []

abbrev pub ada : Actor
ada = record { actor_id = "ada"; actor_type = human }

abbrev pub color : Predicate
color = record {
  key = "color";
  subject_types = "thing" ∷ [];
  object = scalar_kind "string";
  allowed_fields = [];
  required_fields = [];
  temporal = Temporal.optional;
  cardinality = Cardinality.one;
  family_key_fields = ("predicate" ∷ []) ∷ ("subject" ∷ []) ∷ [];
  conflict_rules = "EXCLUSIVE_OBJECT" ∷ [];
  minimum_evidence_links = 0;
  allowed_interpretations = [];
}

abbrev pub colors : Registry
colors = record {
  version = "registry@1";
  guard_dsl_version = "guards@1";
  predicates = color ∷ [];
  rest = "";
}

abbrev pub says : String → Proposition
says value = record {
  subject = record { entity_type = "thing"; entity_id = "door" };
  predicate = "color";
  object = scalar "string" value;
  polarity = Polarity.positive;
  scope = [];
  valid_from = none;
  valid_to = none;
  proposition_version = "proposition@1";
}

abbrev pub claim_of : String → String → Claim
claim_of id value = record {
  claim_id = id;
  proposition_hash = "sha256:10";
  proposition = says value;
  asserted_by = ada;
  rest = "";
}

abbrev pub choice : Decision
choice = record {
  decision_id = "decision_1";
  status = DecisionStatus.active;
  version = 1;
  replaced_by_decision_id = none;
  related_source_revision_ids = [];
  related_claim_ids = "claim_red" ∷ [];
  rest = "";
}

abbrev pub bundle : VersionBundle
bundle = record {
  schema = "1.3.0";
  predicate_registry = "registry@1";
  predicate_registry_hash = "sha256:111110";
  conflict_rules = "conflict-rules@1";
  guard_dsl = "guards@1";
  projection = "markdown-projection@3";
}

-- Two claims that exclude each other, and a decision on one of them.
abbrev pub painting : Proposal
painting = record {
  proposal_id = "painting";
  idempotency_key = "key_1";
  proposer = ada;
  proposed_at = "2026-01-01T00:00:00Z";
  versions = bundle;
  reads = [];
  guards = [];
  operations =
      assert_claim (claim_of "claim_red" "red") []
      ∷ assert_claim (claim_of "claim_blue" "blue") []
      ∷ Operation.continuity (record_decision choice)
      ∷ [];
  rest = "";
}

-- the text under a key
unfoldable pub text_field : String → Json → String
unfolding get
text_field k j = elim (get k j) [ some (text t) ↦ t | _ ↦ "" ]

abbrev pub host : Host
host = record {
  dumps = bytes_of;
  encode = λ j. encoded (size j ∷ []);
  sha256_hex = digest;
  decode = λ b. some "";
  b64decode = λ s. some [];
  unquote = λ s. [];
  instant = λ s. some 0;
  has_offset = λ s. true;
  contract = λ j. if text_field "proposal_id" j == "painting" then some painting else none;
  actor_ref = λ j. some ada;
  ledger_entry_valid = λ d. true;
  receipt_valid = λ d. true;
  is_record_id = λ s. true;
  is_idempotency_key = λ s. true;
  type_name = λ j. "builtins.dict";
  literal_text = λ s. some s;
  other_document = λ j. none;
}

-- the value of the proposal, and another value under its key
abbrev pub submitted : Json
submitted =
    object (field "proposal_id" (text "painting") (field "idempotency_key" (text "key_1") end))

abbrev pub other : Json
other = object (field "idempotency_key" (text "key_1") end)

abbrev pub now : String
now = "2026-01-02T00:00:00Z"

abbrev pub database_of : Database → Result Failure (Database × ReceiptRow) → Database
database_of db (ok (db', row)) = db'
database_of db (err e) = db

abbrev pub is_ok : Result Failure (Database × ReceiptRow) → Bool
is_ok (ok _) = true
is_ok (err _) = false

abbrev pub receipt_of : (r : Result Failure (Database × ReceiptRow)) → is_ok r ≡ true → ReceiptRow
receipt_of (ok (db', row)) e = row
receipt_of (err x) e = absurd (ground (arith, e))

-- a call that succeeds returns the database and the receipt that are read off it
pub ok_parts :
    (db : Database) (r : Result Failure (Database × ReceiptRow)) (e : is_ok r ≡ true)
    → r ≡ ok (database_of db r, receipt_of r e)
ok_parts db (ok x) e = refl
ok_parts db (err x) e = absurd (ground (arith, e))
