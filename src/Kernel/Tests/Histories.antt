-- ===== src/Kernel/Tests/Histories.antt =====
-- One claim that is admitted and asserted, and two that open a conflict.
use shared_mind.Kernel.Host.{sha256_json}
use shared_mind.Kernel.Claims
use shared_mind.Base.{refl, String, [], ◌∷◌, none, find, Every, Table}
use shared_mind.Documents.{exclusive_value_conflict, ClaimStatus, open_conflict}
use shared_mind.Kernel.State.{Tables, ClaimRow, ConflictRow, no_tables}
use shared_mind.Kernel.Semantics.{predicate_of, family_key}
use shared_mind.Kernel.Claims.{admit_claim}
use shared_mind.Kernel.Replay.Families.{IsMember}
use shared_mind.Kernel.Tests.Data.{host, colors, color, says, claim_of}

abbrev row_of : String → String → ClaimRow
row_of id value = record {
  proposition_hash = "sha256:10";
  proposition = says value;
  document = claim_of id value;
  status = ClaimStatus.active;
  version = 1;
  superseded_by = none;
}

abbrev pub with_red : Tables
with_red = record no_tables { claims = ("claim_red", row_of "claim_red" "red") ∷ [] }

abbrev both : Table ClaimRow
both = ("claim_blue", row_of "claim_blue" "blue") ∷ ("claim_red", row_of "claim_red" "red") ∷ []

abbrev family : String
family = "sha256:11110110"

abbrev opened : ConflictRow
opened = record {
  family_key = family;
  kind = exclusive_value_conflict;
  member_digest = "sha256:110110";
  members = "claim_blue" ∷ "claim_red" ∷ [];
  status = open_conflict;
  episode = 1;
  version = 1;
  resolution = none;
  opened_seq = 1;
}

members : Every (IsMember host colors both family) ("claim_blue" ∷ "claim_red" ∷ [])
unfolding find predicate_of family_key sha256_json
members = (
  (row_of "claim_blue" "blue", color, refl, refl, refl),
  ((row_of "claim_red" "red", color, refl, refl, refl), tt),
)
