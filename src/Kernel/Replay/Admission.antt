-- ===== src/Kernel/Replay/Admission.antt =====
-- The checks and INSERTs that `Kernel._assert_claim` and `Kernel._replay_assert_claim` share
-- (src/shared_mind/kernel.py).
use shared_mind.Base.{
  ◌≡◌, refl, subst, ◌∙◌, String, not, none, some, List, [], ◌∷◌, arith, Table, find, insert,
  find-insert, eq_refl, HasKeys-insert, All-insert, ok, >>=-eq-ok, raise_if, or_raise, fold_result,
  contains, ltb, length, ◌==◌,
}
use shared_mind.Documents.{Registry, Claim, ClaimStatus, Predicate, EvidenceLink}
use shared_mind.Continuity.Errors.{Failure, validation_failure}
use shared_mind.Continuity.Errors
use shared_mind.Kernel.Host.{Host, sha256_json, proposition}
use shared_mind.Kernel.State.{ClaimRow, Tables}
use shared_mind.Kernel.Semantics.{predicate_of, validate_predicate_semantics}
use shared_mind.Kernel.Conflicts.{insert_unique}
use shared_mind.Kernel.Claims.{admit_claim, validate_and_insert_evidence}
use shared_mind.Kernel.Replay.Families.{IsKnown, IsSound, IsConflict-Keeps, Keeps-insert}

-- Evidence leaves the claims and the conflicts as they are.
pub validate_and_insert_evidence-tables :
    (h : Host) (id : String) (link : EvidenceLink) (t t' : Tables)
    → validate_and_insert_evidence h id link t ≡ ok t'
    → (t'.claims ≡ t.claims) × (t'.conflicts ≡ t.conflicts)
unfolding validate_and_insert_evidence
validate_and_insert_evidence-tables h id link t t' e = ground (arith, e)

evidence-tables :
    (h : Host) (id : String) (links : List EvidenceLink) (t t' : Tables)
    → fold_result (validate_and_insert_evidence h id) links t ≡ ok t'
    → (t'.claims ≡ t.claims) × (t'.conflicts ≡ t.conflicts)
unfolding fold_result
evidence-tables h id [] t t' e = ground (arith, e)
evidence-tables h id (link ∷ links) t t' e =
    let first = >>=-eq-ok (validate_and_insert_evidence h id link t) _ e in
    let one = validate_and_insert_evidence-tables h id link t first.0 first.1 in
    let rest = evidence-tables h id links first.0 t' first.2 in (rest.0 ∙ one.0, rest.1 ∙ one.1)

insert_unique-inserted :
    (id : String) (row : ClaimRow) (claims claims' : Table ClaimRow)
    → insert_unique id row claims ≡ ok claims'
    → (find id claims ≡ none) × (claims' ≡ insert id row claims)
unfolding insert_unique
insert_unique-inserted id row claims claims' e = ground (arith, e)

abbrev claim_row : Claim → ClaimRow
claim_row claim = record {
  proposition_hash = claim.proposition_hash;
  proposition = claim.proposition;
  document = claim;
  status = ClaimStatus.active;
  version = 1;
  superseded_by = none;
}

-- What an admitted claim leaves.
pub record Admitted (h : Host) (reg : Registry) (claim : Claim) (d : Predicate) (t t' : Tables)
    : Type 0 where
  pub row : ClaimRow
  pub known : predicate_of reg claim.proposition.predicate ≡ some d
  pub new : find claim.claim_id t.claims ≡ none
  pub claims : t'.claims ≡ insert claim.claim_id row t.claims
  pub conflicts : t'.conflicts ≡ t.conflicts
  pub proposition : row.proposition ≡ claim.proposition

-- A claim that is admitted has a predicate of the registry and an identifier that was new: it stands
-- in the claims beside the old ones with its own proposition, and the conflicts are as they were,
-- whatever evidence came with it.
pub admit_claim-Admitted :
    (h : Host) (reg : Registry) (claim : Claim) (evidence : List EvidenceLink) (t t' : Tables)
    (d : Predicate)
    → admit_claim h reg claim evidence t ≡ ok (d, t')
    → Admitted h reg claim d t t'
unfolding admit_claim
admit_claim-Admitted h reg claim evidence t t' d e =
    let p = claim.proposition in
    let a =
      >>=-eq-ok
        (raise_if (not (sha256_json h (proposition p) == claim.proposition_hash))
          (validation_failure Errors.proposition_hash_mismatch))
        _ e in
    let b = >>=-eq-ok (or_raise (predicate_of reg claim.proposition.predicate) _) _ a.2 in
    let c =
      >>=-eq-ok
        (raise_if (not (contains p.subject.entity_type b.0.subject_types))
          (validation_failure Errors.subject_type_mismatch))
        _ b.2 in
    let f = >>=-eq-ok (validate_predicate_semantics h claim.proposition b.0 evidence) _ c.2 in
    let g =
      >>=-eq-ok
        (raise_if (ltb (length evidence) b.0.minimum_evidence_links)
          (validation_failure Errors.insufficient_evidence))
        _ f.2 in
    let i = >>=-eq-ok (insert_unique claim.claim_id (claim_row claim) t.claims) _ g.2 in
    let j =
      >>=-eq-ok
        (fold_result (validate_and_insert_evidence h claim.claim_id) evidence
          (record t { claims = i.0 }))
        _ i.2 in
    let same : Path (Predicate × Tables) (b.0, j.0) (d, t') = ground (arith, j.2) in
    let kept = evidence-tables h claim.claim_id evidence (record t { claims = i.0 }) j.0 j.1 in
    let written = insert_unique-inserted claim.claim_id (claim_row claim) t.claims i.0 i.1 in
    subst (λ (x : Predicate × Tables). Admitted h reg claim x.0 t x.1) same
      (record {
        row = claim_row claim;
        known = ground (arith, b.1);
        new = written.0;
        claims = kept.0 ∙ written.1;
        conflicts = kept.1;
        proposition = refl;
      })

-- An admitted claim keeps the state sound.
pub Admitted-IsSound :
    (h : Host) (reg : Registry) (claim : Claim) (d : Predicate) (t t' : Tables)
    → Admitted h reg claim d t t'
    → IsSound h reg t
    → IsSound h reg t'
Admitted-IsSound h reg claim d t t' a s = record {
  claim_keys = rw a.claims (HasKeys-insert claim.claim_id a.row t.claims a.new s.claim_keys);
  conflict_keys = rw a.conflicts s.conflict_keys;
  known = rw a.claims (
      All-insert (IsKnown h reg) claim.claim_id a.row t.claims s.known
        (d, rw a.proposition a.known));
  sound =
      rw (a.claims, a.conflicts)
        (λ id row found.
          IsConflict-Keeps h reg t.claims (insert claim.claim_id a.row t.claims)
            (Keeps-insert h reg claim.claim_id a.row t.claims a.new) id row (s.sound id row found));
}

pub Admitted-found :
    (h : Host) (reg : Registry) (claim : Claim) (d : Predicate) (t t' : Tables)
    (a : Admitted h reg claim d t t')
    → find claim.claim_id t'.claims ≡ some a.row
Admitted-found h reg claim d t t' a = rw a.claims (
    ground
      (arith, find-insert claim.claim_id claim.claim_id a.row t.claims, eq_refl claim.claim_id))
