-- ===== src/Kernel/Claims.antt =====
-- Sources, claims and evidence: the reducers of kernel.py on them.
use Prim.Native.Char.{code}
use shared_mind.Base.{
  ℕ, zero, suc, ◌-◌, String, Bool, not, ◌&&◌, ◌||◌, Option, none, some, List, [], ◌∷◌, ◌++◌, ◌==◌,
  ltb, nat_eq, if◌then◌else◌, is_some, length, contains, find, insert, after_prefix, Result, ok,
  ◌>>=◌, ◌>>◌, raise_if, or_raise, fold_result,
}
use shared_mind.Documents.{
  SourceRevision, Claim, ClaimStatus, EvidenceLink, Selector, Predicate, Registry, Event,
  source_revision_registered, claim_asserted,
}
use shared_mind.Continuity.Errors.{
  Failure, Checked, transaction_conflict, validation_failure, integrity_error, value_error,
}
use shared_mind.Continuity.Errors
use shared_mind.Kernel.Host.{Host, sha256_json, sha256_bytes, proposition}
use shared_mind.Kernel.State.{Bytes, SourceRow, Tables}
use shared_mind.Kernel.Semantics.{predicate_of, validate_predicate_semantics}
use shared_mind.Kernel.Conflicts.{insert_unique, open_conflicts}

-- text.split(",", 1), and none without a comma
split_comma : String → Option (String × String)
split_comma String.[] = none
split_comma (String.◌∷◌ c s) =
    let rest = split_comma s in
    if nat_eq (code c) b','
    then some ("", s)
    else (elim rest [ none ↦ none | some (a, b) ↦ some (String.◌∷◌ c a, b) ])

ends_with : String → String → Bool
ends_with suffix String.[] = suffix == ""
ends_with suffix (String.◌∷◌ c s) = suffix == String.◌∷◌ c s || ends_with suffix s

-- content[start:end]
skip : ℕ → Bytes → Bytes
skip zero b = b
skip (suc n) [] = []
skip (suc n) (x ∷ b) = skip n b

keep : ℕ → Bytes → Bytes
keep zero b = []
keep (suc n) [] = []
keep (suc n) (x ∷ b) = x ∷ keep n b

unfoldable pub slice : ℕ → ℕ → Bytes → Bytes
unfolding skip keep
slice start end b = keep (end - start) (skip start b)

unavailable : Failure
unavailable = validation_failure Errors.source_content_unavailable

module _ (h : Host) where
  payload_bytes : String × String → Result Failure Bytes
  unfolding ends_with unavailable
  payload_bytes (header, payload) =
      if ends_with ";base64" header
      then or_raise (h.b64decode payload) unavailable
      else ok (h.unquote payload)

  unfoldable pub content_from_blob_ref : String → Result Failure Bytes
  unfolding after_prefix split_comma payload_bytes unavailable
  content_from_blob_ref blob_ref = do
    rest ← or_raise (after_prefix "data:" blob_ref) unavailable
    parts ← or_raise (split_comma rest) unavailable
    payload_bytes parts

  -- the content of a stored revision with the same hash, or the content of the reference
  unfoldable pub source_content : SourceRevision → Option SourceRow → Result Failure Bytes
  unfolding content_from_blob_ref
  source_content source none = content_from_blob_ref source.blob_ref
  source_content source (some row) =
      raise_if (not (row.content_hash == source.content_hash))
        (validation_failure Errors.source_revision_immutability_violation)
      >> ok row.content

  unfoldable pub register_source_revision :
      SourceRevision → Tables → List Event → Result Failure (Tables × List Event)
  unfolding source_content
  register_source_revision source t events = do
    let existing = find source.revision_id t.sources
    content ← source_content source existing
    raise_if (not (sha256_bytes h content == source.content_hash))
        (validation_failure Errors.source_content_hash_mismatch)
    ok (
      if is_some existing then t else record t {
        sources =
            insert source.revision_id
              (record { content_hash = source.content_hash; document = source; content = content })
              t.sources;
      },
      events ++ source_revision_registered source ∷ [],
    )

  -- the excerpt of the selector, as text and by its hash
  selector_matches : Selector → Bytes → Result Failure Bool
  selector_matches selector content =
      let excerpt = slice selector.start_byte selector.end_byte content in
      or_raise (h.decode excerpt) value_error >>= λ decoded.
      ok (decoded == selector.excerpt && sha256_bytes h excerpt == selector.excerpt_hash)

  unfoldable pub validate_and_insert_evidence :
      String → EvidenceLink → Tables → Result Failure Tables
  unfolding selector_matches
  validate_and_insert_evidence claim_id link t = do
    raise_if (not (link.claim_id == claim_id)) (validation_failure Errors.evidence_claim_mismatch)
    source ←
        or_raise (find link.source_revision_id t.sources)
          (validation_failure Errors.source_revision_not_found)
    matches ← selector_matches link.selector source.content
    raise_if (not matches) (validation_failure Errors.evidence_selector_mismatch)
    evidence ←
        insert_unique link.evidence_link_id
          (record {
            claim_id = claim_id;
            source_revision_id = link.source_revision_id;
            document = link;
          })
          t.evidence
    raise_if (not (is_some (find claim_id t.claims))) (integrity_error Errors.reference_not_found)
    ok (record t { evidence = evidence })

  module _ (registry : Registry) where
    -- The part that `_assert_claim` and `_replay_assert_claim` share: the checks, the INSERT of the
    -- claim and the INSERTs of its evidence.
    unfoldable pub admit_claim :
        Claim → List EvidenceLink → Tables → Result Failure (Predicate × Tables)
    unfolding validate_and_insert_evidence
    admit_claim claim evidence t = do
      let p = claim.proposition
      raise_if (not (sha256_json h (proposition p) == claim.proposition_hash))
          (validation_failure Errors.proposition_hash_mismatch)
      predicate ←
          or_raise (predicate_of registry p.predicate) (validation_failure Errors.unknown_predicate)
      raise_if (not (contains p.subject.entity_type predicate.subject_types))
          (validation_failure Errors.subject_type_mismatch)
      validate_predicate_semantics h p predicate evidence
      raise_if (ltb (length evidence) predicate.minimum_evidence_links)
          (validation_failure Errors.insufficient_evidence)
      claims ←
          insert_unique claim.claim_id
            (record {
              proposition_hash = claim.proposition_hash;
              proposition = p;
              document = claim;
              status = ClaimStatus.active;
              version = 1;
              superseded_by = none;
            })
            t.claims
      t' ←
          fold_result (validate_and_insert_evidence claim.claim_id) evidence
            (record t { claims = claims })
      ok (predicate, t')

    -- An operation's tables, events and the conflicts that it opened.
    unfoldable pub assert_claim :
        Claim
        → List EvidenceLink
        → List String
        → ℕ
        → Tables
        → List Event
        → List String
        → Result Failure (Tables × List Event × List String)
    unfolding admit_claim
    assert_claim claim evidence ignored opened_seq t events conflict_ids = do
      (predicate, t') ← admit_claim claim evidence t
      (conflicts, events', opened) ←
          open_conflicts h claim predicate ignored opened_seq t'
            (events ++ claim_asserted claim evidence ∷ [])
      ok (record t' { conflicts = conflicts }, events', conflict_ids ++ opened)
