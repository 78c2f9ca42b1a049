-- ===== src/Kernel/Verify/Proposals.antt =====
-- The conflicts of a whole proposal: `_apply_operation` of src/shared_mind/kernel.py for each of its
-- operations, against `_conflict_ids_from_events`.
use shared_mind.Base.{
  ℕ, String, not, ◌≡◌, refl, ap, ◌∙◌, subst, List, [], ◌∷◌, ok, err, Result, ◌>>=◌, >>=-eq-ok,
  fold_result, guard-eq-ok, or_raise, for_each, find, sorted, distinct, ◌==◌, nat_eq,
}
use shared_mind.Documents.{
  Actor, Claim, EvidenceLink, Registry, Event, Operation, Proposal, SourceRevision, Resolution,
  ContinuityOperation, assert_claim, attach_evidence, supersede_claim, retract_claim,
  resolve_conflict, claim_superseded,
}
use shared_mind.Continuity.Errors.{
  Failure, transaction_conflict, validation_failure, integrity_error, value_error, uncaught,
  continuity_conflict, continuity_validation,
}
use shared_mind.Continuity.Errors
use shared_mind.Continuity.Reducers
use shared_mind.Kernel.Host.{Host, sha256_bytes}
use shared_mind.Kernel.State.{Tables}
use shared_mind.Kernel.Semantics.{
  predicate_of, actor_is_authorized, validate_evidence_interpretations,
}
use shared_mind.Kernel.Claims
use shared_mind.Kernel.Claims.{source_content, validate_and_insert_evidence}
use shared_mind.Kernel.Operations
use shared_mind.Kernel.Operations.{
  Progress, dispatch, translate, keeping, active_claim, open_conflict_row, evidence_of,
  is_partition, reduce_attach_evidence, reduce_retract_claim, reduce_resolve_conflict,
  reduce_continuity, reduce_supersede_claim,
}
use shared_mind.Kernel.Commit.{apply_operations}
use shared_mind.Kernel.Verify.Documents.{opened_in, conflict_ids_from_events}
use shared_mind.Kernel.Verify.Opened.{
  Names, keeps, ok-injective, opened_in-other, assert_claim-Names,
}

-- A reducer that opens nothing.
Quiet : List Event → Result Failure (Tables × List Event) → Type 0
Quiet events r =
    (t' : Tables) (events' : List Event) (opened : List String)
    → r ≡ ok (t', events')
    → Names events opened
    → Names events' opened

keeping-Names :
    (r : Result Failure (Tables × List Event)) (ids : List String) (events : List Event)
    (p : Progress)
    → Quiet events r
    → keeping ids r ≡ ok p
    → Names events ids
    → Names p.1 p.2
unfolding Quiet
keeping-Names (ok x) ids events p quiet e n =
    let same : Path Progress (x.0, x.1, ids) p = ok-injective e in
    subst (λ (y : Progress). Names y.1 y.2) same (quiet x.0 x.1 ids refl n)
keeping-Names (err x) ids events p quiet e n = absurd (cc e)

module _ (h : Host) where
  register_source_revision-Quiet :
      (source : SourceRevision) (t : Tables) (events : List Event)
      → Quiet events (Claims.register_source_revision h source t events)
  unfolding Quiet Claims.register_source_revision opened_in
  register_source_revision-Quiet source t events t' events' opened e n =
      let content = >>=-eq-ok (source_content h source (find source.revision_id t.sources)) _ e in
      let matching =
        guard-eq-ok (not (sha256_bytes h content.0 == source.content_hash)) _ _ content.2 in
      keeps _ t' events events' (Event.source_revision_registered source) opened matching.1 refl n

  retract_claim-Quiet :
      (proposer : Actor) (target : String) (links : List String) (policy rationale : String)
      (t : Tables) (events : List Event)
      → Quiet events (reduce_retract_claim proposer target links policy rationale t events)
  unfolding Quiet reduce_retract_claim opened_in
  retract_claim-Quiet proposer target links policy rationale t events t' events' opened e n =
      let row = >>=-eq-ok (active_claim (find target t.claims)) _ e in
      let allowed =
        guard-eq-ok (not (actor_is_authorized proposer row.0.document.asserted_by)) _ _ row.2 in
      let links_found =
        >>=-eq-ok (for_each (evidence_of (target ∷ []) t.evidence) links) _ allowed.1 in
      keeps _ t' events events' (Event.claim_retracted target proposer policy rationale) opened
        links_found.2 refl n

  resolve_conflict-Quiet :
      (proposer : Actor) (id digest : String) (resolution : Resolution) (t : Tables)
      (events : List Event)
      → Quiet events (reduce_resolve_conflict proposer id digest resolution t events)
  unfolding Quiet reduce_resolve_conflict opened_in
  resolve_conflict-Quiet proposer id digest resolution t events t' events' opened e n =
      let row = >>=-eq-ok (open_conflict_row (find id t.conflicts)) _ e in
      let same = guard-eq-ok (not (row.0.member_digest == digest)) _ _ row.2 in
      let epoch = guard-eq-ok (not (nat_eq resolution.resolution_epoch row.0.episode)) _ _ same.1 in
      let allowed =
        guard-eq-ok (not (actor_is_authorized proposer resolution.resolver)) _ _ epoch.1 in
      let parts =
        guard-eq-ok
          (not (
            is_partition resolution.selected_claim_ids resolution.rejected_claim_ids row.0.members))
          _ _ allowed.1 in
      let links =
        >>=-eq-ok (for_each (evidence_of row.0.members t.evidence) resolution.evidence_link_ids) _
          parts.1 in
      keeps _ t' events events' (Event.conflict_resolved id resolution) opened links.2 refl n

  continuity-Quiet :
      (op : ContinuityOperation) (t : Tables) (events : List Event)
      → Quiet events (reduce_continuity op t events)
  unfolding Quiet reduce_continuity opened_in
  continuity-Quiet op t events t' events' opened e n =
      let done = >>=-eq-ok (Reducers.reduce t.continuity op) _ e in
      keeps _ t' events events' (Event.continuity done.0.1) opened done.2 refl n

  module _ (reg : Registry) where
    attach_evidence-Quiet :
        (link : EvidenceLink) (t : Tables) (events : List Event)
        → Quiet events (reduce_attach_evidence h reg link t events)
    unfolding Quiet reduce_attach_evidence opened_in
    attach_evidence-Quiet link t events t' events' opened e n =
        let row = >>=-eq-ok (active_claim (find link.claim_id t.claims)) _ e in
        let predicate =
          >>=-eq-ok
            (or_raise (predicate_of reg row.0.proposition.predicate)
              (validation_failure Errors.unknown_predicate))
            _ row.2 in
        let checked =
          >>=-eq-ok (validate_evidence_interpretations predicate.0 (link ∷ [])) _ predicate.2 in
        let inserted =
          >>=-eq-ok (validate_and_insert_evidence h link.claim_id link t) _ checked.2 in
        keeps _ t' events events' (Event.evidence_attached link) opened inserted.2 refl n

    supersede_claim-Names :
        (target : String) (claim : Claim) (evidence : List EvidenceLink) (rationale : String)
        (seq : ℕ) (t : Tables) (events : List Event) (ids : List String) (p : Progress)
        → reduce_supersede_claim h reg target claim evidence rationale seq (t, events, ids) ≡ ok p
        → Names events ids
        → Names p.1 p.2
    unfolding reduce_supersede_claim opened_in
    supersede_claim-Names target claim evidence rationale seq t events ids p e n =
        let row = >>=-eq-ok (active_claim (find target t.claims) >>= λ _. ok tt) _ e in
        let asserted =
          >>=-eq-ok (Claims.assert_claim h reg claim evidence (target ∷ []) seq t events ids) _
            row.2 in
        let named =
          assert_claim-Names h reg claim evidence (target ∷ []) seq t events ids asserted.0
            asserted.1 n in
        let superseded = claim_superseded target claim.claim_id rationale in
        subst (λ (x : Progress). Names x.1 x.2) (ok-injective asserted.2)
          (opened_in-other asserted.0.1 superseded refl ∙ named)

    module _ (proposer : Actor) (seq : ℕ) where
      dispatch-Names :
          (op : Operation) (p p' : Progress)
          → dispatch h reg proposer seq op p ≡ ok p'
          → Names p.1 p.2
          → Names p'.1 p'.2
      unfolding dispatch
      dispatch-Names (Operation.register_source_revision source) (t, events, ids) p' e n =
          keeping-Names _ ids events p' (register_source_revision-Quiet source t events) e n
      dispatch-Names (assert_claim claim evidence) (t, events, ids) p' e n =
          assert_claim-Names h reg claim evidence [] seq t events ids p' e n
      dispatch-Names (attach_evidence link) (t, events, ids) p' e n =
          keeping-Names _ ids events p' (attach_evidence-Quiet link t events) e n
      dispatch-Names (supersede_claim target claim evidence rationale) (t, events, ids) p' e n =
          supersede_claim-Names target claim evidence rationale seq t events ids p' e n
      dispatch-Names (retract_claim target links policy rationale) (t, events, ids) p' e n =
          keeping-Names _ ids events p'
            (retract_claim-Quiet proposer target links policy rationale t events) e n
      dispatch-Names (resolve_conflict id digest resolution) (t, events, ids) p' e n =
          keeping-Names _ ids events p'
            (resolve_conflict-Quiet proposer id digest resolution t events) e n
      dispatch-Names (Operation.continuity op) (t, events, ids) p' e n =
          keeping-Names _ ids events p' (continuity-Quiet op t events) e n

      operations-Names :
          (ops : List Operation) (p p' : Progress)
          → fold_result (Operations.apply_operation h reg proposer seq) ops p ≡ ok p'
          → Names p.1 p.2
          → Names p'.1 p'.2
      unfolding fold_result Operations.apply_operation
      operations-Names [] p p' e n = subst (λ (x : Progress). Names x.1 x.2) (ok-injective e) n
      operations-Names (op ∷ ops) p p' e n =
          let first = >>=-eq-ok (Operations.apply_operation h reg proposer seq op p) _ e in
          operations-Names ops first.0 p' first.2 (
            dispatch-Names op p first.0
              (translated (dispatch h reg proposer seq op p) first.0 first.1) n)
        where
          translated : (r : Result Failure Progress) (x : Progress) → translate r ≡ ok x → r ≡ ok x
          translated (ok y) x e = e
          translated (err (continuity_conflict _)) x e = absurd (cc e)
          translated (err (continuity_validation _)) x e = absurd (cc e)
          translated (err (transaction_conflict _)) x e = absurd (cc e)
          translated (err (validation_failure _)) x e = absurd (cc e)
          translated (err (integrity_error _)) x e = absurd (cc e)
          translated (err value_error) x e = absurd (cc e)
          translated (err uncaught) x e = absurd (cc e)

    -- The conflicts of the receipt are the conflicts that the events of the ledger row open.
    pub apply_operations-conflict_ids :
        (p : Proposal) (seq : ℕ) (t t' : Tables) (events : List Event) (opened : List String)
        → apply_operations h reg p seq t ≡ ok (t', events, opened)
        → conflict_ids_from_events events ≡ sorted (distinct opened)
    unfolding apply_operations conflict_ids_from_events opened_in
    apply_operations-conflict_ids p seq t t' events opened e =
        ap (λ ids. sorted (distinct ids))
          (operations-Names p.proposer seq p.operations (t, [], []) (t', events, opened) e refl)
