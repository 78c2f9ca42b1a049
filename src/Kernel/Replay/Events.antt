-- ===== src/Kernel/Replay/Events.antt =====
-- The operations of `Kernel._apply_operation` beside `Kernel._apply_replay_event`
-- (src/shared_mind/kernel.py).
use shared_mind.Base.{
  ◌≡◌, refl, subst, ℕ, String, true, Option, none, some, List, [], ◌∷◌, ◌++◌, arith, find, update,
  find-insert_old, HasKeys-update, All-update, Result, ok, err, ◌>>=◌, >>=-eq-ok, or_raise,
}
use shared_mind.Documents.{
  Operation, assert_claim, attach_evidence, supersede_claim, retract_claim, resolve_conflict, Actor,
  Registry, SourceRevision, Claim, EvidenceLink, Resolution, Event, source_revision_registered,
  claim_asserted, evidence_attached, claim_superseded, claim_retracted, conflict_resolved,
  ContinuityOperation,
}
use shared_mind.Continuity.Errors.{Failure, validation_failure, transaction_conflict}
use shared_mind.Continuity.Errors
use shared_mind.Continuity.Reducers
use shared_mind.Continuity.Replay
use shared_mind.Kernel.Host.{Host}
use shared_mind.Kernel.State.{ClaimRow, Tables}
use shared_mind.Kernel.Semantics.{predicate_of, validate_evidence_interpretations}
use shared_mind.Kernel.Conflicts.{open_conflicts, is_active_claim}
use shared_mind.Kernel.Claims.{admit_claim, register_source_revision, validate_and_insert_evidence}
use shared_mind.Kernel.Claims
use shared_mind.Kernel.Operations.{
  active_claim, open_conflict_row, touch_row, supersede_row, retract_row, resolve_row,
  reduce_attach_evidence, reduce_retract_claim, reduce_resolve_conflict, reduce_continuity,
  reduce_supersede_claim, Progress, keeping, translate, dispatch, apply_operation,
}
use shared_mind.Kernel.Replay.{
  apply_replay_event, replay_assert_claim, update_active, update_open, replay_continuity,
  as_validation,
}
use shared_mind.Kernel.Replay.Families.{
  IsKnown, IsSound, IsConflict, IsConflict-Keeps, Keeps-update, Separates,
}
use shared_mind.Kernel.Replay.Traces.{ReplaysTo, ReplaysTo-one, ReplaysTo-trans}
use shared_mind.Kernel.Replay.Conflicts.{open_conflicts-Round}
use shared_mind.Kernel.Replay.Admission.{
  admit_claim-Admitted, Admitted-IsSound, Admitted-found, validate_and_insert_evidence-tables,
}

module _ (h : Host) (reg : Registry) where
  -- A sound state again, which the new events replay to.
  unfoldable pub Replayed : Tables → List Event → Tables → List Event → Type 0
  Replayed t events t' events' = IsSound h reg t' × ReplaysTo h reg t events t' events'

  -- Soundness reads the claims and the conflicts only.
  same_rows :
      (t t' : Tables)
      → t'.claims ≡ t.claims
      → t'.conflicts ≡ t.conflicts
      → IsSound h reg t
      → IsSound h reg t'
  same_rows t t' p q s = record {
    claim_keys = rw p s.claim_keys;
    conflict_keys = rw q s.conflict_keys;
    known = rw p s.known;
    sound = rw (p, q) s.sound;
  }

  updated_claim :
      (t t' : Tables) (id : String) (f : ClaimRow → ClaimRow)
      → ((row : ClaimRow) → (f row).proposition ≡ row.proposition)
      → t'.claims ≡ update id f t.claims
      → t'.conflicts ≡ t.conflicts
      → IsSound h reg t
      → IsSound h reg t'
  updated_claim t t' id f same p q s = record {
    claim_keys = rw p (HasKeys-update id f t.claims s.claim_keys);
    conflict_keys = rw q s.conflict_keys;
    known = rw p (
        All-update (IsKnown h reg) id f t.claims s.known
          (λ row found. (let (d, k) = s.known id row found in (d, rw (same row) k))));
    sound =
        rw (p, q)
          (λ k row found.
            IsConflict-Keeps h reg t.claims (update id f t.claims)
              (Keeps-update h reg id f t.claims same) k row (s.sound k row found));
  }

  resolved_conflict :
      (t t' : Tables) (id : String) (resolution : Resolution)
      → t'.claims ≡ t.claims
      → t'.conflicts ≡ update id (resolve_row resolution) t.conflicts
      → IsSound h reg t
      → IsSound h reg t'
  resolved_conflict t t' id resolution p q s = record {
    claim_keys = rw p s.claim_keys;
    conflict_keys = rw q (HasKeys-update id (resolve_row resolution) t.conflicts s.conflict_keys);
    known = rw p s.known;
    sound =
        rw (p, q)
          (All-update (IsConflict h reg t.claims) id (resolve_row resolution) t.conflicts s.sound
            (λ row found.
              let c = s.sound id row found in
              record {
                ordered = c.ordered;
                digest = c.digest;
                members = c.members;
                inhabited = c.inhabited;
              }));
  }

  active_claim-found :
      (o : Option ClaimRow) (row : ClaimRow)
      → active_claim o ≡ ok row
      → (o ≡ some row) × (is_active_claim row.status ≡ true)
  unfolding active_claim
  active_claim-found none row e = absurd (ground (arith, e))
  active_claim-found (some r) row e = ground (arith, e)

  update_active-ok :
      (id : String) (f : ClaimRow → ClaimRow) (t : Tables) (row : ClaimRow)
      → find id t.claims ≡ some row
      → is_active_claim row.status ≡ true
      → update_active id f t ≡ ok (record t { claims = update id f t.claims })
  unfolding update_active
  update_active-ok id f t row found active = ground (arith, found, active)

  -- One event, which replays to the new state.
  one :
      (e : Event) (t t' : Tables) (events events' : List Event)
      → events' ≡ events ++ e ∷ []
      → apply_replay_event h reg e t ≡ ok t'
      → IsSound h reg t'
      → Replayed t events t' events'
  unfolding Replayed
  one e t t' events events' p q s = (s, rw p (ReplaysTo-one h reg t events e t' q))

  module _ (events : List Event) where
    register_source_revision-Replayed :
        (source : SourceRevision) (t t' : Tables) (events' : List Event)
        → IsSound h reg t
        → register_source_revision h source t events ≡ ok (t', events')
        → Replayed t events t' events'
    unfolding register_source_revision Replayed apply_replay_event
    register_source_revision-Replayed source t t' events' s e =
        one (source_revision_registered source) t t' events events' (ground (arith, e))
          (ground (arith, e)) (same_rows t t' (ground (arith, e)) (ground (arith, e)) s)

    reduce_attach_evidence-Replayed :
        (link : EvidenceLink) (t t' : Tables) (events' : List Event)
        → IsSound h reg t
        → reduce_attach_evidence h reg link t events ≡ ok (t', events')
        → Replayed t events t' events'
    unfolding reduce_attach_evidence Replayed apply_replay_event
    reduce_attach_evidence-Replayed link t t' events' s e =
        let r = >>=-eq-ok (active_claim (find link.claim_id t.claims)) _ e in
        let d =
          >>=-eq-ok
            (or_raise (predicate_of reg r.0.proposition.predicate)
              (validation_failure Errors.unknown_predicate))
            _ r.2 in
        let v = >>=-eq-ok (validate_evidence_interpretations d.0 (link ∷ [])) _ d.2 in
        let x = >>=-eq-ok (validate_and_insert_evidence h link.claim_id link t) _ v.2 in
        let kept = validate_and_insert_evidence-tables h link.claim_id link t x.0 x.1 in
        one (evidence_attached link) t t' events events' (ground (arith, e)) (ground (arith, e)) (
          updated_claim t t' link.claim_id touch_row (λ row. refl) (ground (arith, x.2, kept))
            (ground (arith, x.2, kept)) s)

    reduce_retract_claim-Replayed :
        (proposer : Actor) (target : String) (links : List String) (policy rationale : String)
        (t t' : Tables) (events' : List Event)
        → IsSound h reg t
        → reduce_retract_claim proposer target links policy rationale t events ≡ ok (t', events')
        → Replayed t events t' events'
    unfolding reduce_retract_claim Replayed apply_replay_event update_active active_claim
    reduce_retract_claim-Replayed proposer target links policy rationale t t' events' s e =
        one (claim_retracted target proposer policy rationale) t t' events events'
          (ground (arith, e)) (ground (arith, e))
          (updated_claim t t' target retract_row (λ row. refl) (ground (arith, e))
            (ground (arith, e)) s)

    reduce_resolve_conflict-Replayed :
        (proposer : Actor) (id digest : String) (resolution : Resolution) (t t' : Tables)
        (events' : List Event)
        → IsSound h reg t
        → reduce_resolve_conflict proposer id digest resolution t events ≡ ok (t', events')
        → Replayed t events t' events'
    unfolding reduce_resolve_conflict Replayed apply_replay_event update_open open_conflict_row
    reduce_resolve_conflict-Replayed proposer id digest resolution t t' events' s e =
        one (conflict_resolved id resolution) t t' events events' (ground (arith, e))
          (ground (arith, e))
          (resolved_conflict t t' id resolution (ground (arith, e)) (ground (arith, e)) s)

    reduce_continuity-Replayed :
        (op : ContinuityOperation) (t t' : Tables) (events' : List Event)
        → IsSound h reg t
        → reduce_continuity op t events ≡ ok (t', events')
        → Replayed t events t' events'
    unfolding reduce_continuity Replayed apply_replay_event replay_continuity as_validation
    reduce_continuity-Replayed op t t' events' s e =
        let r = >>=-eq-ok (Reducers.reduce t.continuity op) _ e in
        let p = Replay.apply_event-reduce t.continuity op r.1 in
        one (Event.continuity r.0.1) t t' events events' (ground (arith, r.2))
          (ground (arith, p, r.2)) (same_rows t t' (ground (arith, r.2)) (ground (arith, r.2)) s)

    module _ (separates : Separates h reg) where
      -- What an asserted claim leaves, and that it keeps the claims that were there.
      assert_claim-Replayed :
          (claim : Claim) (evidence : List EvidenceLink) (ignored : List String) (opened_seq : ℕ)
          (t t' : Tables) (ids ids' : List String) (events' : List Event)
          → IsSound h reg t
          → Claims.assert_claim h reg claim evidence ignored opened_seq t events ids
            ≡ ok (t', events', ids')
          → Replayed t events t' events'
            × ((id : String) (row : ClaimRow)
                → find id t.claims ≡ some row
                → find id t'.claims ≡ some row)
      unfolding Claims.assert_claim Replayed apply_replay_event replay_assert_claim
      assert_claim-Replayed claim evidence ignored opened_seq t t' ids ids' events' s e =
          let r = >>=-eq-ok (admit_claim h reg claim evidence t) _ e in
          let d = r.0.0 in
          let u = r.0.1 in
          let a = admit_claim-Admitted h reg claim evidence t u d r.1 in
          let start = events ++ claim_asserted claim evidence ∷ [] in
          let o = >>=-eq-ok (open_conflicts h claim d ignored opened_seq u start) _ r.2 in
          let round =
            open_conflicts-Round h reg u separates claim d a.known ignored a.row opened_seq start
              o.0 (Admitted-IsSound h reg claim d t u a s) (Admitted-found h reg claim d t u a)
              a.proposition o.1 in
          let asserted : ReplaysTo h reg t events u start =
            ReplaysTo-one h reg t events (claim_asserted claim evidence) u (rw r.1) in
          let v = record u { conflicts = o.0.0 } in
          let same : Path (Tables × List Event) (v, o.0.1) (t', events') = ground (arith, o.2) in
          let admitted = Admitted-IsSound h reg claim d t u a s in
          (
            subst (λ (x : Tables × List Event). Replayed t events x.0 x.1) same
                (
                  record {
                    claim_keys = admitted.claim_keys;
                    conflict_keys = round.0.0;
                    known = admitted.known;
                    sound = round.0.1;
                  },
                  ReplaysTo-trans h reg t u v events start o.0.1 asserted round.1,
                ),
            λ id row found.
                subst (λ (x : Tables × List Event). find id x.0.claims ≡ some row) same
                  (rw a.claims (find-insert_old claim.claim_id id a.row t.claims a.new found)),
          )

      reduce_supersede_claim-Replayed :
          (target : String) (replacement : Claim) (evidence : List EvidenceLink)
          (rationale : String) (opened_seq : ℕ) (t : Tables) (ids : List String) (p : Progress)
          → IsSound h reg t
          → reduce_supersede_claim h reg target replacement evidence rationale opened_seq
              (t, events, ids)
            ≡ ok p
          → Replayed t events p.0 p.1
      unfolding reduce_supersede_claim Replayed apply_replay_event update_active active_claim
      reduce_supersede_claim-Replayed target replacement evidence rationale opened_seq t ids p s e =
          let c = >>=-eq-ok (active_claim (find target t.claims) >>= λ _. ok tt) _ e in
          let r = >>=-eq-ok (active_claim (find target t.claims)) (λ _. ok tt) c.1 in
          let (found, active) = active_claim-found (find target t.claims) r.0 r.1 in
          let x =
            >>=-eq-ok
              (Claims.assert_claim h reg replacement evidence (target ∷ []) opened_seq t events ids)
              _ c.2 in
          let t1 = x.0.0 in
          let (replayed, old) =
            assert_claim-Replayed replacement evidence (target ∷ []) opened_seq t t1 ids x.0.2 x.0.1
              s x.1 in
          let t2 = record t1 {
            claims = update target (supersede_row replacement.claim_id) t1.claims;
          } in
          let last = claim_superseded target replacement.claim_id rationale in
          let same : Path Progress (t2, x.0.1 ++ last ∷ [], x.0.2) p = ground (arith, x.2) in
          subst (λ (y : Progress). Replayed t events y.0 y.1) same
            (
              updated_claim t1 t2 target (supersede_row replacement.claim_id) (λ row. refl) refl
                  refl replayed.0,
              ReplaysTo-trans h reg t t1 t2 events x.0.1 (x.0.1 ++ last ∷ []) replayed.1 (
                  ReplaysTo-one h reg t1 x.0.1 last t2 (
                    update_active-ok target (supersede_row replacement.claim_id) t1 r.0
                      (old target r.0 found) active)),
            )

  translate-ok : (r : Result Failure Progress) (p : Progress) → translate r ≡ ok p → r ≡ ok p
  unfolding translate
  translate-ok (ok x) p e = e
  translate-ok (err x) p e = absurd (ground (arith, e))

  keeping-Replayed :
      (r : Result Failure (Tables × List Event)) (ids : List String) (t : Tables)
      (events : List Event) (p : Progress)
      → ((t' : Tables) (events' : List Event) → r ≡ ok (t', events') → Replayed t events t' events')
      → keeping ids r ≡ ok p
      → Replayed t events p.0 p.1
  keeping-Replayed (ok x) ids t events p f e =
      let same : Path Progress (x.0, x.1, ids) p = ground (arith, e) in
      subst (λ (y : Progress). Replayed t events y.0 y.1) same (f x.0 x.1 refl)
  keeping-Replayed (err x) ids t events p f e = cc

  module _ (separates : Separates h reg) (proposer : Actor) (opened_seq : ℕ) where
    dispatch-Replayed :
        (op : Operation) (p p' : Progress)
        → IsSound h reg p.0
        → dispatch h reg proposer opened_seq op p ≡ ok p'
        → Replayed p.0 p.1 p'.0 p'.1
    unfolding dispatch
    dispatch-Replayed (Operation.register_source_revision source) (t, events, ids) p' s e =
        keeping-Replayed _ ids t events p'
          (λ t' events'. register_source_revision-Replayed events source t t' events' s) e
    dispatch-Replayed (assert_claim claim evidence) (t, events, ids) p' s e =
        (assert_claim-Replayed events separates claim evidence [] opened_seq t p'.0 ids p'.2 p'.1 s
          e).0
    dispatch-Replayed (attach_evidence link) (t, events, ids) p' s e =
        keeping-Replayed _ ids t events p'
          (λ t' events'. reduce_attach_evidence-Replayed events link t t' events' s) e
    dispatch-Replayed (supersede_claim target replacement evidence rationale) (t, events, ids) p' s
          e =
        reduce_supersede_claim-Replayed events separates target replacement evidence rationale
          opened_seq t ids p' s e
    dispatch-Replayed (retract_claim target links policy rationale) (t, events, ids) p' s e =
        keeping-Replayed _ ids t events p'
          (λ t' events'.
            reduce_retract_claim-Replayed events proposer target links policy rationale t t' events'
              s)
          e
    dispatch-Replayed (resolve_conflict id digest resolution) (t, events, ids) p' s e =
        keeping-Replayed _ ids t events p'
          (λ t' events'.
            reduce_resolve_conflict-Replayed events proposer id digest resolution t t' events' s)
          e
    dispatch-Replayed (Operation.continuity op) (t, events, ids) p' s e =
        keeping-Replayed _ ids t events p'
          (λ t' events'. reduce_continuity-Replayed events op t t' events' s) e

    pub apply_operation-Replayed :
        (op : Operation) (p p' : Progress)
        → IsSound h reg p.0
        → apply_operation h reg proposer opened_seq op p ≡ ok p'
        → Replayed p.0 p.1 p'.0 p'.1
    unfolding apply_operation
    apply_operation-Replayed op p p' s e =
        dispatch-Replayed op p p' s (translate-ok (dispatch h reg proposer opened_seq op p) p' e)
