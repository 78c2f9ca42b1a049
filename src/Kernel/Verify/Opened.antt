-- ===== src/Kernel/Verify/Opened.antt =====
-- The conflicts that a proposal opens: `_conflict_ids_from_events` against the list that
-- `_apply_operation` of src/shared_mind/kernel.py collects.
use shared_mind.Base.{
  ℕ, String, ◌≡◌, refl, sym, ap, ◌∙◌, subst, List, [], ◌∷◌, ◌++◌, ok, Result, >>=-eq-ok,
  fold_result, append-nil, append_assoc, or_raise, find, Table,
}
use shared_mind.Documents.{
  Claim, EvidenceLink, ConflictKind, exclusive_value_conflict, polarity_conflict, Predicate,
  Registry, Event, conflict_opened,
}
use shared_mind.Continuity.Errors.{Failure, value_error}
use shared_mind.Kernel.Host.{Host}
use shared_mind.Kernel.State.{Tables, ConflictRow}
use shared_mind.Kernel.Semantics.{family_key}
use shared_mind.Kernel.Conflicts.{
  Opening, open_kind, open_conflicts, conflicting, members_of_kind, write_conflict,
  conflict_document,
}
use shared_mind.Kernel.Claims
use shared_mind.Kernel.Operations.{Progress}
use shared_mind.Kernel.Verify.Documents.{opened_in}

opened_in-append : (xs ys : List Event) → opened_in (xs ++ ys) ≡ opened_in xs ++ opened_in ys
unfolding opened_in
opened_in-append [] ys = refl
opened_in-append (conflict_opened c ∷ xs) ys = ap (◌∷◌ c.conflict_id) (opened_in-append xs ys)
opened_in-append (Event.source_revision_registered _ ∷ xs) ys = opened_in-append xs ys
opened_in-append (Event.claim_asserted _ _ ∷ xs) ys = opened_in-append xs ys
opened_in-append (Event.evidence_attached _ ∷ xs) ys = opened_in-append xs ys
opened_in-append (Event.claim_superseded _ _ _ ∷ xs) ys = opened_in-append xs ys
opened_in-append (Event.claim_retracted _ _ _ _ ∷ xs) ys = opened_in-append xs ys
opened_in-append (Event.conflict_resolved _ _ ∷ xs) ys = opened_in-append xs ys
opened_in-append (Event.continuity _ ∷ xs) ys = opened_in-append xs ys

-- An event that opens no conflict.
pub opened_in-other :
    (events : List Event) (e : Event)
    → opened_in (e ∷ []) ≡ []
    → opened_in (events ++ e ∷ []) ≡ opened_in events
opened_in-other events e other =
    opened_in-append events (e ∷ [])
    ∙ ap (λ xs. opened_in events ++ xs) other
    ∙ append-nil (opened_in events)

-- The events name the conflicts that were opened.
abbrev pub Names : List Event → List String → Type 0
Names events opened = opened_in events ≡ opened

-- The same, for conflicts that are opened behind others.
abbrev NamesAfter : List String → List Event → List String → Type 0
NamesAfter before events opened = opened_in events ≡ before ++ opened

pub ok-injective {ℓ} : {A : Type ℓ} {a b : A} → Path (Result Failure A) (ok a) (ok b) → a ≡ b
ok-injective h = cc

-- A reducer that appends one event, which opens nothing.
pub keeps :
    (t t' : Tables) (events events' : List Event) (e : Event) (opened : List String)
    → Path (Result Failure (Tables × List Event)) (ok (t, events ++ e ∷ [])) (ok (t', events'))
    → opened_in (e ∷ []) ≡ []
    → Names events opened
    → Names events' opened
keeps t t' events events' e opened same other n =
    ap opened_in (sym (ap (λ x. x.1) (ok-injective same))) ∙ opened_in-other events e other ∙ n

module _ (h : Host) where
  open_kind-Names :
      (family incoming : String) (pairs : List (ConflictKind × String)) (seq : ℕ)
      (kind : ConflictKind) (before : List String) (conflicts : Table ConflictRow)
      (events : List Event) (opened : List String) (o : Opening)
      → open_kind h family incoming pairs seq kind (conflicts, events, opened) ≡ ok o
      → NamesAfter before events opened
      → NamesAfter before o.1 o.2
  unfolding open_kind opened_in
  open_kind-Names family incoming pairs seq kind before conflicts events opened o e n =
      round (members_of_kind kind incoming pairs) refl
    where
      round :
          (ids : List String)
          → members_of_kind kind incoming pairs ≡ ids
          → NamesAfter before o.1 o.2
      round [] p =
          let q : Path (Result Failure Opening) (ok (conflicts, events, opened)) (ok o) =
            rw (p, open_kind) at e in
          subst (λ (x : Opening). NamesAfter before x.1 x.2) (ok-injective q) n
      round (x ∷ xs) p =
          let q = rw (p, open_kind) at e in
          let w = >>=-eq-ok (write_conflict h family kind (x ∷ xs) seq conflicts) _ q in
          let found = >>=-eq-ok (or_raise (find w.0.0 w.0.1) value_error) _ w.2 in
          let event = conflict_opened (conflict_document w.0.0 found.0) in
          let named : Path (List String) (opened_in (events ++ event ∷ []))
              (before ++ (opened ++ w.0.0 ∷ [])) =
            opened_in-append events (event ∷ [])
            ∙ ap (λ ids. ids ++ w.0.0 ∷ []) n
            ∙ append_assoc before opened (w.0.0 ∷ []) in
          subst (λ (y : Opening). NamesAfter before y.1 y.2) (ok-injective found.2) named

  open_conflicts-Names :
      (claim : Claim) (predicate : Predicate) (ignored : List String) (seq : ℕ) (t : Tables)
      (before : List String) (events : List Event) (o : Opening)
      → open_conflicts h claim predicate ignored seq t events ≡ ok o
      → Names events before
      → NamesAfter before o.1 o.2
  unfolding open_conflicts fold_result
  open_conflicts-Names claim predicate ignored seq t before events o e n =
      let c = >>=-eq-ok (conflicting h claim predicate ignored t.claims) _ e in
      let family = family_key h claim.proposition predicate in
      let first =
        >>=-eq-ok
          (open_kind h family claim.claim_id c.0 seq exclusive_value_conflict
            (t.conflicts, events, []))
          _ c.2 in
      let second =
        >>=-eq-ok (open_kind h family claim.claim_id c.0 seq polarity_conflict first.0) _ first.2 in
      let named =
        open_kind-Names family claim.claim_id c.0 seq exclusive_value_conflict before t.conflicts
          events [] first.0 first.1 (n ∙ sym (append-nil before)) in
      let named' =
        open_kind-Names family claim.claim_id c.0 seq polarity_conflict before first.0.0 first.0.1
          first.0.2 second.0 second.1 named in
      let last : Path Opening second.0 o = ok-injective second.2 in
      subst (λ (x : Opening). NamesAfter before x.1 x.2) last named'

  module _ (reg : Registry) where
    pub assert_claim-Names :
        (claim : Claim) (evidence : List EvidenceLink) (ignored : List String) (seq : ℕ)
        (t : Tables) (events : List Event) (ids : List String) (p : Progress)
        → Claims.assert_claim h reg claim evidence ignored seq t events ids ≡ ok p
        → Names events ids
        → Names p.1 p.2
    unfolding Claims.assert_claim opened_in
    assert_claim-Names claim evidence ignored seq t events ids p e n =
        let admitted = >>=-eq-ok (Claims.admit_claim h reg claim evidence t) _ e in
        let opening =
          >>=-eq-ok
            (open_conflicts h claim admitted.0.0 ignored seq admitted.0.1
              (events ++ Event.claim_asserted claim evidence ∷ []))
            _ admitted.2 in
        let named =
          open_conflicts-Names claim admitted.0.0 ignored seq admitted.0.1 ids
            (events ++ Event.claim_asserted claim evidence ∷ []) opening.0 opening.1
            (opened_in-other events (Event.claim_asserted claim evidence) refl ∙ n) in
        subst (λ (x : Progress). Names x.1 x.2) (ok-injective opening.2) named
