-- ===== src/Kernel/Replay/Conflicts.antt =====
-- `Kernel._open_conflicts` beside `Kernel._replay_open_conflict`: the loop over the kinds
-- (src/shared_mind/kernel.py).
use shared_mind.Base.{
  ℕ, String, ◌≡◌, refl, subst, inl, inr, Bool, true, false, not, ◌||◌, Option, none, some, List, [],
  ◌∷◌, ◌++◌, arith, ◌==◌, eq_iff, eq_refl, if◌then◌else◌, Bool-cases, equal, contains, Table, find,
  All, Entries, Entries-found, Every, Result, ok, >>=-eq-ok, fold_result,
}
use shared_mind.Documents.{
  Registry, Predicate, Claim, ConflictKind, ConflictKind-discrete, exclusive_value_conflict,
  polarity_conflict, Event, conflict_opened,
}
use shared_mind.Continuity.Errors.{Failure}
use shared_mind.Kernel.Host.{Host}
use shared_mind.Kernel.State.{ClaimRow, ConflictRow, Tables}
use shared_mind.Kernel.Semantics.{predicate_of, family_key, conflict_kind}
use shared_mind.Kernel.Conflicts.{
  Opening, is_active_claim, members_of_kind, write_conflict, open_kind, conflicting, open_conflicts,
  conflict_document,
}
use shared_mind.Kernel.Replay.{replay_open_conflict, write_replayed, apply_replay_event}
use shared_mind.Kernel.Replay.Families.{
  IsMember, IsConflict, IsKnown, IsSound, Separates, one_family,
}
use shared_mind.Kernel.Replay.Traces.{ReplaysTo, ReplaysTo-refl, ReplaysTo-one, ReplaysTo-trans}
use shared_mind.Kernel.Replay.Opening.{SoundConflicts, Written, write_conflict-Written}

module _ (h : Host) (reg : Registry) (t : Tables) where
  -- the state with other conflicts
  abbrev with : Table ConflictRow → Tables
  with conflicts = record t { conflicts = conflicts }

  opened_replays :
      (conflicts conflicts' : Table ConflictRow) (id : String) (row : ConflictRow)
      → IsConflict h reg t.claims id row
      → write_replayed (conflict_document id row) row.members conflicts ≡ conflicts'
      → apply_replay_event h reg (conflict_opened (conflict_document id row)) (with conflicts)
        ≡ ok (with conflicts')
  unfolding apply_replay_event replay_open_conflict
  opened_replays conflicts conflicts' id row c w =
      let f = one_family h reg t.claims row.family_key row.members c.members c.inhabited in
      rw (c.ordered, c.digest, eq_refl, f.1, f.2, w)

  module _ (family incoming : String) (pairs : List (ConflictKind × String)) (opened_seq : ℕ)
      (own : IsMember h reg t.claims family incoming)
      (others : Every
        (λ (x : ConflictKind × String). IsMember h reg t.claims family x.1)
        pairs) where
    members_of_kind-Every :
        (kind : ConflictKind) (ps : List (ConflictKind × String))
        → Every (λ (x : ConflictKind × String). IsMember h reg t.claims family x.1) ps
        → Every (IsMember h reg t.claims family) (members_of_kind kind incoming ps)
    unfolding members_of_kind
    members_of_kind-Every kind [] e = tt
    members_of_kind-Every kind ((k, id) ∷ ps) e =
        joined (equal ConflictKind-discrete k kind) (members_of_kind kind incoming ps)
          (members_of_kind-Every kind ps e.1)
      where
        joined :
            (b : Bool) (later : List String)
            → Every (IsMember h reg t.claims family) later
            → Every (IsMember h reg t.claims family) (
                if b
                then (elim later [ [] ↦ incoming ∷ id ∷ [] | x ∷ xs ↦ x ∷ id ∷ xs ])
                else later)
        joined true [] l = (own, (e.0, tt))
        joined true (x ∷ xs) l = (l.0, (e.0, l.1))
        joined false later l = l

    -- One round over the kinds keeps the conflicts sound, and its event replays.
    Round : Table ConflictRow → List Event → Opening → Type 0
    Round conflicts events (conflicts', events', opened') =
        SoundConflicts h reg t.claims conflicts'
        × ReplaysTo h reg (with conflicts) events (with conflicts') events'

    open_kind-Round :
        (kind : ConflictKind) (conflicts : Table ConflictRow) (events : List Event)
        (opened : List String) (o : Opening)
        → SoundConflicts h reg t.claims conflicts
        → open_kind h family incoming pairs opened_seq kind (conflicts, events, opened) ≡ ok o
        → Round conflicts events o
    unfolding open_kind Round Written
    open_kind-Round kind conflicts events opened o s e =
        round (members_of_kind kind incoming pairs) refl
      where
        round :
            (ids : List String)
            → members_of_kind kind incoming pairs ≡ ids
            → Round conflicts events o
        round [] p =
            let q : Path (Result Failure Opening) (ok (conflicts, events, opened)) (ok o) =
              rw (p, open_kind) at e in
            let same : Path Opening (conflicts, events, opened) o = ground (arith, q) in
            subst (λ x. Round conflicts events x) same
              (s, ReplaysTo-refl h reg (with conflicts) events)
        round (x ∷ xs) p =
            let q = rw (p, open_kind) at e in
            let members =
              subst (Every (IsMember h reg t.claims family)) p
                (members_of_kind-Every kind pairs others) in
            let w = >>=-eq-ok (write_conflict h family kind (x ∷ xs) opened_seq conflicts) _ q in
            let (sound, wrote) =
              write_conflict-Written h reg t.claims family kind (x ∷ xs) opened_seq members refl
                conflicts s w.0.0 w.0.1 w.1 in
            let (row, found, c, replayed) = wrote in
            let q' = rw found at w.2 in
            let same : Path Opening
                (
                  w.0.1,
                  events ++ conflict_opened (conflict_document w.0.0 row) ∷ [],
                  opened ++ w.0.0 ∷ [],
                )
                o =
              ground (arith, q') in
            subst (λ x. Round conflicts events x) same
              (
                sound,
                ReplaysTo-one h reg (with conflicts) events
                    (conflict_opened (conflict_document w.0.0 row)) (with w.0.1)
                    (opened_replays conflicts w.0.1 w.0.0 row c replayed),
              )

  -- Two rounds of the loop over the kinds are one.
  Round-trans :
      (c c' c'' : Table ConflictRow) (es es' es'' : List Event)
      → ReplaysTo h reg (with c) es (with c') es'
      → ReplaysTo h reg (with c') es' (with c'') es''
      → ReplaysTo h reg (with c) es (with c'') es''
  Round-trans c c' c'' es es' es'' = ReplaysTo-trans h reg (with c) (with c') (with c'') es es' es''

  module _ (separates : Separates h reg) (incoming : Claim) (d : Predicate)
      (known : predicate_of reg incoming.proposition.predicate ≡ some d)
      (ignored : List String) where
    Members : List (ConflictKind × String) → Type 0
    Members pairs =
        Every
          (λ (x : ConflictKind × String).
            IsMember h reg t.claims (family_key h incoming.proposition d) x.1)
          pairs

    -- A claim that conflicts with the incoming one is a member of its family.
    conflicting-Every :
        (rows : Table ClaimRow) (pairs : List (ConflictKind × String))
        → Entries (λ id row. find id t.claims ≡ some row) rows
        → All (IsKnown h reg) t.claims
        → conflicting h incoming d ignored rows ≡ ok pairs
        → Members pairs
    unfolding conflicting Members
    conflicting-Every [] pairs f k e =
        let same : [] ≡ pairs = ground (arith, e) in subst Members same tt
    conflicting-Every ((id, row) ∷ rows) pairs f k e =
        elim (Bool-cases (
          not (is_active_claim row.status)
          || id == incoming.claim_id
          || contains id ignored
          || not (family_key h row.proposition d == family_key h incoming.proposition d))) [
            | inl p ↦ conflicting-Every rows pairs f.1 k (rw (p, conflicting) at e)
            | inr p ↦
                let (e', row_known) = k id row f.0 in
                let same : family_key h row.proposition d ≡ family_key h incoming.proposition d =
                  ground (
                    arith,
                    p,
                    eq_iff (family_key h row.proposition d) (family_key h incoming.proposition d),
                  ) in
                let own : IsMember h reg t.claims (family_key h incoming.proposition d) id = (
                  row,
                  e',
                  f.0,
                  row_known,
                  separates incoming.proposition row.proposition d e' known row_known same,
                ) in
                let c =
                  >>=-eq-ok (conflict_kind h incoming.proposition row.proposition d) _
                    (rw (p, conflicting) at e) in
                let r = >>=-eq-ok (conflicting h incoming d ignored rows) _ c.2 in
                let later = conflicting-Every rows r.0 f.1 k r.1 in
                joined c.0 r.0 later own (ground (arith, r.2))
          ]
      where
        joined :
            (kind : Option ConflictKind) (later : List (ConflictKind × String))
            → Members later
            → IsMember h reg t.claims (family_key h incoming.proposition d) id
            → (elim kind [ none ↦ later | some c ↦ (c, id) ∷ later ]) ≡ pairs
            → Members pairs
        joined none later l own q = subst Members q l
        joined (some c) later l own q = subst Members q (own, l)

    pub open_conflicts-Round :
        (row : ClaimRow) (opened_seq : ℕ) (events : List Event) (o : Opening)
        → IsSound h reg t
        → find incoming.claim_id t.claims ≡ some row
        → row.proposition ≡ incoming.proposition
        → open_conflicts h incoming d ignored opened_seq t events ≡ ok o
        → SoundConflicts h reg t.claims o.0 × ReplaysTo h reg t events (with o.0) o.1
    unfolding open_conflicts fold_result Members Round
    open_conflicts-Round row opened_seq events o s found same e =
        let c = >>=-eq-ok (conflicting h incoming d ignored t.claims) _ e in
        let family = family_key h incoming.proposition d in
        let others =
          conflicting-Every t.claims c.0 (Entries-found t.claims s.claim_keys) s.known c.1 in
        let own : IsMember h reg t.claims family incoming.claim_id =
          (row, d, found, rw same known, rw same refl) in
        let first =
          >>=-eq-ok
            (open_kind h family incoming.claim_id c.0 opened_seq exclusive_value_conflict
              (t.conflicts, events, []))
            _ c.2 in
        let second =
          >>=-eq-ok (open_kind h family incoming.claim_id c.0 opened_seq polarity_conflict first.0)
            _ first.2 in
        let r =
          open_kind-Round family incoming.claim_id c.0 opened_seq own others
            exclusive_value_conflict t.conflicts events [] first.0 (s.conflict_keys, s.sound)
            first.1 in
        let r' =
          open_kind-Round family incoming.claim_id c.0 opened_seq own others polarity_conflict
            first.0.0 first.0.1 first.0.2 second.0 r.0 second.1 in
        let last : Path Opening second.0 o = ground (arith, second.2) in
        subst
          (λ (x : Opening).
            SoundConflicts h reg t.claims x.0 × ReplaysTo h reg t events (with x.0) x.1)
          last
          (r'.0, Round-trans t.conflicts first.0.0 second.0.0 events first.0.1 second.0.1 r.1 r'.1)
