-- ===== src/Kernel/Replay/Opening.antt =====
-- `Kernel._open_conflicts` beside `Kernel._replay_open_conflict`: the write of one conflict
-- (src/shared_mind/kernel.py).
use shared_mind.Base.{
  ℕ, ◌+◌, String, ◌≡◌, refl, ap, subst, ◌⊎◌, inl, inr, Bool, true, false, none, some, List, [], ◌∷◌,
  ◌++◌, arith, eq_iff, eq_refl, Option-cases, Table, find, insert, update, find-insert, find-update,
  update_congr, All, All-insert, All-update, HasKeys, HasKeys-insert, HasKeys-update, Entries,
  Entries-found, Every, Every-append, Every-sorted-distinct, is_nil, is_nil-sorted-distinct, sorted,
  sorted_idem, distinct, ok, >>=-eq-ok,
}
use shared_mind.Documents.{Registry, ConflictKind}
use shared_mind.Kernel.Host.{Host, sha256_json, member_ids}
use shared_mind.Kernel.State.{ClaimRow, ConflictRow}
use shared_mind.Kernel.Conflicts.{
  open_conflict_of, resolved_conflict_of, first_conflict, merged_row, reopened_row, new_row,
  write_conflict, conflict_document, conflict_id_of, insert_unique,
}
use shared_mind.Kernel.Replay.{write_replayed, conflict_row}
use shared_mind.Kernel.Replay.Families.{IsMember, IsConflict}

first_conflict-cases :
    (opened by_episode : Bool) (family : String) (kind : ConflictKind) (id : String)
    (row : ConflictRow) (t : Table ConflictRow) (r : String × ConflictRow)
    → first_conflict opened by_episode family kind ((id, row) ∷ t) ≡ some r
    → ((id ≡ r.0) × (row ≡ r.1) × (row.family_key ≡ family))
      ⊎ (first_conflict opened by_episode family kind t ≡ some r)
unfolding first_conflict
first_conflict-cases opened by_episode family kind id row t r e =
    ground (arith, eq_iff row.family_key family)

-- A conflict that the query finds stands in the table, with the family that was asked for.
first_conflict-found :
    (opened by_episode : Bool) (family : String) (kind : ConflictKind)
    (P : String → ConflictRow → Type 0) (t : Table ConflictRow) (r : String × ConflictRow)
    → Entries P t
    → first_conflict opened by_episode family kind t ≡ some r
    → P r.0 r.1 × (r.1.family_key ≡ family)
unfolding first_conflict
first_conflict-found opened by_episode family kind P [] r h e = absurd (ground (arith, e))
first_conflict-found opened by_episode family kind P ((id, row) ∷ t) r h e =
    elim (first_conflict-cases opened by_episode family kind id row t r e) [
      | inl (i, w, k) ↦ (subst (λ x. P x r.1) i (subst (P id) w h.0), rw (← w) k)
      | inr later ↦ first_conflict-found opened by_episode family kind P t r h.1 later
    ]

is_nil-append : (xs ys : List String) → is_nil ys ≡ false → is_nil (xs ++ ys) ≡ false
is_nil-append [] ys h = h
is_nil-append (x ∷ xs) ys h = refl

module _ (h : Host) (reg : Registry) (claims : Table ClaimRow) where
  -- The conflicts of a table are sound, and no identifier stands twice.
  abbrev pub SoundConflicts : Table ConflictRow → Type 0
  SoundConflicts conflicts = HasKeys conflicts × All (IsConflict h reg claims) conflicts

  -- A row with the given members, whose digest and order are computed from them, is sound.
  sorted_row :
      (id family : String) (row : ConflictRow) (ids : List String)
      → row.family_key ≡ family
      → row.members ≡ sorted (distinct ids)
      → row.member_digest ≡ sha256_json h (member_ids (sorted (distinct ids)))
      → Every (IsMember h reg claims family) ids
      → is_nil ids ≡ false
      → IsConflict h reg claims id row
  sorted_row id family row ids f m d e n = record {
    ordered = rw m (sorted_idem (distinct ids));
    digest = rw (m, d);
    members = rw (m, f) (Every-sorted-distinct (IsMember h reg claims family) ids e);
    inhabited = rw m (is_nil-sorted-distinct ids n);
  }

  -- What the write of one kind leaves: a sound row under the identifier, in a sound table that is
  -- the replayed one.
  unfoldable pub Written : Table ConflictRow → String → Table ConflictRow → Type 0
  Written conflicts id conflicts' =
      SoundConflicts conflicts'
      × ((row : ConflictRow) × (find id conflicts' ≡ some row)
          × IsConflict h reg claims id row
          × (write_replayed (conflict_document id row) row.members conflicts ≡ conflicts'))

  updated :
      (conflicts : Table ConflictRow) (id : String) (f : ConflictRow → ConflictRow)
      (row : ConflictRow)
      → SoundConflicts conflicts
      → find id conflicts ≡ some row
      → IsConflict h reg claims id (f row)
      → (f row).version ≡ row.version + 1
      → Written conflicts id (update id f conflicts)
  unfolding Written write_replayed
  updated conflicts id f row s found c v = (
    (
      HasKeys-update id f conflicts s.0,
      All-update (IsConflict h reg claims) id f conflicts s.1
          (λ w p. subst (λ x. IsConflict h reg claims id (f x)) (ground (arith, found, p)) c),
    ),
    (
      f row,
      ground (arith, find-update id id f conflicts, eq_refl id, found),
      c,
      rw (found, write_replayed)
          (update_congr id
            (λ _. conflict_row (conflict_document id (f row)) (f row).members (row.version + 1)) f
            conflicts row found (ground (arith, v))),
    ),
  )

  inserted :
      (conflicts : Table ConflictRow) (id : String) (row : ConflictRow)
      → SoundConflicts conflicts
      → find id conflicts ≡ none
      → IsConflict h reg claims id row
      → row.version ≡ 1
      → Written conflicts id (insert id row conflicts)
  unfolding Written write_replayed
  inserted conflicts id row s new c v = (
    (
      HasKeys-insert id row conflicts new s.0,
      All-insert (IsConflict h reg claims) id row conflicts s.1 c,
    ),
    (
      row,
      ground (arith, find-insert id id row conflicts, eq_refl id),
      c,
      rw (new, write_replayed)
          (ap (λ (r : ConflictRow). insert id r conflicts) (ground (arith, v))),
    ),
  )

  module _ (family : String) (kind : ConflictKind) (ids : List String) (opened_seq : ℕ)
      (members : Every (IsMember h reg claims family) ids) (some_ids : is_nil ids ≡ false)
      (conflicts : Table ConflictRow) (s : SoundConflicts conflicts) where
    merged :
        (r : String × ConflictRow)
        → open_conflict_of family kind conflicts ≡ some r
        → Written conflicts r.0
            (update r.0 (merged_row h (sorted (distinct (r.1.members ++ ids)))) conflicts)
    unfolding merged_row open_conflict_of
    merged r e =
        let (found, same) =
          first_conflict-found true false family kind (λ k v. find k conflicts ≡ some v) conflicts r
            (Entries-found conflicts s.0) e in
        let old : Every (IsMember h reg claims family) r.1.members =
          rw same at ((s.1 r.0 r.1 found).members) in
        updated conflicts r.0 (merged_row h (sorted (distinct (r.1.members ++ ids)))) r.1 s found
          (sorted_row r.0 family (merged_row h (sorted (distinct (r.1.members ++ ids))) r.1)
            (r.1.members ++ ids) same refl refl
            (Every-append (IsMember h reg claims family) r.1.members ids old members)
            (is_nil-append r.1.members ids some_ids))
          refl

    reopened :
        (r : String × ConflictRow)
        → resolved_conflict_of family kind conflicts ≡ some r
        → Written conflicts r.0
            (update r.0 (reopened_row h (sorted (distinct ids)) opened_seq) conflicts)
    unfolding reopened_row resolved_conflict_of
    reopened r e =
        let (found, same) =
          first_conflict-found false true family kind (λ k v. find k conflicts ≡ some v) conflicts r
            (Entries-found conflicts s.0) e in
        updated conflicts r.0 (reopened_row h (sorted (distinct ids)) opened_seq) r.1 s found
          (sorted_row r.0 family (reopened_row h (sorted (distinct ids)) opened_seq r.1) ids same
            refl refl members some_ids)
          refl

    added :
        (id : String) (conflicts' : Table ConflictRow)
        → insert_unique id (new_row h family kind (sorted (distinct ids)) opened_seq) conflicts
          ≡ ok conflicts'
        → Written conflicts id conflicts'
    unfolding insert_unique new_row
    added id conflicts' e = subst (Written conflicts id) (ground (arith, e)) (
        inserted conflicts id (new_row h family kind (sorted (distinct ids)) opened_seq) s
          (ground (arith, e))
          (sorted_row id family (new_row h family kind (sorted (distinct ids)) opened_seq) ids refl
            refl refl members some_ids)
          refl)

    pub write_conflict-Written :
        (id : String) (conflicts' : Table ConflictRow)
        → write_conflict h family kind ids opened_seq conflicts ≡ ok (id, conflicts')
        → Written conflicts id conflicts'
    unfolding write_conflict
    write_conflict-Written id conflicts' e =
        elim (Option-cases (open_conflict_of family kind conflicts)) [
          | inr (r, p) ↦
              let q = rw (p, write_conflict) at e in
              subst (λ (x : String × Table ConflictRow). Written conflicts x.0 x.1)
                (ground (arith, q)) (merged r p)
          | inl p ↦ elim (Option-cases (resolved_conflict_of family kind conflicts)) [
            | inr (r, p') ↦
                let q = rw (p, p', write_conflict) at e in
                subst (λ (x : String × Table ConflictRow). Written conflicts x.0 x.1)
                  (ground (arith, q)) (reopened r p')
            | inl p' ↦
                let new = sorted (distinct ids) in
                let key = conflict_id_of (sha256_json h (member_ids new)) in
                let r =
                  >>=-eq-ok (insert_unique key (new_row h family kind new opened_seq) conflicts)
                    (λ (c : Table ConflictRow). ok (key, c)) (rw (p, p', write_conflict) at e) in
                subst (λ (x : String × Table ConflictRow). Written conflicts x.0 x.1)
                  (ground (arith, r.2)) (added key r.0 r.1)
          ]
        ]
