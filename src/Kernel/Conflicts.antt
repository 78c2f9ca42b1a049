-- ===== src/Kernel/Conflicts.antt =====
-- Conflicts between claims: which claims disagree, and how a conflict is opened, merged or reopened.
use Prim.Native.String.{◌++◌ as join}
use Prim.Native.Char.{code}
use shared_mind.Base.{
  ℕ, zero, suc, ◌+◌, String, Bool, true, false, not, ◌&&◌, ◌||◌, Option, none, some, List, [], ◌∷◌,
  ◌++◌, ◌==◌, ltb, nat_eq, if◌then◌else◌, is_some, equal, contains, sorted, distinct, text_le,
  Table, find, insert, update, Result, ok, err, ◌>>=◌, or_raise, fold_result,
}
use shared_mind.Documents.{
  Claim, ClaimStatus, active, Predicate, Conflict, ConflictKind, exclusive_value_conflict,
  polarity_conflict, ConflictKind-discrete, ConflictStatus, open_conflict, resolved, Event,
  conflict_opened,
}
use shared_mind.Continuity.Errors.{Failure, integrity_error, value_error, duplicate_object_id}
use shared_mind.Kernel.Host.{Host, sha256_json, member_ids}
use shared_mind.Kernel.State.{ClaimRow, ConflictRow, Tables}
use shared_mind.Kernel.Semantics.{family_key, conflict_kind}

unfoldable pub is_active_claim : ClaimStatus → Bool
is_active_claim active = true
is_active_claim _ = false

unfoldable pub is_open_conflict : ConflictStatus → Bool
is_open_conflict open_conflict = true
is_open_conflict resolved = false

-- digest.split(":", 1)[1]
after_colon : String → String
after_colon String.[] = ""
after_colon (String.◌∷◌ c s) = elim (nat_eq (code c) b':') [ true ↦ s | false ↦ after_colon s ]

-- text[:n]
unfoldable pub first_characters : ℕ → String → String
first_characters zero s = ""
first_characters (suc n) String.[] = ""
first_characters (suc n) (String.◌∷◌ c s) = String.◌∷◌ c (first_characters n s)

unfoldable pub conflict_id_of : String → String
unfolding after_colon first_characters
conflict_id_of digest = join "conflict_" (first_characters 24 (after_colon digest))

-- A row as the document of its event.
abbrev pub conflict_document : String → ConflictRow → Conflict
conflict_document id row = record {
  conflict_id = id;
  family_key = row.family_key;
  episode = row.episode;
  kind = row.kind;
  member_claim_ids = row.members;
  member_digest = row.member_digest;
  status = row.status;
  opened_seq = row.opened_seq;
  resolution = row.resolution;
}

-- ORDER BY episode DESC, conflict_id
unfoldable pub precedes : Bool → String × ConflictRow → String × ConflictRow → Bool
precedes by_episode (i, a) (j, b) =
    if by_episode && not (nat_eq a.episode b.episode) then ltb b.episode a.episode else text_le i j

-- SELECT ... WHERE family_key = ? AND kind = ? AND status = ? ORDER BY ... LIMIT 1
unfoldable pub first_conflict :
    Bool → Bool → String → ConflictKind → Table ConflictRow → Option (String × ConflictRow)
unfolding precedes is_open_conflict
first_conflict opened by_episode family kind [] = none
first_conflict opened by_episode family kind ((id, row) ∷ rows) =
    let rest = first_conflict opened by_episode family kind rows in
    if row.family_key == family
      && equal ConflictKind-discrete row.kind kind
      && (if is_open_conflict row.status then opened else not opened)
    then (elim rest [
      | none ↦ some (id, row)
      | some best ↦ if precedes by_episode (id, row) best then some (id, row) else some best
    ])
    else rest

unfoldable pub open_conflict_of :
    String → ConflictKind → Table ConflictRow → Option (String × ConflictRow)
unfolding first_conflict
open_conflict_of = first_conflict true false

unfoldable pub resolved_conflict_of :
    String → ConflictKind → Table ConflictRow → Option (String × ConflictRow)
unfolding first_conflict
resolved_conflict_of = first_conflict false true

-- the order of `_predicted_conflict_ids`, which looks at the episode of open conflicts too
unfoldable pub newest_open_of :
    String → ConflictKind → Table ConflictRow → Option (String × ConflictRow)
unfolding first_conflict
newest_open_of = first_conflict true true

-- INSERT of a row whose primary key may be taken
unfoldable pub insert_unique {ℓ} : {V : Type ℓ} → String → V → Table V → Result Failure (Table V)
insert_unique k v t =
    if is_some (find k t) then err (integrity_error duplicate_object_id) else ok (insert k v t)

-- The identifiers that conflict under one kind, the incoming claim first; [] if there are none.
unfoldable pub members_of_kind : ConflictKind → String → List (ConflictKind × String) → List String
members_of_kind kind incoming [] = []
members_of_kind kind incoming ((k, id) ∷ rest) =
    let later = members_of_kind kind incoming rest in
    if equal ConflictKind-discrete k kind
    then (elim later [ [] ↦ incoming ∷ id ∷ [] | x ∷ xs ↦ x ∷ id ∷ xs ])
    else later

-- What a run of `_open_conflicts` has written, appended and opened.
abbrev pub Opening : Type 0
Opening = Table ConflictRow × List Event × List String

module _ (h : Host) where
  unfoldable pub merged_row : List String → ConflictRow → ConflictRow
  merged_row members row = record row {
    members = members;
    member_digest = sha256_json h (member_ids members);
    version = row.version + 1;
  }

  unfoldable pub reopened_row : List String → ℕ → ConflictRow → ConflictRow
  reopened_row members opened_seq row = record row {
    members = members;
    member_digest = sha256_json h (member_ids members);
    status = open_conflict;
    episode = row.episode + 1;
    version = row.version + 1;
    resolution = none;
    opened_seq = opened_seq;
  }

  unfoldable pub new_row : String → ConflictKind → List String → ℕ → ConflictRow
  new_row family kind members opened_seq = record {
    family_key = family;
    kind = kind;
    member_digest = sha256_json h (member_ids members);
    members = members;
    status = open_conflict;
    episode = 1;
    version = 1;
    resolution = none;
    opened_seq = opened_seq;
  }

  -- The write of one kind: the open conflict grows, or the last resolved one opens again, or a new
  -- conflict is inserted.
  unfoldable pub write_conflict :
      String
      → ConflictKind
      → List String
      → ℕ
      → Table ConflictRow
      → Result Failure (String × Table ConflictRow)
  unfolding merged_row reopened_row new_row
  write_conflict family kind new_members opened_seq conflicts =
      elim (open_conflict_of family kind conflicts) [
        | some (id, row) ↦
            ok (
              id,
              update id (merged_row (sorted (distinct (row.members ++ new_members)))) conflicts,
            )
        | none ↦ elim (resolved_conflict_of family kind conflicts) [
          | some (id, row) ↦
              ok (id, update id (reopened_row (sorted (distinct new_members)) opened_seq) conflicts)
          | none ↦
              let members = sorted (distinct new_members) in
              let id = conflict_id_of (sha256_json h (member_ids members)) in
              insert_unique id (new_row family kind members opened_seq) conflicts >>= λ conflicts'.
              ok (id, conflicts')
        ]
      ]

  -- one round of the loop over the kinds
  unfoldable pub open_kind :
      String
      → String
      → List (ConflictKind × String)
      → ℕ
      → ConflictKind
      → Opening
      → Result Failure Opening
  unfolding write_conflict members_of_kind
  open_kind family incoming pairs opened_seq kind (conflicts, events, opened) =
      elim (members_of_kind kind incoming pairs) [
        | [] ↦ ok (conflicts, events, opened)
        | x ∷ xs ↦ write_conflict family kind (x ∷ xs) opened_seq conflicts >>= λ (id, conflicts').
            or_raise (find id conflicts') value_error >>= λ row. ok (
              conflicts',
              events ++ conflict_opened (conflict_document id row) ∷ [],
              opened ++ id ∷ [],
            )
      ]

  -- The active claims of the family that conflict with the incoming one, with the kind.
  unfoldable pub conflicting :
      Claim
      → Predicate
      → List String
      → Table ClaimRow
      → Result Failure (List (ConflictKind × String))
  conflicting incoming predicate ignored [] = ok []
  conflicting incoming predicate ignored ((id, row) ∷ rows) =
      let rest = conflicting incoming predicate ignored rows in
      if not (is_active_claim row.status)
        || id == incoming.claim_id
        || contains id ignored
        || not
            (family_key h row.proposition predicate == family_key h incoming.proposition predicate)
      then rest
      else (conflict_kind h incoming.proposition row.proposition predicate >>= λ kind.
          rest >>= λ pairs. ok (elim kind [ none ↦ pairs | some k ↦ (k, id) ∷ pairs ]))

  unfoldable pub open_conflicts :
      Claim → Predicate → List String → ℕ → Tables → List Event → Result Failure Opening
  unfolding conflicting open_kind
  open_conflicts incoming predicate ignored opened_seq t events =
      conflicting incoming predicate ignored t.claims >>= λ pairs.
      fold_result
        (open_kind (family_key h incoming.proposition predicate) incoming.claim_id pairs opened_seq)
        (exclusive_value_conflict ∷ polarity_conflict ∷ []) (t.conflicts, events, [])
