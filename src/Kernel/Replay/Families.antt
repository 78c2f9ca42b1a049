-- ===== src/Kernel/Replay/Families.antt =====
-- The invariant under which replay accepts what the operations wrote: claims have known predicates,
-- and the members of a conflict are claims of its family.
use shared_mind.Base.{
  String, ◌≡◌, refl, true, false, none, some, List, [], ◌∷◌, arith, eq_refl, Table, find, insert,
  update, find-insert_old, All, update_step, HasKeys, Every, Every-map, is_nil, sorted, ok,
}
use shared_mind.Documents.{Registry, Predicate, Proposition}
use shared_mind.Kernel.Host.{Host, sha256_json, member_ids}
use shared_mind.Kernel.State.{ClaimRow, ConflictRow, Tables}
use shared_mind.Kernel.Semantics.{predicate_of, family_key}
use shared_mind.Kernel.Replay.{member_family, family_keys, is_singleton, all_equal}

module _ (h : Host) (reg : Registry) where
  -- Two claims that share a family under the predicate of one share it under their own predicates.
  -- It holds where `predicate` is among the fields of every family key and hashes do not collide.
  abbrev pub Separates : Type 0
  Separates =
      (p q : Proposition) (d e : Predicate)
      → predicate_of reg p.predicate ≡ some d
      → predicate_of reg q.predicate ≡ some e
      → family_key h q d ≡ family_key h p d
      → family_key h q e ≡ family_key h p d

  -- `id` is a claim whose family, under its own predicate, is `family`.
  abbrev pub IsMember : Table ClaimRow → String → String → Type 0
  IsMember claims family id =
      (row : ClaimRow) × (d : Predicate) × (find id claims ≡ some row)
      × (predicate_of reg row.proposition.predicate ≡ some d)
      × (family_key h row.proposition d ≡ family)

  pub record IsConflict (claims : Table ClaimRow) (id : String) (row : ConflictRow) : Type 0 where
    pub ordered : sorted row.members ≡ row.members
    pub digest : sha256_json h (member_ids row.members) ≡ row.member_digest
    pub members : Every (IsMember claims row.family_key) row.members
    pub inhabited : is_nil row.members ≡ false

  abbrev pub IsKnown : String → ClaimRow → Type 0
  IsKnown id row = (d : Predicate) × (predicate_of reg row.proposition.predicate ≡ some d)

  pub record IsSound (t : Tables) : Type 0 where
    pub claim_keys : HasKeys t.claims
    pub conflict_keys : HasKeys t.conflicts
    pub known : All IsKnown t.claims
    pub sound : All (IsConflict t.claims) t.conflicts

  -- Replay finds the one family key of a conflict.
  member_family-IsMember :
      (claims : Table ClaimRow) (family id : String)
      → IsMember claims family id
      → member_family h reg claims id ≡ ok family
  unfolding member_family
  member_family-IsMember claims family id (row, d, found, known, same) = rw (found, known, same)

  family_keys-Every :
      (claims : Table ClaimRow) (family : String) (ids : List String)
      → Every (IsMember claims family) ids
      → (keys : List String) × (family_keys h reg claims ids ≡ ok keys)
        × (all_equal family keys ≡ true)
        × (is_nil keys ≡ is_nil ids)
  unfolding family_keys all_equal
  family_keys-Every claims family [] e = ([], refl, refl, refl)
  family_keys-Every claims family (id ∷ ids) e =
      let ih = family_keys-Every claims family ids e.1 in
      (
        family ∷ ih.0,
        rw (member_family-IsMember claims family id e.0, ih.1),
        rw (eq_refl, ih.2),
        refl,
      )

  singleton_of :
      (family : String) (keys : List String)
      → all_equal family keys ≡ true
      → is_nil keys ≡ false
      → is_singleton family keys ≡ true
  unfolding is_singleton
  singleton_of family [] a n = absurd (ground (arith, n))
  singleton_of family (k ∷ ks) a n = a

  pub one_family :
      (claims : Table ClaimRow) (family : String) (ids : List String)
      → Every (IsMember claims family) ids
      → is_nil ids ≡ false
      → (keys : List String) × (family_keys h reg claims ids ≡ ok keys)
        × (is_singleton family keys ≡ true)
  one_family claims family ids e n =
      let r = family_keys-Every claims family ids e in
      (r.0, r.1, singleton_of family r.0 r.2 (ground (arith, r.3, n)))

  -- A claim table that keeps every row's proposition keeps the members of conflicts.
  abbrev pub Keeps : Table ClaimRow → Table ClaimRow → Type 0
  Keeps claims claims' =
      (id : String) (row : ClaimRow)
      → find id claims ≡ some row
      → (row' : ClaimRow) × (find id claims' ≡ some row') × (row'.proposition ≡ row.proposition)

  pub IsMember-Keeps :
      (claims claims' : Table ClaimRow)
      → Keeps claims claims'
      → (family id : String) → IsMember claims family id
      → IsMember claims' family id
  IsMember-Keeps claims claims' keeps family id (row, d, found, known, same) =
      let (row', found', p) = keeps id row found in (row', d, found', rw p known, rw p same)

  pub IsConflict-Keeps :
      (claims claims' : Table ClaimRow)
      → Keeps claims claims'
      → (id : String) (row : ConflictRow) → IsConflict claims id row
      → IsConflict claims' id row
  IsConflict-Keeps claims claims' keeps id row c = record {
    ordered = c.ordered;
    digest = c.digest;
    members =
        Every-map (IsMember claims row.family_key) (IsMember claims' row.family_key) row.members
          (IsMember-Keeps claims claims' keeps row.family_key) c.members;
    inhabited = c.inhabited;
  }

pub Keeps-insert :
    (h : Host) (reg : Registry) (id : String) (row : ClaimRow) (claims : Table ClaimRow)
    → find id claims ≡ none
    → Keeps h reg claims (insert id row claims)
Keeps-insert h reg id row claims new j old found =
    (old, find-insert_old id j row claims new found, refl)

pub Keeps-update :
    (h : Host) (reg : Registry) (id : String) (f : ClaimRow → ClaimRow) (claims : Table ClaimRow)
    → ((row : ClaimRow) → (f row).proposition ≡ row.proposition)
    → Keeps h reg claims (update id f claims)
Keeps-update h reg id f claims same j old found =
    update_step (λ a b. b.proposition ≡ a.proposition) id j f claims old found refl (λ _. same old)
