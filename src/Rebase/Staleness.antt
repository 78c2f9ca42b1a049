-- ===== src/Rebase/Staleness.antt =====
-- The preconditions of src/shared_mind/rebase.py beside the checks of reads and guards in
-- src/shared_mind/kernel.py that they describe.
use shared_mind.Base.{
  ℕ, String, Bool, true, false, not, ◌≡◌, refl, sym, ap, Option, none, some, [], ◌∷◌, ◌==◌, equal,
  eq_iff, find, arith, ok, err, ◌>>=◌, raise_if, ◌⊎◌, inl, inr, ◌↔◌, nat_eq, if◌then◌else◌,
  Bool-cases,
}
use shared_mind.Documents.{
  ReadRef, collection, aggregate, source_revision, claim, conflict, decision_record, open_question,
  work_item, Registry, Guard, claim_status_eq, claim_version_eq, conflict_status_eq,
  conflict_member_digest_eq, active_set_digest_eq, source_hash_eq, no_active_claim,
  decision_status_eq, decision_version_eq, question_status_eq, question_version_eq,
  work_item_status_eq, work_item_version_eq, ClaimStatus-discrete, ConflictStatus-discrete,
  DecisionStatus-discrete, QuestionStatus-discrete, WorkItemStatus-discrete,
}
use shared_mind.Continuity.Errors.{
  Code, Failure, Checked, transaction_conflict, continuity_conflict,
}
use shared_mind.Continuity.Errors
use shared_mind.Continuity.Reads
use shared_mind.Continuity.Reads.{mismatch}
use shared_mind.Kernel.Host.{Host}
use shared_mind.Kernel.State.{Tables}
use shared_mind.Kernel.Operations.{translate}
use shared_mind.Kernel.Validate.{
  active_set_digest, validate_read, validate_guard, check_read, check_guard,
}
use shared_mind.Rebase
use shared_mind.Rebase.{
  on_record, read_version, read_digest, guard_field, Value, number, digest, Precondition, column,
  aggregate_state, version_reason, on_collection, active_collection_state, enumerated,
  read_precondition, guard_precondition, is_stale, first_failed, Actual-discrete, Value-discrete,
  Code-discrete,
}

-- The state has the value that the precondition names.
unfoldable pub IsMet : Precondition → Type 0
IsMet item = item.actual ≡ some item.expected

-- A read that is no read of a source.
abbrev pub IsReadable : ReadRef → Type 0
IsReadable (aggregate source_revision id version) = ⊥
IsReadable _ = Unit

-- A guard that is none on a source's hash or on the absence of claims.
abbrev pub IsReadableGuard : Guard → Type 0
IsReadableGuard (source_hash_eq id hash) = ⊥
IsReadableGuard (no_active_claim key) = ⊥
IsReadableGuard _ = Unit

-- A check passes where the precondition is met, and else raises the reason of the precondition.
abbrev pub Judged : Precondition → Checked → Type 0
Judged item r =
    (IsMet item × (r ≡ ok tt)) ⊎ (¬ IsMet item × (r ≡ err (transaction_conflict item.reason_code)))

judge :
    (item : Precondition) (m : Bool) (r : Checked)
    → (m ≡ false) ↔ IsMet item
    → r ≡ raise_if m (transaction_conflict item.reason_code)
    → Judged item r
judge item true r same e = inr ((λ met. absurd (cc (same.1 met))), e)
judge item false r same e = inl (same.0 refl, e)

pub some-eq : {A : Type 0} (x y : A) → some x ≡ some y → x ≡ y
some-eq x y e = ground (arith, e)

pub not-equal : {A : Type 0} (d : Discrete A) (x y : A) → (not (equal d x y) ≡ false) ↔ (x ≡ y)
not-equal d x y = (λ e. ground (arith, e), λ e. ground (arith, e))

pub is_stale-false : (item : Precondition) → IsMet item → is_stale item ≡ false
unfolding is_stale IsMet
is_stale-false item met = (not-equal Actual-discrete (some item.expected) item.actual).1 (sym met)

pub is_stale-true : (item : Precondition) → ¬ IsMet item → is_stale item ≡ true
unfolding is_stale IsMet
is_stale-true item unmet = elim (Bool-cases (is_stale item)) [
  | inl e ↦ e
  | inr e ↦ absurd (unmet (sym ((not-equal Actual-discrete (some item.expected) item.actual).0 e)))
]

pub is_stale-unmet : (item : Precondition) → is_stale item ≡ true → ¬ IsMet item
is_stale-unmet item stale met = cc (is_stale-false item met)

module _ {A V : Type 0} (eq : A → A → Bool) (value : A → Value) where
  -- A test that decides the equality of what its arguments are stored as, on a column.
  mismatch-column :
      ((x y : A) → (not (eq x y) ≡ false) ↔ (value x ≡ value y))
      → (f : V → A) (row : Option V) (expected : A)
      → (mismatch eq f row expected ≡ false)
        ↔ (column (λ r. value (f r)) row ≡ some (value expected))
  unfolding mismatch column
  mismatch-column tests f none expected = (λ e. absurd (cc e), λ e. absurd (ground (arith, e)))
  mismatch-column tests f (some row) expected =
      (λ e. ap some ((tests (f row) expected).0 e), λ e. (tests (f row) expected).1 (some-eq _ _ e))

-- The check of continuity, read by the kernel.
continuity_outcome :
    (m : Bool) (code : Code) (rest : Checked)
    → (translate (if m then err (continuity_conflict code) else ok true) >>= λ handled.
        if handled then ok tt else rest)
      ≡ raise_if m (transaction_conflict code)
unfolding translate
continuity_outcome true code rest = refl
continuity_outcome false code rest = refl

numbers : (x y : ℕ) → (not (nat_eq x y) ≡ false) ↔ (number x ≡ number y)
numbers x y = (λ e. ground (arith, e), λ e. ground (arith, e))

digests : (x y : String) → (not (x == y) ≡ false) ↔ (digest x ≡ digest y)
digests x y = (λ e. ground (arith, e, eq_iff x y), λ e. ground (arith, e, eq_iff x y))

some-both : {T : Type 0} {x y : Value} → T ↔ (x ≡ y) → T ↔ (some x ≡ some y)
some-both {T} {x} {y} same = (λ p. ap some (same.0 p), λ e. same.1 (some-eq x y e))

-- A status is stored as itself.
statuses :
    {A : Type 0} (d : Discrete A) (value : A → Value)
    → ((x y : A) → value x ≡ value y → x ≡ y)
    → (x y : A) → (not (equal d x y) ≡ false) ↔ (value x ≡ value y)
statuses d value injective x y =
    (λ e. ap value ((not-equal d x y).0 e), λ e. (not-equal d x y).1 (injective x y e))

module _ (h : Host) (reg : Registry) (t : Tables) where
  -- A read that can be interpreted has one precondition, which decides its check.
  pub read-Judged :
      (index : ℕ) (r : ReadRef)
      → IsReadable r
      → (item : Precondition) × (read_precondition h reg t index r ≡ item ∷ [])
        × Judged item (validate_read h reg t r)
  unfolding read_precondition validate_read check_read version_reason on_collection
      active_collection_state aggregate_state Reads.validate_read Reads.expect IsMet translate
  read-Judged index (collection key expected) i =
      let item = on_collection h reg t key (read_digest index) expected in
      (
        item,
        refl,
        judge item _ _ (some-both (digests (active_set_digest h reg key t) expected)) refl,
      )
  read-Judged index (aggregate source_revision id version) i = absurd i
  read-Judged index (aggregate claim id version) i =
      let item =
        on_record t claim id (read_version index) (number version) (λ s. s.version)
          Errors.claim_version_mismatch in
      (
        item,
        refl,
        judge item _ _ (mismatch-column nat_eq number numbers _ (find id t.claims) _) refl,
      )
  read-Judged index (aggregate conflict id version) i =
      let item =
        on_record t conflict id (read_version index) (number version) (λ s. s.version)
          Errors.conflict_version_mismatch in
      (
        item,
        refl,
        judge item _ _ (mismatch-column nat_eq number numbers _ (find id t.conflicts) _) refl,
      )
  read-Judged index (aggregate decision_record id version) i =
      let item =
        on_record t decision_record id (read_version index) (number version) (λ s. s.version)
          Errors.decision_version_mismatch in
      (
        item,
        refl,
        judge item _ _
            (mismatch-column nat_eq number numbers _ (find id t.continuity.decision_records) _)
            (continuity_outcome _ _ _),
      )
  read-Judged index (aggregate open_question id version) i =
      let item =
        on_record t open_question id (read_version index) (number version) (λ s. s.version)
          Errors.question_version_mismatch in
      (
        item,
        refl,
        judge item _ _
            (mismatch-column nat_eq number numbers _ (find id t.continuity.open_questions) _)
            (continuity_outcome _ _ _),
      )
  read-Judged index (aggregate work_item id version) i =
      let item =
        on_record t work_item id (read_version index) (number version) (λ s. s.version)
          Errors.work_item_version_mismatch in
      (
        item,
        refl,
        judge item _ _ (mismatch-column nat_eq number numbers _ (find id t.continuity.work_items) _)
            (continuity_outcome _ _ _),
      )

  -- A guard that can be interpreted has one precondition, which decides its check.
  pub guard-Judged :
      (index : ℕ) (g : Guard)
      → IsReadableGuard g
      → (item : Precondition) × (guard_precondition h reg t index g ≡ item ∷ [])
        × Judged item (validate_guard h reg t g)
  unfolding guard_precondition validate_guard check_guard on_collection active_collection_state
      aggregate_state Reads.validate_guard Reads.expect IsMet translate
  guard-Judged index (active_set_digest_eq key expected) i =
      let item = on_collection h reg t key (guard_field index) expected in
      (
        item,
        refl,
        judge item _ _ (some-both (digests (active_set_digest h reg key t) expected)) refl,
      )
  guard-Judged index (source_hash_eq id hash) i = absurd i
  guard-Judged index (no_active_claim key) i = absurd i
  guard-Judged index (claim_status_eq id status) i =
      let item =
        on_record t claim id (guard_field index) (Rebase.claim_status status) (λ s. s.status)
          Errors.claim_status_mismatch in
      (
        item,
        refl,
        judge item _ _
            (mismatch-column (equal ClaimStatus-discrete) Rebase.claim_status
              (statuses ClaimStatus-discrete Rebase.claim_status (λ x y e. ground (arith, e))) _
              (find id t.claims) _)
            refl,
      )
  guard-Judged index (claim_version_eq id version) i =
      let item =
        on_record t claim id (guard_field index) (number version) (λ s. s.version)
          Errors.claim_version_mismatch in
      (
        item,
        refl,
        judge item _ _ (mismatch-column nat_eq number numbers _ (find id t.claims) _) refl,
      )
  guard-Judged index (conflict_status_eq id status) i =
      let item =
        on_record t conflict id (guard_field index) (Rebase.conflict_status status) (λ s. s.status)
          Errors.conflict_status_mismatch in
      (
        item,
        refl,
        judge item _ _
            (mismatch-column (equal ConflictStatus-discrete) Rebase.conflict_status
              (statuses ConflictStatus-discrete Rebase.conflict_status (λ x y e. ground (arith, e)))
              _ (find id t.conflicts) _)
            refl,
      )
  guard-Judged index (decision_status_eq id status) i =
      let item =
        on_record t decision_record id (guard_field index) (Rebase.decision_status status)
          (λ s. s.status) Errors.decision_status_mismatch in
      (
        item,
        refl,
        judge item _ _
            (mismatch-column (equal DecisionStatus-discrete) Rebase.decision_status
              (statuses DecisionStatus-discrete Rebase.decision_status (λ x y e. ground (arith, e)))
              _ (find id t.continuity.decision_records) _)
            (continuity_outcome _ _ _),
      )
  guard-Judged index (decision_version_eq id version) i =
      let item =
        on_record t decision_record id (guard_field index) (number version) (λ s. s.version)
          Errors.decision_version_mismatch in
      (
        item,
        refl,
        judge item _ _
            (mismatch-column nat_eq number numbers _ (find id t.continuity.decision_records) _)
            (continuity_outcome _ _ _),
      )
  guard-Judged index (question_status_eq id status) i =
      let item =
        on_record t open_question id (guard_field index) (Rebase.question_status status)
          (λ s. s.status) Errors.question_status_mismatch in
      (
        item,
        refl,
        judge item _ _
            (mismatch-column (equal QuestionStatus-discrete) Rebase.question_status
              (statuses QuestionStatus-discrete Rebase.question_status (λ x y e. ground (arith, e)))
              _ (find id t.continuity.open_questions) _)
            (continuity_outcome _ _ _),
      )
  guard-Judged index (question_version_eq id version) i =
      let item =
        on_record t open_question id (guard_field index) (number version) (λ s. s.version)
          Errors.question_version_mismatch in
      (
        item,
        refl,
        judge item _ _
            (mismatch-column nat_eq number numbers _ (find id t.continuity.open_questions) _)
            (continuity_outcome _ _ _),
      )
  guard-Judged index (work_item_status_eq id status) i =
      let item =
        on_record t work_item id (guard_field index) (Rebase.work_item_status status)
          (λ s. s.status) Errors.work_item_status_mismatch in
      (
        item,
        refl,
        judge item _ _
            (mismatch-column (equal WorkItemStatus-discrete) Rebase.work_item_status
              (statuses WorkItemStatus-discrete Rebase.work_item_status
                (λ x y e. ground (arith, e)))
              _ (find id t.continuity.work_items) _)
            (continuity_outcome _ _ _),
      )
  guard-Judged index (work_item_version_eq id version) i =
      let item =
        on_record t work_item id (guard_field index) (number version) (λ s. s.version)
          Errors.work_item_version_mismatch in
      (
        item,
        refl,
        judge item _ _ (mismatch-column nat_eq number numbers _ (find id t.continuity.work_items) _)
            (continuity_outcome _ _ _),
      )
  guard-Judged index (conflict_member_digest_eq id expected) i =
      let item =
        on_record t conflict id (guard_field index) (digest expected) (λ s. s.member_digest)
          Errors.conflict_member_digest_mismatch in
      (
        item,
        refl,
        judge item _ _ (mismatch-column ◌==◌ digest digests _ (find id t.conflicts) _) refl,
      )
