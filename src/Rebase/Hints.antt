-- ===== src/Rebase/Hints.antt =====
-- `build_rebase_hint` of src/shared_mind/rebase.py beside `_validate_reads_and_guards` of
-- src/shared_mind/kernel.py.
use shared_mind.Base.{◌≡◌, some, List, ◌++◌, arith, ok, Every, inl, inr, ◌↔◌}
use shared_mind.Documents.{Registry, Proposal}
use shared_mind.Continuity.Errors.{Code}
use shared_mind.Kernel.Host.{Host}
use shared_mind.Kernel.State.{Tables, Database, Receipt}
use shared_mind.Kernel.Validate.{validate_read, validate_guard, validate_reads_and_guards}
use shared_mind.Rebase.{
  Precondition, Hint, enumerated, read_precondition, guard_precondition, build_rebase_hint,
}
use shared_mind.Rebase.Staleness.{IsMet, IsReadable, IsReadableGuard, read-Judged, guard-Judged}
use shared_mind.Rebase.Selection.{met-unfailed, Explained, Explained-append, Explained-enumerated}

module _ (h : Host) (reg : Registry) (t : Tables) (p : Proposal) where
  -- the preconditions of the reads and the guards
  abbrev pub reads_and_guards : List Precondition
  reads_and_guards =
      enumerated (read_precondition h reg t) 0 p.reads
      ++ enumerated (guard_precondition h reg t) 0 p.guards

  module _ (reads : Every IsReadable p.reads) (guards : Every IsReadableGuard p.guards) where
    validate_reads_and_guards-Explained :
        Explained reads_and_guards (validate_reads_and_guards h reg t p)
    unfolding validate_reads_and_guards
    validate_reads_and_guards-Explained =
        Explained-append _ _ _ _
          (Explained-enumerated (read_precondition h reg t) (validate_read h reg t) IsReadable
            (read-Judged h reg t) 0 p.reads reads)
          (Explained-enumerated (guard_precondition h reg t) (validate_guard h reg t)
            IsReadableGuard (guard-Judged h reg t) 0 p.guards guards)

    -- Where no read is of a source and no guard is on a source's hash or on the absence of claims, the
    -- kernel's check of the reads and guards passes exactly where the tables have the value that each
    -- precondition of them names.
    pub validate_reads_and_guards-IsMet :
        (validate_reads_and_guards h reg t p ≡ ok tt) ↔ Every IsMet reads_and_guards
    validate_reads_and_guards-IsMet =
        (passes validate_reads_and_guards-Explained, met validate_reads_and_guards-Explained)
      where
        passes :
            Explained reads_and_guards (validate_reads_and_guards h reg t p)
            → validate_reads_and_guards h reg t p ≡ ok tt
            → Every IsMet reads_and_guards
        passes (inl (all, e)) passed = all
        passes (inr (code, failed, found, e)) passed = absurd (ground (arith, e, passed))

        met :
            Explained reads_and_guards (validate_reads_and_guards h reg t p)
            → Every IsMet reads_and_guards
            → validate_reads_and_guards h reg t p ≡ ok tt
        met (inl (all, e)) every = e
        met (inr (code, failed, found, e)) every =
            absurd (met-unfailed code reads_and_guards failed every found)

module _ (h : Host) (reg : Registry) (db : Database) (p : Proposal) where
  -- What a hint of a proposal is about.
  abbrev pub IsHintFor : Receipt → Code → Hint → Type 0
  IsHintFor receipt code hint =
      (build_rebase_hint h reg db p receipt ≡ some hint)
      × (hint.reason_code ≡ code)
      × (hint.failed_precondition.reason_code ≡ code)
      × ¬ IsMet hint.failed_precondition
