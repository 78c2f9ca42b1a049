-- ===== src/Kernel/Commit/Encodings.antt =====
-- The hash of a submitted value: what `Kernel._commit` of src/shared_mind/kernel.py has computed of
-- the value when it accepts or repeats.
use shared_mind.Base.{◌≡◌, refl, String, false, ok, ◌⊎◌, inl, inr}
use shared_mind.Documents.{Registry}
use shared_mind.Kernel.Json.{Json}
use shared_mind.Kernel.Host.{Host, Encoding, encoded, recursion_error, type_error, sha256_bytes}
use shared_mind.Kernel.Depth.{json_depth_exceeds}
use shared_mind.Kernel.State.{Bytes, ReceiptRow, Database}
use shared_mind.Kernel.Commit.{submission, commit_row, max_proposal_depth}
use shared_mind.Kernel.Commit.Outcomes.{
  Submitted, Rejected, reject_unencodable-Rejected, preflight-cases,
}

module _ (h : Host) (reg : Registry) (now : String) where
  -- A value without canonical JSON is rejected; of any other the submission has the hash of its bytes.
  pub commit_row-encoded :
      (j : Json) (db db' : Database) (row : ReceiptRow)
      → commit_row h reg now j db ≡ ok (db', row)
      → ((hash : String) × Rejected h (submission h reg now j db hash) db db' row)
        ⊎ ((bytes : Bytes) × (h.encode j ≡ encoded bytes)
            × Submitted h reg
                (submission h reg now j db (sha256_bytes h bytes))
                (h.contract j)
                db
                db'
                row)
  unfolding commit_row
  commit_row-encoded j db db' row e = on (h.encode j) refl
    where
      on :
          (x : Encoding)
          → h.encode j ≡ x
          → ((hash : String) × Rejected h (submission h reg now j db hash) db db' row)
            ⊎ ((bytes : Bytes) × (h.encode j ≡ encoded bytes)
                × Submitted h reg
                    (submission h reg now j db (sha256_bytes h bytes))
                    (h.contract j)
                    db
                    db'
                    row)
      on (encoded bytes) p = inr (
        bytes,
        p,
        preflight-cases h reg now j (json_depth_exceeds j max_proposal_depth) bytes db db' row
            (rw (p, commit_row) at e),
      )
      on recursion_error p = inl (
          reject_unencodable-Rejected h reg now j (json_depth_exceeds j max_proposal_depth) db db'
            row (rw (p, commit_row) at e))
      on type_error p =
          inl (reject_unencodable-Rejected h reg now j false db db' row (rw (p, commit_row) at e))
