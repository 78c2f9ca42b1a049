-- ===== src/Kernel/Verify/Valid.antt =====
-- `verify_ledger` of src/shared_mind/kernel.py on the histories of `commit`.
use shared_mind.Kernel.Host.{Host}
