-- ===== src/Grants/Missing.antt =====
-- grants.py: what the check of the live grants reports after a reconciliation.
use workflow_runtime_core.Grants.{Object, Statement, grant, revoke}

abbrev pub subject : Statement → Object
subject (grant ps o role) = o
subject (revoke ps o role) = o
