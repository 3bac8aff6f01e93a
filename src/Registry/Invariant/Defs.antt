-- ===== src/Registry/Invariant/Defs.antt =====
-- The constraints of migrations.py on the table runs, and the rule for leases.
use workflow_runtime_core.Base.{
  ◌≡◌, ◌⊎◌, Bool, true, false, not, ◌&&◌, none, List, [], ◌∷◌, All, any, str_eq, is_some,
}
use workflow_runtime_core.Models.{RunRecord, is_terminal, is_running, is_cancelled}
use workflow_runtime_core.Db.{Db, Event, at_least, has_id, holds_workspace, holds_key, dangling}

-- Two rows that the primary key and both unique indexes allow together: other ids, other
-- idempotency keys, and no workspace that both of them hold live.
pub record Apart (r s : RunRecord) : Type 0 where
  pub ids : str_eq r.run_id s.run_id ≡ false
  pub keys : holds_key r.idempotency_key s ≡ false
  pub workspaces : (not (is_terminal r.status) && holds_workspace r.workspace_id s) ≡ false

abbrev pub Distinct : List RunRecord → Type 0
Distinct [] = Unit
Distinct (r ∷ runs) = All (Apart r) runs × Distinct runs

-- Who may hold a lease: a running run, or one whose cancellation the worker has not
-- acknowledged. Owner and expiry come together, and only where the schema has the columns; so does
-- `retry_of`.
pub record IsLeased (data_plane : Bool) (r : RunRecord) : Type 0 where
  pub holder :
      is_some r.lease_owner ≡ true → (is_running r.status ≡ true) ⊎ (is_cancelled r.status ≡ true)
  pub paired : is_some r.lease_expires_at ≡ is_some r.lease_owner
  pub lease_column : data_plane ≡ false → is_some r.lease_owner ≡ false
  pub lineage_column : data_plane ≡ false → r.retry_of ≡ none

-- The foreign keys of `retry_of` and of run_events.
abbrev pub HasParent : List RunRecord → RunRecord → Type 0
HasParent runs r = dangling r.retry_of runs ≡ false

abbrev pub HasRun : List RunRecord → Event → Type 0
HasRun runs e = any (has_id e.run_id) runs ≡ true

pub record IsSound (db : Db) : Type 0 where
  pub distinct : Distinct db.runs
  pub leases : All (IsLeased (at_least 2 db.version)) db.runs
  pub parents : All (HasParent db.runs) db.runs
  pub events : All (HasRun db.runs) db.events

-- What an UPDATE may do to the row `r` for the constraints to hold after it: a terminal row
-- comes to life only where no live row holds its workspace.
pub record IsTame (runs : List RunRecord) (r r' : RunRecord) : Type 0 where
  pub same_id : r'.run_id ≡ r.run_id
  pub same_key : r'.idempotency_key ≡ r.idempotency_key
  pub same_workspace : r'.workspace_id ≡ r.workspace_id
  pub same_parent : r'.retry_of ≡ r.retry_of
  pub no_revival :
      (not (is_terminal r'.status)
        && (is_terminal r.status && any (holds_workspace r.workspace_id) runs))
      ≡ false
