-- ===== src/Registry/Retention/Kept.antt =====
-- What retention must not take: `delete_run` and `prune_terminal_runs`.
use workflow_runtime_core.Base.{
  ℕ, ◌+◌, ◌*◌, String, ◌≡◌, ◌⊎◌, inl, inr, true, false, ◌&&◌, some, List, arith, ltb, any,
  find-delete, if◌then◌else◌,
}
use workflow_runtime_core.Models.{RunRecord, is_terminal}
use workflow_runtime_core.Db.{
  Db, Conn, row, has_id, at_least, holds_workspace, microseconds_a_day, require_version-keeps,
}
use workflow_runtime_core.Registry.Retention.{
  is_child, is_lineage_safe, is_stale, is_reapable, delete_runs, delete_run, prune_terminal_runs,
}

-- Why a run must stay: it is not settled, it changed within the retention window, a live run
-- holds its workspace, or another run is its retry.
abbrev pub MustStay : Conn → ℕ → List RunRecord → RunRecord → Type 0
MustStay conn days runs r =
    (is_terminal r.status ≡ false)
    ⊎ ((ltb (r.updated_at + days * microseconds_a_day) conn.now ≡ false)
        ⊎ ((any (holds_workspace r.workspace_id) runs ≡ true)
            ⊎ (any (is_child r.run_id) runs ≡ true)))

stays :
    (conn : Conn) (days : ℕ) (runs : List RunRecord) (r : RunRecord)
    → MustStay conn days runs r
    → is_reapable conn days runs r ≡ false
unfolding is_stale is_lineage_safe
stays conn days runs r (inl h) = ground (arith, h)
stays conn days runs r (inr (inl h)) = ground (arith, h)
stays conn days runs r (inr (inr (inl h))) = ground (arith, h)
stays conn days runs r (inr (inr (inr h))) = ground (arith, h)

module _ (conn : Conn) (days : ℕ) (db : Db) (r : RunRecord) (k : String) where
  delete_run-row :
      (j : String)
      → row k db ≡ some r
      → is_reapable conn days db.runs r ≡ false
      → row k (delete_run conn j days db).1 ≡ some r
  unfolding delete_run delete_runs row
  delete_run-row j found e =
      require_version-keeps (λ d. row k d ≡ some r) 2 _ db found
        (λ v.
          find-delete (has_id k) (λ s. has_id j s && is_reapable conn days db.runs s) db.runs r
            found (ground (arith, e)))

  -- On a schema with the data plane, a run that must stay (not settled, changed within the
  -- window, its workspace held by a live run, or another run retries it) is still there, as it
  -- was, after `delete_run` of any run and after `prune_terminal_runs`.
  pub retention-kept :
      (j : String)
      → row k db ≡ some r
      → at_least 2 db.version ≡ true
      → MustStay conn days db.runs r
      → (row k (delete_run conn j days db).1 ≡ some r)
        × (row k (prune_terminal_runs conn days db).1 ≡ some r)
  unfolding prune_terminal_runs delete_runs row
  retention-kept j found live why =
      let e = stays conn days db.runs r why in
      (
        delete_run-row j found e,
        find-delete (has_id k)
            (λ s.
              if at_least 2 db.version
              then is_reapable conn days db.runs s
              else is_stale conn days s)
            db.runs r found (rw live e),
      )
