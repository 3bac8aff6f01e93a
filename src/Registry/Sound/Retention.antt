-- ===== src/Registry/Sound/Retention.antt =====
-- Deleting settled runs.
use workflow_runtime_core.Base.{
  ℕ, String, ◌≡◌, refl, inl, inr, Bool, true, false, Option, none, some, List, [], ◌∷◌, arith,
  Bool-cases, All, All-delete, any, delete, eq_iff, str_eq→eq,
}
use workflow_runtime_core.Models.{RunRecord}
use workflow_runtime_core.Db.{require_version-keeps, Db, Conn, Event, at_least, has_id, dangling}
use workflow_runtime_core.Registry.Retention.{
  is_child, is_lineage_safe, references, delete_runs, delete_run, prune_terminal_runs,
}
use workflow_runtime_core.Registry.Invariant.{Apart, Distinct, IsLeased, HasParent, HasRun, IsSound}

module _ (doomed : RunRecord → Bool) where
  Distinct-delete : (runs : List RunRecord) → Distinct runs → Distinct (delete doomed runs)
  Distinct-delete [] d = tt
  Distinct-delete (r ∷ runs) d = elim (Bool-cases (doomed r)) [
    | inl e ↦ rw e (Distinct-delete runs d.1)
    | inr e ↦ rw e (All-delete (Apart r) doomed runs d.0, Distinct-delete runs d.1)
  ]

  any-delete :
      (j : String) (runs : List RunRecord)
      → any (has_id j) runs ≡ true
      → references doomed runs j ≡ false
      → any (has_id j) (delete doomed runs) ≡ true
  any-delete j [] h free = h
  any-delete j (r ∷ runs) h free = elim (Bool-cases (doomed r)) [
    | inl e ↦ rw e (any-delete j runs (ground arith) (ground arith))
    | inr e ↦ rw e (ground (arith, any-delete j runs))
  ]

  events-delete :
      (runs : List RunRecord) (es : List Event)
      → All (HasRun runs) es
      → All (HasRun (delete doomed runs)) (delete (λ e. references doomed runs e.run_id) es)
  events-delete runs [] h = tt
  events-delete runs (e ∷ es) h = elim (Bool-cases (references doomed runs e.run_id)) [
    | inl t ↦ rw t (events-delete runs es h.1)
    | inr t ↦ rw t (any-delete e.run_id runs h.0 t, events-delete runs es h.1)
  ]

  -- Where no parent of a surviving row is deleted, no reference dangles.
  module _ (runs : List RunRecord)
      (childless : (r : RunRecord)
        → doomed r ≡ true
        → (j : String) → any (is_child j) runs ≡ true
        → has_id j r ≡ false) where
    references-parent :
        (j : String) (rs : List RunRecord)
        → any (is_child j) runs ≡ true
        → references doomed rs j ≡ false
    references-parent j [] h = refl
    references-parent j (r ∷ rs) h = elim (Bool-cases (doomed r)) [
      | inl e ↦ rw (e, childless r e j h) (references-parent j rs h)
      | inr e ↦ rw e (references-parent j rs h)
    ]

    parent-delete :
        (o : Option String)
        → ((j : String) → o ≡ some j → any (is_child j) runs ≡ true)
        → dangling o runs ≡ false
        → dangling o (delete doomed runs) ≡ false
    parent-delete none has h = refl
    parent-delete (some j) has h =
        rw (any-delete j runs (ground arith) (references-parent j runs (has j refl)))

    parents-delete :
        (rs : List RunRecord)
        → ((j : String) → any (is_child j) rs ≡ true → any (is_child j) runs ≡ true)
        → All (HasParent runs) rs
        → All (HasParent (delete doomed runs)) rs
    parents-delete [] within h = tt
    parents-delete (r ∷ rs) within h = (
      parent-delete r.retry_of (λ j e. within j (rw e (ground (arith, eq_iff j j)))) h.0,
      parents-delete rs (λ j t. within j (ground arith)) h.1,
    )

pub delete_runs-IsSound :
    (doomed : RunRecord → Bool) (db : Db)
    → ((r : RunRecord)
        → doomed r ≡ true
        → (j : String) → any (is_child j) db.runs ≡ true
        → has_id j r ≡ false)
    → IsSound db
    → IsSound (delete_runs doomed db)
unfolding delete_runs
delete_runs-IsSound doomed db childless h = record {
  distinct = Distinct-delete doomed db.runs h.distinct;
  leases = All-delete (IsLeased (at_least 2 db.version)) doomed db.runs h.leases;
  parents =
      All-delete (HasParent (delete doomed db.runs)) doomed db.runs
        (parents-delete doomed db.runs childless db.runs (λ j t. t) h.parents);
  events = events-delete doomed db.runs db.events h.events;
}

-- A run that `_LINEAGE_SAFE` lets go has no child.
safe-childless :
    (runs : List RunRecord) (r : RunRecord) (j : String)
    → is_lineage_safe runs r ≡ true
    → any (is_child j) runs ≡ true
    → has_id j r ≡ false
unfolding is_lineage_safe
safe-childless runs r j safe child = elim (Bool-cases (has_id j r)) [
  | inl e ↦
      let c : any (is_child r.run_id) runs ≡ true = rw (str_eq→eq r.run_id j e) child in
      ground (arith, c)
  | inr e ↦ e
]

-- Before schema v2 there are no children at all.
childless_early :
    (v : Option ℕ) (runs : List RunRecord) (j : String)
    → at_least 2 v ≡ false
    → All (IsLeased (at_least 2 v)) runs
    → any (is_child j) runs ≡ false
childless_early v [] j early h = refl
childless_early v (r ∷ runs) j early h =
    rw (h.0.lineage_column early) (childless_early v runs j early h.1)

pub delete_run-IsSound :
    (conn : Conn) (k : String) (days : ℕ) (db : Db)
    → IsSound db
    → IsSound (delete_run conn k days db).1
unfolding delete_run
delete_run-IsSound conn k days db h = require_version-keeps IsSound _ _ _ h λ v.
    delete_runs-IsSound _ db (λ r doomed j child. safe-childless db.runs r j (ground arith) child) h

pub prune_terminal_runs-IsSound :
    (conn : Conn) (days : ℕ) (db : Db) → IsSound db → IsSound (prune_terminal_runs conn days db).1
unfolding prune_terminal_runs
prune_terminal_runs-IsSound conn days db h = elim (Bool-cases (at_least 2 db.version)) [
  | inl v ↦ rw v (
      delete_runs-IsSound _ db (λ r doomed j child. safe-childless db.runs r j (ground arith) child)
        h)
  | inr v ↦ rw v (
      delete_runs-IsSound _ db
        (λ r doomed j child. cc (childless_early db.version db.runs j v h.leases)) h)
]
