-- ===== src/Registry/Queries.antt =====
-- registry.py: `list_runs` and `retention_candidates`, which only read.
pub mod Scope
use workflow_runtime_core.Base.{
  ℕ, String, Bool, true, false, not, ◌&&◌, ◌||◌, Option, none, some, List, [], ◌∷◌, ltb, ◌==◌,
  str_eq, is_text, codes, map, take, select, sort_by, if◌then◌else◌,
}
use workflow_runtime_core.Exec.{
  ok, err, Exec, registry_error, schema_version_mismatch, raise_if, ◌>>=◌, ◌>>◌,
}
use workflow_runtime_core.Models.{RunRecord, RunStatus}
use workflow_runtime_core.Db.{Db, Conn, at_least}
use workflow_runtime_core.Registry.Record.{from_row}
use workflow_runtime_core.Registry.Retention.{is_reapable}

-- client_slug = ANY(%s)
abbrev pub is_one_of_slugs : Option String → List String → Bool
is_one_of_slugs slug [] = false
is_one_of_slugs slug (s ∷ slugs) = is_text slug s || is_one_of_slugs slug slugs

-- ORDER BY created_at DESC LIMIT %s
unfoldable pub latest : (RunRecord → Bool) → ℕ → Db → List RunRecord
latest p limit db =
    map (from_row db)
      (take limit (sort_by (λ r s. ltb s.created_at r.created_at) (select p db.runs)))

unfoldable pub list_runs : Option String → Option (List String) → ℕ → Exec Db (List RunRecord)
unfolding latest
list_runs none none limit db = (ok (latest (λ r. true) limit db), db)
list_runs (some slug) none limit db = (ok (latest (λ r. is_text r.client_slug slug) limit db), db)
list_runs none (some []) limit db = (ok [], db)
list_runs none (some (s ∷ slugs)) limit db =
    (ok (latest (λ r. is_one_of_slugs r.client_slug (s ∷ slugs)) limit db), db)
list_runs (some slug) (some slugs) limit db = (err registry_error, db)

pub record RetentionCandidate : Type 0 where
  pub run_id : String
  pub thread_id : String
  pub client_slug : Option String
  pub workspace_id : Option String
  pub status : RunStatus
  pub updated_at : ℕ

abbrev pub candidate : RunRecord → RetentionCandidate
candidate r = record {
  run_id = r.run_id;
  thread_id = r.thread_id;
  client_slug = r.client_slug;
  workspace_id = r.workspace_id;
  status = r.status;
  updated_at = r.updated_at;
}

-- The order of two texts by their code points, which is that of UUIDs in one spelling.
unfoldable codes_before : List ℕ → List ℕ → Bool
codes_before [] [] = false
codes_before [] (d ∷ ds) = true
codes_before (c ∷ cs) [] = false
codes_before (c ∷ cs) (d ∷ ds) = let rest = codes_before cs ds in ltb c d || ((c == d) && rest)

text_before : String → String → Bool
unfolding codes codes_before
text_before s t = codes_before (codes s) (codes t)

-- NULLS LAST
workspace_before : Option String → Option String → Bool
unfolding text_before
workspace_before none w = false
workspace_before (some v) none = true
workspace_before (some v) (some w) = text_before v w

same_workspace : Option String → Option String → Bool
same_workspace none none = true
same_workspace none (some w) = false
same_workspace (some v) w = is_text w v

-- ORDER BY workspace_id, attempt_no DESC, updated_at: of a lineage the leaves first.
unfoldable pub leaf_first : RunRecord → RunRecord → Bool
unfolding workspace_before same_workspace
leaf_first r s =
    workspace_before r.workspace_id s.workspace_id
    || (same_workspace r.workspace_id s.workspace_id
        && (ltb s.attempt_no r.attempt_no
            || ((r.attempt_no == s.attempt_no) && ltb r.updated_at s.updated_at)))

unfoldable pub candidates : Conn → ℕ → ℕ → Db → List RunRecord
unfolding leaf_first
candidates conn days limit db =
    take limit (sort_by leaf_first (select (is_reapable conn days db.runs) db.runs))

unfoldable pub retention_candidates : Conn → ℕ → ℕ → Exec Db (List RetentionCandidate)
unfolding candidates
retention_candidates conn days limit db =
    if ltb days 1
    then (err registry_error, db)
    else if not (at_least 2 db.version)
    then (err schema_version_mismatch, db)
    else (ok (map candidate (candidates conn days limit db)), db)
