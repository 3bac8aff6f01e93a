-- ===== src/Registry/Queries/Scope.antt =====
-- What `list_runs` may show, and what `retention_candidates` may offer for deletion.
use mathlib.Core.Path.{subst, fun_ext}
use workflow_runtime_core.Base.{
  length-map, All-image, ℕ, String, ◌≡◌, refl, sym, ap, inl, inr, Bool, true, none, some, List, [],
  ◌∷◌, arith, ltb, length, map, take, select, sort_by, All, All-map, All-chosen, In, length-take,
  length-sort_by, min, ◌∙◌, Bool-cases, Option, is_text, is_text_iff, str_eq_refl, any, any-In, ◌+◌,
  ◌*◌, ◌<◌, false, ◌&&◌,
}
use workflow_runtime_core.Exec.{Result, ok, ok-injective, ◌>>=◌}
use workflow_runtime_core.Models.{RunRecord, is_terminal}
use workflow_runtime_core.Db.{Db, Conn, at_least, has_id, holds_workspace, microseconds_a_day}
use workflow_runtime_core.Registry.Record.{from_row}
use workflow_runtime_core.Registry.Retention.{
  is_reapable, is_stale, is_lineage_safe, is_child, delete_run,
}
use workflow_runtime_core.Registry.Queries.{
  is_one_of_slugs, latest, list_runs, RetentionCandidate, candidate, leaf_first, candidates,
  retention_candidates,
}

-- The runs that a caller asks for: of one client, of some clients, or all of them.
abbrev pub InScope : Option String → Option (List String) → RunRecord → Type 0
InScope none none r = Unit
InScope (some slug) none r = r.client_slug ≡ some slug
InScope none (some slugs) r = (s : String) × In s slugs × (r.client_slug ≡ some s)
InScope (some slug) (some slugs) r = ⊥

-- A row of the table, in the scope.
abbrev pub IsListed : Option String → Option (List String) → Db → RunRecord → Type 0
IsListed slug slugs db r =
    (q : RunRecord) × In q db.runs × (r ≡ from_row db q) × InScope slug slugs q

slug_there :
    (slug : Option String) (slugs : List String)
    → is_one_of_slugs slug slugs ≡ true
    → (s : String) × In s slugs × (slug ≡ some s)
slug_there slug [] h = cc h
slug_there slug (s ∷ slugs) h = elim (Bool-cases (is_text slug s)) [
  | inl e ↦ (s, inl refl, (is_text_iff slug s).0 e)
  | inr e ↦ let (t, there, same) = slug_there slug slugs (rw e at h) in (t, inr there, same)
]

latest-IsListed :
    (slug : Option String) (slugs : Option (List String)) (p : RunRecord → Bool) (limit : ℕ)
    (db : Db)
    → ((q : RunRecord) → p q ≡ true → InScope slug slugs q)
    → All (IsListed slug slugs db) (latest p limit db)
unfolding latest
latest-IsListed slug slugs p limit db scoped = All-image (IsListed slug slugs db) (from_row db) _ (
    All-map _ _ _ (λ q h. (q, h.1, refl, scoped q h.0))
      (All-chosen (λ r s. ltb s.created_at r.created_at) p limit db.runs))

-- The test of it, which counts the rows in a scope.
abbrev pub in_scope : Option String → Option (List String) → RunRecord → Bool
in_scope none none r = true
in_scope (some slug) none r = is_text r.client_slug slug
in_scope none (some slugs) r = any (is_text r.client_slug) slugs
in_scope (some slug) (some slugs) r = false

one_of_any :
    (slug : Option String) (slugs : List String)
    → is_one_of_slugs slug slugs ≡ any (is_text slug) slugs
one_of_any slug [] = refl
one_of_any slug (s ∷ slugs) = let rest = one_of_any slug slugs in ground (arith, rest)

length-latest :
    (p q : RunRecord → Bool) (limit : ℕ) (db : Db)
    → ((r : RunRecord) → p r ≡ q r)
    → length (latest p limit db) ≡ min limit (length (select q db.runs))
unfolding latest
length-latest p q limit db same =
    let before = λ (r s : RunRecord). ltb s.created_at r.created_at in
    length-map (from_row db) (take limit (sort_by before (select p db.runs)))
    ∙ length-take limit (sort_by before (select p db.runs))
    ∙ ap (min limit) (
        length-sort_by before (select p db.runs)
        ∙ ap (λ f. length (select f db.runs)) (fun_ext same))

carried :
    (slug : Option String) (slugs : Option (List String)) (limit : ℕ) (db db' : Db)
    (xs runs : List RunRecord)
    → All (IsListed slug slugs db) xs
    → length xs ≡ min limit (length (select (in_scope slug slugs) db.runs))
    → ◌≡◌ {A = Result (List RunRecord) × Db} (ok xs, db) (ok runs, db')
    → All (IsListed slug slugs db) runs
      × (length runs ≡ min limit (length (select (in_scope slug slugs) db.runs)))
      × (db' ≡ db)
carried slug slugs limit db db' xs runs listed many h =
    subst
      (λ ys.
        All (IsListed slug slugs db) ys
        × (length ys ≡ min limit (length (select (in_scope slug slugs) db.runs)))
        × (db' ≡ db))
      (ok-injective (ap (λ q. q.0) h)) (listed, many, sym (ap (λ q. q.1) h))

none_selected :
    (limit : ℕ) (runs : List RunRecord)
    → 0 ≡ min limit (length (select (in_scope none (some [])) runs))
none_selected limit [] = omega arith
none_selected limit (r ∷ runs) = none_selected limit runs

-- A listing shows only rows of the table that are in the scope it is asked for (one client, a list
-- of clients, or everyone), as many as there are in the scope up to the limit, and changes nothing.
-- In the empty scope it shows none.
pub list_runs-scoped :
    (slug : Option String) (slugs : Option (List String)) (limit : ℕ) (db db' : Db)
    (runs : List RunRecord)
    → list_runs slug slugs limit db ≡ (ok runs, db')
    → All (IsListed slug slugs db) runs
      × (length runs ≡ min limit (length (select (in_scope slug slugs) db.runs)))
      × (db' ≡ db)
unfolding list_runs
list_runs-scoped none none limit db db' runs h =
    carried none none limit db db' _ runs
      (latest-IsListed none none (λ r. true) limit db (λ q e. tt))
      (length-latest (λ r. true) (in_scope none none) limit db (λ r. refl)) h
list_runs-scoped (some slug) none limit db db' runs h =
    carried (some slug) none limit db db' _ runs
      (latest-IsListed (some slug) none (λ r. is_text r.client_slug slug) limit db
        (λ q e. (is_text_iff q.client_slug slug).0 e))
      (length-latest (λ r. is_text r.client_slug slug) (in_scope (some slug) none) limit db
        (λ r. refl))
      h
list_runs-scoped none (some []) limit db db' runs h =
    carried none (some []) limit db db' [] runs tt (none_selected limit db.runs) h
list_runs-scoped none (some (s ∷ slugs)) limit db db' runs h =
    carried none (some (s ∷ slugs)) limit db db' _ runs
      (latest-IsListed none (some (s ∷ slugs)) (λ r. is_one_of_slugs r.client_slug (s ∷ slugs))
        limit db (λ q e. slug_there q.client_slug (s ∷ slugs) e))
      (length-latest (λ r. is_one_of_slugs r.client_slug (s ∷ slugs))
        (in_scope none (some (s ∷ slugs))) limit db (λ r. one_of_any r.client_slug (s ∷ slugs)))
      h
list_runs-scoped (some slug) (some slugs) limit db db' runs h = cc h

-- The run of a candidate is in the table, settled, unchanged for longer than the retention window,
-- with no live run on its workspace and no retry, and `delete_run` deletes it.
pub record IsOffered (conn : Conn) (days : ℕ) (db : Db) (c : RetentionCandidate) : Type 0 where
  pub run : RunRecord
  pub there : In run db.runs
  pub shown : c ≡ candidate run
  pub settled : is_terminal run.status ≡ true
  pub old : run.updated_at + days * microseconds_a_day < conn.now
  pub unheld : any (holds_workspace run.workspace_id) db.runs ≡ false
  pub childless : any (is_child run.run_id) db.runs ≡ false
  pub deleted : (delete_run conn run.run_id days db).0 ≡ ok true

reapable-IsOffered :
    (conn : Conn) (days : ℕ) (db : Db) (r : RunRecord)
    → at_least 2 db.version ≡ true
    → In r db.runs
    → is_reapable conn days db.runs r ≡ true
    → IsOffered conn days db (candidate r)
unfolding is_stale is_lineage_safe delete_run ◌>>=◌
reapable-IsOffered conn days db r live there h = record {
  run = r;
  there = there;
  shown = refl;
  settled = ground (arith, h);
  old = ground (arith, h);
  unheld = ground (arith, h);
  childless = ground (arith, h);
  deleted = rw live (
      ap ok (
        any-In (λ s. has_id r.run_id s && is_reapable conn days db.runs s) r db.runs there
          (rw (str_eq_refl r.run_id) h)));
}

offered :
    (conn : Conn) (days limit : ℕ) (db : Db)
    → at_least 2 db.version ≡ true
    → All (IsOffered conn days db) (map candidate (candidates conn days limit db))
unfolding candidates
offered conn days limit db live = All-image (IsOffered conn days db) candidate _ (
    All-map _ _ _ (λ r h. reapable-IsOffered conn days db r live h.1 h.0)
      (All-chosen leaf_first (is_reapable conn days db.runs) limit db.runs))

-- What `retention_candidates` returns are runs of the table that are settled, past the window, with
-- no live run on their workspace and no retry, and `delete_run` deletes each of them, asked for it
-- in this database.
pub retention_candidates-IsOffered :
    (conn : Conn) (days limit : ℕ) (db db' : Db) (cs : List RetentionCandidate)
    → retention_candidates conn days limit db ≡ (ok cs, db')
    → All (IsOffered conn days db) cs
unfolding retention_candidates
retention_candidates-IsOffered conn days limit db db' cs h = elim (Bool-cases (ltb days 1)) [
  | inl e ↦ cc (rw e at h)
  | inr e ↦ elim (Bool-cases (at_least 2 db.version)) [
    | inl v ↦
        subst (All (IsOffered conn days db)) (ok-injective (ap (λ q. q.0) (rw (e, v) at h)))
          (offered conn days limit db v)
    | inr v ↦ cc (rw (e, v) at h)
  ]
]
