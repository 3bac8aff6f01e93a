-- ===== src/Registry/Create/Idempotent.antt =====
-- `create_run` with an idempotency key: a run is made once.
use workflow_runtime_core.Base.{
  String, ◌≡◌, ◌⊎◌, refl, sym, ap, ◌∙◌, inl, inr, true, false, not, ◌&&◌, Option, none, some, [],
  ◌∷◌, ◌++◌, arith, Bool-cases, str_eq, eq→str_eq, is_text, is_some, find?, any, find-append,
  is_some-find, if◌then◌else◌,
}
use workflow_runtime_core.Exec.{ok, ◌>>=◌}
use workflow_runtime_core.Models.{RunRecord}
use workflow_runtime_core.Db.{
  Db, Conn, at_least, emit, row, inserted, duplicate_id, duplicate_key, active_workspace, no_parent,
  insert_run,
}
use workflow_runtime_core.Registry.Record.{from_row, read_row, truthy, find_by_idempotency_key}
use workflow_runtime_core.Registry.Create.{
  NewRun, existing_run, lineage_requested, minted_after, after_insert, insert_new, create_run_found,
  create_run, new_row,
}

-- An INSERT adds its row, or says which constraint failed and leaves the tables alone.
pub unchanged_lem :
    (r : RunRecord) (db : Db)
    → (insert_run r db ≡ (inserted r, record db { runs = db.runs ++ r ∷ [] }))
      ⊎ ((insert_run r db ≡ (duplicate_id, db))
          ⊎ ((insert_run r db ≡ (duplicate_key, db))
              ⊎ ((insert_run r db ≡ (active_workspace, db)) ⊎ (insert_run r db ≡ (no_parent, db)))))
unfolding insert_run
unchanged_lem r db = ground arith

read_row-none : (db : Db) (o : Option RunRecord) → read_row db o ≡ none → o ≡ none
read_row-none db none h = refl
read_row-none db (some r) h = cc h

truthy-is_text : (o : Option String) (key : String) → truthy o ≡ some key → is_text o key ≡ true
truthy-is_text none key h = cc h
truthy-is_text (some s) key h = elim (Bool-cases (str_eq s "")) [
  | inl e ↦ cc (rw e at h)
  | inr e ↦ let same : some s ≡ some key = rw e at h in eq→str_eq s key (cc same)
]

-- A row that is added under a key that no row had is the one that is found under it.
appended :
    (key : String) (db : Db) (r : RunRecord)
    → find_by_idempotency_key key db ≡ none
    → is_text r.idempotency_key key ≡ true
    → find_by_idempotency_key key (record db { runs = db.runs ++ r ∷ [] }) ≡ some (from_row db r)
unfolding find_by_idempotency_key
appended key db r fresh same =
    let p = λ (s : RunRecord). is_text s.idempotency_key key in
    let missing : any p db.runs ≡ false =
      sym (is_some-find p db.runs) ∙ ap is_some (read_row-none db (find? p db.runs) fresh) in
    let first : find? p (db.runs ++ r ∷ []) ≡ some r =
      find-append p db.runs (r ∷ []) ∙ (rw missing (rw same)) in
    ap (read_row db) first

module _ (conn : Conn) (new : NewRun) (key : String) where
  inserted_lem :
      (r : RunRecord) (db db' : Db) (c : RunRecord)
      → after_insert conn new (inserted r) db ≡ (ok c, db')
      → find_by_idempotency_key key db ≡ some (from_row db r)
      → find_by_idempotency_key key db' ≡ some c
  unfolding after_insert ◌>>=◌ emit find_by_idempotency_key
  inserted_lem r db db' c h found = elim (Bool-cases (is_some (row r.run_id db))) [
    | inl e ↦ cc (rw e at h, found)
    | inr e ↦ cc (rw e at h)
  ]

  module _ (given : truthy new.idempotency_key ≡ some key) where
    existing_run-key :
        (db : Db) → existing_run new.idempotency_key db ≡ find_by_idempotency_key key db
    unfolding existing_run
    existing_run-key db = rw (existing_run, given)

    fresh_lem :
        (db db' : Db) (c : RunRecord)
        → find_by_idempotency_key key db ≡ none
        → insert_new conn new db ≡ (ok c, db')
        → find_by_idempotency_key key db' ≡ some c
    unfolding insert_new after_insert find_by_idempotency_key
    fresh_lem db db' c fresh h =
        let n = minted_after new.run_id db.minted in
        let counted = record db {
          minted = if at_least 2 db.version then minted_after new.workspace_id n else n;
        } in
        let r = new_row conn new (at_least 2 db.version) db.minted in
        let lost = existing_run-key counted ∙ fresh in
        elim (unchanged_lem r counted) [
          | inl e ↦
              inserted_lem r (record counted { runs = db.runs ++ r ∷ [] }) db' c (rw e at h)
                (appended key counted r fresh (truthy-is_text new.idempotency_key key given))
          | inr (inl e) ↦ cc (rw (e, lost) at h)
          | inr (inr (inl e)) ↦ cc (rw (e, lost) at h)
          | inr (inr (inr (inl e))) ↦ cc (rw (e, lost) at h)
          | inr (inr (inr (inr e))) ↦ cc (rw e at h)
        ]

    found_lem :
        (db db' : Db) (c : RunRecord) (o : Option RunRecord)
        → find_by_idempotency_key key db ≡ o
        → create_run_found conn new o db ≡ (ok c, db')
        → find_by_idempotency_key key db' ≡ some c
    unfolding create_run_found
    found_lem db db' c (some r) found h =
        let same : db ≡ db' = ap (λ p. p.1) h in rw (← same) (cc (found, h))
    found_lem db db' c none found h =
        elim (Bool-cases (lineage_requested new && not (at_least 2 db.version))) [
          | inl e ↦ cc (rw e at h)
          | inr e ↦ fresh_lem db db' c found (rw e at h)
        ]

-- In the database that a `create_run` with a non-empty idempotency key leaves when it returns
-- a run, a `create_run` with the same key, from any session and whatever else it asks for,
-- returns that run and changes nothing.
pub create_run_once :
    (conn conn' : Conn) (new new' : NewRun) (key : String) (db db' : Db) (c : RunRecord)
    → truthy new.idempotency_key ≡ some key
    → new'.idempotency_key ≡ new.idempotency_key
    → create_run conn new db ≡ (ok c, db')
    → create_run conn' new' db' ≡ (ok c, db')
unfolding create_run create_run_found
create_run_once conn conn' new new' key db db' c given same h =
    let t =
      found_lem conn new key given db db' c (existing_run new.idempotency_key db)
        (sym (existing_run-key conn new key given db)) h in
    rw same (rw (existing_run-key conn new key given db' ∙ t))
