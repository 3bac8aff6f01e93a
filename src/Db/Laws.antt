-- ===== src/Db/Laws.antt =====
-- What the statements on runs do to one row, and to every row.
use workflow_runtime_core.Base.{
  ℕ, refl, true, false, inl, inr, Bool-cases, String, ◌≡◌, Bool, ◌&&◌, Option, none, some, List, [],
  ◌∷◌, arith, eq_iff, str_eq, str_eq_refl, ap, find?, update, if◌then◌else◌,
}
use workflow_runtime_core.Exec.{ok, Exec, raise_if, ◌>>=◌, Error}
use workflow_runtime_core.Json.{Json}
use workflow_runtime_core.Models.{RunRecord}
use workflow_runtime_core.Db.Rows.{Db, Conn}
use workflow_runtime_core.Db.Runs.{
  has_id, row, always, update_run, emit, shares, at_least, require_version, add_event, matched,
}

-- The row after an UPDATE by key: `f r` where the rest of the WHERE clause holds.
abbrev pub rewritten :
    (RunRecord → Bool) → (RunRecord → RunRecord) → Option RunRecord → Option RunRecord
rewritten p f none = none
rewritten p f (some r) = some (if p r then f r else r)

find-update :
    (k j : String) (p : RunRecord → Bool) (f : RunRecord → RunRecord) (runs : List RunRecord)
    → ((r : RunRecord) → (f r).run_id ≡ r.run_id)
    → find? (has_id j) (update (λ r. has_id k r && p r) f runs)
      ≡ (if str_eq k j then rewritten p f (find? (has_id j) runs) else find? (has_id j) runs)
find-update k j p f [] same = ground arith
find-update k j p f (r ∷ runs) same = ground (
  arith,
  same r,
  eq_iff r.run_id k,
  eq_iff r.run_id j,
  eq_iff (f r).run_id j,
  eq_iff k j,
  find-update k j p f runs same,
)

pub row-update_run :
    (k j : String) (p : RunRecord → Bool) (f : RunRecord → RunRecord) (db : Db)
    → ((r : RunRecord) → (f r).run_id ≡ r.run_id)
    → row j (update_run k p f db).1 ≡ (if str_eq k j then rewritten p f (row j db) else row j db)
unfolding row update_run
row-update_run k j p f db same = find-update k j p f db.runs same

-- An event changes no run.
pub row-emit :
    (conn : Conn) (k j kind : String) (detail : Option _) (db : Db)
    → row j (emit conn k kind detail db).1 ≡ row j db
unfolding row emit
row-emit conn k j kind detail db = ground arith

pub shares_sym : (t u : Bool) (a b : Option String) → (t && shares a u b) ≡ (u && shares b t a)
shares_sym t u none none = ground arith
shares_sym t u none (some b) = ground arith
shares_sym t u (some a) none = ground arith
shares_sym t u (some a) (some b) = ground (arith, eq_iff a b, eq_iff b a)

-- A block behind a test that raises, or behind the test for a schema's version.
pub raise_if-keeps :
    {A : Type 0} (P : Db → Type 0) (b : Bool) (e : Error) (f : Unit → Exec Db A) (db : Db)
    → P db
    → (b ≡ false → P (f tt db).1)
    → P ((raise_if b e >>= f) db).1
unfolding ◌>>=◌
raise_if-keeps P true e f db h k = h
raise_if-keeps P false e f db h k = k refl

pub require_version-keeps :
    {A : Type 0} (P : Db → Type 0) (n : ℕ) (f : Unit → Exec Db A) (db : Db)
    → P db
    → (at_least n db.version ≡ true → P (f tt db).1)
    → P ((require_version n >>= f) db).1
unfolding ◌>>=◌
require_version-keeps P n f db h k = elim (Bool-cases (at_least n db.version)) [
  | inl e ↦ rw e (k e)
  | inr e ↦ rw e h
]

-- An UPDATE by key, and the event about it, of a run that is there.
module _ (conn : Conn) (k : String) (p : RunRecord → Bool) (f : RunRecord → RunRecord)
    (same : (r : RunRecord) → (f r).run_id ≡ r.run_id) (db : Db) (r : RunRecord)
    (found : row k db ≡ some r) where
  pub row-updated : row k (update_run k p f db).1 ≡ some (if p r then f r else r)
  row-updated = rw (row-update_run k k p f db same) (rw (str_eq_refl k, found))

  pub emit-updated :
      (kind : String) (detail : Option Json)
      → emit conn k kind detail (update_run k p f db).1
        ≡ (ok tt, add_event conn k kind detail (update_run k p f db).1)
  unfolding emit
  emit-updated kind detail = rw row-updated

  pub result-updated : (update_run k p f db).0 ≡ ok (matched p f (some r))
  unfolding update_run
  result-updated = ap (λ o. ok (matched p f o)) found

  pub update_emit_lem :
      {A : Type 0} (kind : String) (detail : Option Json) (rest : Option RunRecord → Exec Db A)
      → (update_run k p f >>= λ o. (emit conn k kind detail >>= λ _. rest o)) db
        ≡ rest (matched p f (some r)) (add_event conn k kind detail (update_run k p f db).1)
  unfolding ◌>>=◌
  update_emit_lem kind detail rest = rw (result-updated, emit-updated kind detail)

-- The database after an UPDATE by key and the event about it.
abbrev pub changed : Conn → String → (RunRecord → RunRecord) → String → Option Json → Db → Db
changed conn k f kind detail db = add_event conn k kind detail (update_run k always f db).1

pub row-changed :
    (conn : Conn) (k : String) (f : RunRecord → RunRecord) (kind : String) (detail : Option Json)
    (db : Db) (r : RunRecord)
    → ((s : RunRecord) → (f s).run_id ≡ s.run_id)
    → row k db ≡ some r
    → row k (changed conn k f kind detail db) ≡ some (f r)
unfolding row
row-changed conn k f kind detail db r same found = row-updated conn k always f same db r found

pub version-changed :
    (conn : Conn) (k : String) (f : RunRecord → RunRecord) (kind : String) (detail : Option Json)
    (db : Db)
    → (changed conn k f kind detail db).version ≡ db.version
unfolding update_run
version-changed conn k f kind detail db = refl
