-- ===== src/Registry/Lifecycle/Rows.antt =====
-- What the statements on runs do to the status of one of them.
use mathlib.Core.Path.{subst}
use workflow_runtime_core.Base.{
  String, ◌≡◌, refl, sym, ap, ◌∙◌, inl, inr, Bool, true, false, Option, none, some, List, [], ◌∷◌,
  ◌++◌, arith, Bool-cases, All, eq_iff, str_eq, str_eq→eq, find?, any, delete, is_some,
  is_some-find, find-append,
}
use workflow_runtime_core.Json.{Json}
use workflow_runtime_core.Models.{RunRecord, queued, is_terminal}
use workflow_runtime_core.Db.{
  Db, Conn, row, has_id, update_run, row-update_run, rewritten, emit, row-emit, insert_run,
}
use workflow_runtime_core.Registry.Create.Idempotent.{unchanged_lem}
use workflow_runtime_core.Registry.Invariant.{Apart, Distinct}
use workflow_runtime_core.Registry.Retention.{delete_runs}
use workflow_runtime_core.Registry.Lifecycle.{
  Moves, stays, created, deleted, status_of, status_at, Moved,
}

module _ (j : String) (before : Db) where
  pub emit-Moved :
      (conn : Conn) (k kind : String) (detail : Option Json) (db : Db)
      → Moved j before db
      → Moved j before (emit conn k kind detail db).1
  unfolding status_at
  emit-Moved conn k kind detail db h =
      subst (Moves (status_at j before)) (ap status_of (sym (row-emit conn k j kind detail db))) h

  rewritten-status_of :
      (p : RunRecord → Bool) (f : RunRecord → RunRecord) (o : Option RunRecord)
      → ((r : RunRecord) → (f r).status ≡ r.status)
      → status_of (rewritten p f o) ≡ status_of o
  rewritten-status_of p f none same = refl
  rewritten-status_of p f (some r) same = elim (Bool-cases (p r)) [
    | inl e ↦ rw e (ap some (same r))
    | inr e ↦ rw e
  ]

  -- An UPDATE that leaves the status column alone.
  pub same-Moved :
      (k : String) (p : RunRecord → Bool) (f : RunRecord → RunRecord) (db : Db)
      → ((r : RunRecord) → (f r).run_id ≡ r.run_id)
      → ((r : RunRecord) → (f r).status ≡ r.status)
      → Moved j before db
      → Moved j before (update_run k p f db).1
  unfolding status_at
  same-Moved k p f db id same h =
      subst (Moves (status_at j before))
        (sym (
          ap status_of (row-update_run k j p f db id) ∙ (elim (Bool-cases (str_eq k j)) [
            | inl e ↦ rw e (rewritten-status_of p f (row j db) same)
            | inr e ↦ rw e
          ])))
        h

  rewritten-Moves :
      (p : RunRecord → Bool) (f : RunRecord → RunRecord) (o : Option RunRecord)
      → ((r : RunRecord) → o ≡ some r → p r ≡ true → Moves (some r.status) (some (f r).status))
      → Moves (status_of o) (status_of (rewritten p f o))
  rewritten-Moves p f none k = stays none
  rewritten-Moves p f (some r) k = elim (Bool-cases (p r)) [
    | inl e ↦ rw e (k r refl e)
    | inr e ↦ rw e (stays (some r.status))
  ]

  -- The UPDATE of an operation that moves the status.
  pub step-Moved :
      (k : String) (p : RunRecord → Bool) (f : RunRecord → RunRecord)
      → ((r : RunRecord) → (f r).run_id ≡ r.run_id)
      → ((r : RunRecord)
          → row k before ≡ some r
          → p r ≡ true
          → Moves (some r.status) (some (f r).status))
      → Moved j before (update_run k p f before).1
  unfolding status_at
  step-Moved k p f id moves = elim (Bool-cases (str_eq k j)) [
    | inl e ↦
        subst (λ o. Moves (status_of (row j before)) (status_of o))
          (sym (row-update_run k j p f before id ∙ rw e))
          (rewritten-Moves p f (row j before)
            (λ r found. moves r (ap (λ i. row i before) (str_eq→eq k j e) ∙ found)))
    | inr e ↦
        subst (λ o. Moves (status_of (row j before)) (status_of o))
          (sym (row-update_run k j p f before id ∙ rw e)) (stays _)
  ]

  none-found : (o : Option RunRecord) → is_some o ≡ false → o ≡ none
  none-found none e = refl
  none-found (some r) e = cc e

  added :
      (r : RunRecord) (runs : List RunRecord)
      → r.status ≡ queued
      → Moves (status_of (find? (has_id j) runs)) (status_of (find? (has_id j) (runs ++ r ∷ [])))
  added r runs fresh = elim (Bool-cases (any (has_id j) runs)) [
    | inl e ↦
        subst (λ o. Moves (status_of (find? (has_id j) runs)) (status_of o))
          (sym (find-append (has_id j) runs (r ∷ []) ∙ rw e)) (stays _)
    | inr e ↦
        let gone = none-found (find? (has_id j) runs) (is_some-find (has_id j) runs ∙ e) in
        subst (λ o. Moves (status_of (find? (has_id j) runs)) (status_of o))
          (sym (find-append (has_id j) runs (r ∷ []) ∙ rw e))
          (subst (λ o. Moves (status_of o) (status_of (find? (has_id j) (r ∷ [])))) (sym gone)
            (first r fresh))
  ]
    where
      first :
          (r : RunRecord) → r.status ≡ queued → Moves none (status_of (find? (has_id j) (r ∷ [])))
      first r fresh = elim (Bool-cases (has_id j r)) [
        | inl e ↦ rw e (rw fresh created)
        | inr e ↦ rw e (stays none)
      ]

  pub insert_run-Moved :
      (r : RunRecord) (db : Db)
      → r.status ≡ queued
      → db.runs ≡ before.runs
      → Moved j before (insert_run r db).1
  unfolding status_at row
  insert_run-Moved r db fresh same = elim (unchanged_lem r db) [
    | inl e ↦ rw e (rw same (added r before.runs fresh))
    | inr (inl e) ↦ rw e (rw same (stays _))
    | inr (inr (inl e)) ↦ rw e (rw same (stays _))
    | inr (inr (inr (inl e))) ↦ rw e (rw same (stays _))
    | inr (inr (inr (inr e))) ↦ rw e (rw same (stays _))
  ]

-- No second row has the id of a row.
only_row :
    (j : String) (p : RunRecord → Bool) (r : RunRecord) (runs : List RunRecord)
    → has_id j r ≡ true
    → All (Apart r) runs
    → find? (has_id j) (delete p runs) ≡ none
only_row j p r [] e h = refl
only_row j p r (s ∷ runs) e h = elim (Bool-cases (p s)) [
  | inl t ↦ rw t (only_row j p r runs e h.1)
  | inr t ↦
      let other : has_id j s ≡ false =
        (let apart = h.0.ids in
          ground
            (arith, apart, e, eq_iff r.run_id j, eq_iff s.run_id j, eq_iff r.run_id s.run_id)) in
      rw (t, other) (only_row j p r runs e h.1)
]

deleted_lem :
    (j : String) (p : RunRecord → Bool) (runs : List RunRecord)
    → Distinct runs
    → ((r : RunRecord) → p r ≡ true → is_terminal r.status ≡ true)
    → Moves (status_of (find? (has_id j) runs)) (status_of (find? (has_id j) (delete p runs)))
deleted_lem j p [] distinct settled = stays none
deleted_lem j p (r ∷ runs) distinct settled = elim (Bool-cases (has_id j r)) [
  | inl e ↦ elim (Bool-cases (p r)) [
    | inl t ↦
        rw (e, t)
          (subst (λ o. Moves (some r.status) (status_of o)) (sym (only_row j p r runs e distinct.0))
            (deleted r.status (settled r t)))
    | inr t ↦ rw (e, t) (rw e (stays (some r.status)))
  ]
  | inr e ↦ elim (Bool-cases (p r)) [
    | inl t ↦ rw (e, t) (deleted_lem j p runs distinct.1 settled)
    | inr t ↦ rw (e, t) (rw e (deleted_lem j p runs distinct.1 settled))
  ]
]

pub delete_runs-Moved :
    (j : String) (p : RunRecord → Bool) (db : Db)
    → Distinct db.runs
    → ((r : RunRecord) → p r ≡ true → is_terminal r.status ≡ true)
    → Moved j db (delete_runs p db)
unfolding status_at row delete_runs
delete_runs-Moved j p db distinct settled = deleted_lem j p db.runs distinct settled
