-- ===== src/Registry/Invariant/Rows.antt =====
-- An UPDATE by key on a table whose keys are distinct.
use workflow_runtime_core.Base.{
  String, ◌≡◌, refl, inl, inr, Bool, true, false, not, ◌&&◌, some, List, [], ◌∷◌, arith, eq_iff,
  All, All-map, any, find?, update, Bool-cases,
}
use workflow_runtime_core.Models.{RunRecord, is_terminal}
use workflow_runtime_core.Db.{has_id, holds_workspace, shares_sym}
use workflow_runtime_core.Registry.Invariant.Defs.{Apart, Distinct, IsTame}

module _ (k : String) (p : RunRecord → Bool) (f : RunRecord → RunRecord) where
  abbrev pub update_key : List RunRecord → List RunRecord
  update_key = update (λ r. has_id k r && p r) f

  update-absent :
      (runs : List RunRecord) → All (λ r. has_id k r ≡ false) runs → update_key runs ≡ runs
  update-absent [] h = refl
  update-absent (r ∷ runs) h = rw (h.0, update-absent runs h.1)

  absent-Apart :
      (r : RunRecord) (runs : List RunRecord)
      → has_id k r ≡ true
      → All (Apart r) runs
      → All (λ s. has_id k s ≡ false) runs
  absent-Apart r runs e h =
      All-map (Apart r) (λ s. has_id k s ≡ false) runs
        (λ s a.
          ground (arith, a.ids, eq_iff r.run_id k, eq_iff s.run_id k, eq_iff r.run_id s.run_id))
        h

  pub All-update_key :
      (Q : RunRecord → Type 0) (runs : List RunRecord)
      → Distinct runs
      → ((r : RunRecord) → find? (has_id k) runs ≡ some r → p r ≡ true → Q r → Q (f r))
      → All Q runs
      → All Q (update_key runs)
  All-update_key Q [] d keep h = tt
  All-update_key Q (r ∷ runs) d keep h = elim (Bool-cases (has_id k r)) [
    | inl e ↦ rw (update-absent runs (absent-Apart r runs e d.0)) (elim (Bool-cases (p r)) [
      | inl t ↦ (rw (e, t) (keep r (rw e) t h.0), h.1)
      | inr t ↦ (rw (e, t) h.0, h.1)
    ])
    | inr e ↦ (rw e h.0, All-update_key Q runs d.1 (λ s found. keep s (rw e found)) h.1)
  ]

  -- The condition on the row that is hit, over a list that holds it.
  abbrev pub Fits : List RunRecord → List RunRecord → Type 0
  Fits all runs = (r : RunRecord) → find? (has_id k) runs ≡ some r → p r ≡ true → IsTame all r (f r)

  Fits-tail :
      (r : RunRecord) (runs : List RunRecord)
      → has_id k r ≡ false
      → Fits (r ∷ runs) (r ∷ runs)
      → Fits runs runs
  Fits-tail r runs e fits s found t =
      let tame = fits s (rw e found) t in
      record {
        same_id = tame.same_id;
        same_key = tame.same_key;
        same_workspace = tame.same_workspace;
        same_parent = tame.same_parent;
        no_revival = ground (arith, tame.no_revival);
      }

  -- The row that is hit, against one that is not.
  Apart-tame_left :
      (r s : RunRecord) (runs : List RunRecord)
      → IsTame runs r (f r)
      → Apart r s
      → ((is_terminal r.status && any (holds_workspace r.workspace_id) runs) ≡ false
          → (is_terminal r.status && holds_workspace r.workspace_id s) ≡ false)
      → Apart (f r) s
  Apart-tame_left r s runs tame apart others = record {
    ids = rw tame.same_id apart.ids;
    keys = rw tame.same_key apart.keys;
    workspaces = rw tame.same_workspace (ground (arith, tame.no_revival, apart.workspaces, others));
  }

  Apart-tame_right :
      (r s : RunRecord) (runs : List RunRecord)
      → IsTame (r ∷ runs) s (f s)
      → Apart r s
      → Apart r (f s)
  Apart-tame_right r s runs tame apart = record {
    ids = rw tame.same_id apart.ids;
    keys = ground (arith, tame.same_key, apart.keys);
    workspaces = ground (
      arith,
      tame.no_revival,
      tame.same_workspace,
      apart.workspaces,
      shares_sym (not (is_terminal r.status)) true r.workspace_id s.workspace_id,
    );
  }

  All-Apart-tame :
      (r : RunRecord) (all runs : List RunRecord)
      → IsTame all r (f r)
      → ((is_terminal r.status && any (holds_workspace r.workspace_id) all) ≡ false
          → (is_terminal r.status && any (holds_workspace r.workspace_id) runs) ≡ false)
      → All (Apart r) runs
      → All (Apart (f r)) runs
  All-Apart-tame r all [] tame within h = tt
  All-Apart-tame r all (s ∷ runs) tame within h = (
    Apart-tame_left r s all tame h.0 (λ e. ground (arith, within e)),
    All-Apart-tame r all runs tame (λ e. ground (arith, within e)) h.1,
  )

  pub Distinct-update_key :
      (runs : List RunRecord) → Distinct runs → Fits runs runs → Distinct (update_key runs)
  Distinct-update_key [] d fits = tt
  Distinct-update_key (r ∷ runs) d fits = elim (Bool-cases (has_id k r)) [
    | inl e ↦ rw (update-absent runs (absent-Apart r runs e d.0)) (elim (Bool-cases (p r)) [
      | inl t ↦ (
        rw (e, t) (All-Apart-tame r (r ∷ runs) runs (fits r (rw e) t) (λ h. ground arith) d.0),
        d.1,
      )
      | inr t ↦ (rw (e, t) d.0, d.1)
    ])
    | inr e ↦ (
      rw e (
          All-update_key (Apart r) runs d.1
            (λ s found t a. Apart-tame_right r s runs (fits s (rw e found) t) a) d.0),
      Distinct-update_key runs d.1 (Fits-tail r runs e fits),
    )
  ]

  -- No id appears or disappears.
  pub any-update_key :
      (j : String) (runs : List RunRecord)
      → ((r : RunRecord) → p r ≡ true → (f r).run_id ≡ r.run_id)
      → any (has_id j) (update_key runs) ≡ any (has_id j) runs
  any-update_key j [] same = refl
  any-update_key j (r ∷ runs) same =
      ground (arith, same r, eq_iff (f r).run_id j, eq_iff r.run_id j, any-update_key j runs same)
