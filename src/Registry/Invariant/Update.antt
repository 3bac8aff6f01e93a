-- ===== src/Registry/Invariant/Update.antt =====
-- The statements on runs and run_events keep the constraints.
use workflow_runtime_core.Base.{
  String, ◌≡◌, refl, sym, inl, inr, ◌∙◌, Bool, true, false, not, ◌&&◌, Option, none, some, List, [],
  ◌∷◌, ◌++◌, arith, All, All-map, All-append, any, Bool-cases, is_some, is_some-find, any-append,
}
use workflow_runtime_core.Json.{Json}
use workflow_runtime_core.Models.{RunRecord, is_terminal}
use workflow_runtime_core.Db.{
  Db, Conn, Event, at_least, has_id, holds_workspace, holds_key, dangling, row, update_run, emit,
  insert_run, shares_sym,
}
use workflow_runtime_core.Registry.Invariant.Defs.{
  Apart, Distinct, IsLeased, HasParent, HasRun, IsSound, IsTame,
}
use workflow_runtime_core.Registry.Invariant.Rows.{
  update_key, All-update_key, Distinct-update_key, any-update_key,
}

dangling-any :
    (o : Option String) (runs runs' : List RunRecord)
    → ((j : String) → any (has_id j) runs ≡ true → any (has_id j) runs' ≡ true)
    → dangling o runs ≡ false
    → dangling o runs' ≡ false
dangling-any none runs runs' sub h = refl
dangling-any (some j) runs runs' sub h = ground (arith, sub j)

module _ (k : String) (p : RunRecord → Bool) (f : RunRecord → RunRecord) (db : Db)
    (same : (r : RunRecord) → (f r).run_id ≡ r.run_id) where
  after : List RunRecord
  after = update_key k p f db.runs

  any-after : (j : String) → any (has_id j) after ≡ any (has_id j) db.runs
  unfolding after
  any-after j = any-update_key k p f j db.runs (λ r t. same r)

  parents-after :
      (runs : List RunRecord) → All (HasParent db.runs) runs → All (HasParent after) runs
  parents-after runs h =
      All-map (HasParent db.runs) (HasParent after) runs
        (λ r. dangling-any r.retry_of db.runs after (λ j e. any-after j ∙ e)) h

  events-after : (es : List Event) → All (HasRun db.runs) es → All (HasRun after) es
  events-after es h =
      All-map (HasRun db.runs) (HasRun after) es (λ e present. any-after e.run_id ∙ present) h

  pub update_run-IsSound :
      IsSound db
      → ((r : RunRecord) → row k db ≡ some r → p r ≡ true → IsTame db.runs r (f r))
      → ((r : RunRecord)
          → row k db ≡ some r
          → p r ≡ true
          → IsLeased (at_least 2 db.version) r
          → IsLeased (at_least 2 db.version) (f r))
      → IsSound (update_run k p f db).1
  unfolding row update_run after
  update_run-IsSound h tame leased = record {
    distinct = Distinct-update_key k p f db.runs h.distinct tame;
    leases =
        All-update_key k p f (IsLeased (at_least 2 db.version)) db.runs h.distinct leased h.leases;
    parents =
        All-update_key k p f (HasParent after) db.runs h.distinct
          (λ r found t q. rw (tame r found t).same_parent q) (parents-after db.runs h.parents);
    events = events-after db.events h.events;
  }

-- What an UPDATE leaves alone that touches neither a key, nor the status, nor the lease.
pub record SameCore (r r' : RunRecord) : Type 0 where
  pub id : r'.run_id ≡ r.run_id
  pub key : r'.idempotency_key ≡ r.idempotency_key
  pub workspace : r'.workspace_id ≡ r.workspace_id
  pub parent : r'.retry_of ≡ r.retry_of
  pub status : r'.status ≡ r.status
  pub owner : r'.lease_owner ≡ r.lease_owner
  pub expiry : r'.lease_expires_at ≡ r.lease_expires_at

pub detail-IsSound :
    (k : String) (f : RunRecord → RunRecord) (db : Db)
    → ((r : RunRecord) → SameCore r (f r))
    → IsSound db
    → (p : RunRecord → Bool) → IsSound (update_run k p f db).1
detail-IsSound k f db same h p =
    update_run-IsSound k p f db (λ r. (same r).id) h (λ r e t. ground (arith, same r))
      (λ r e t l. ground (arith, same r))

pub emit-IsSound :
    (conn : Conn) (k kind : String) (detail : Option Json) (db : Db)
    → IsSound db
    → IsSound (emit conn k kind detail db).1
unfolding emit
emit-IsSound conn k kind detail db h = elim (Bool-cases (is_some (row k db))) [
  | inl e ↦ rw e (record {
    distinct = h.distinct;
    leases = h.leases;
    parents = h.parents;
    events =
        All-append (HasRun db.runs) db.events (_ ∷ []) h.events
          (sym (is_some-find (has_id k) db.runs) ∙ e, tt);
  })
  | inr e ↦ rw e h
]

-- A row that none of the constraints refuses.
record IsFree (r : RunRecord) (runs : List RunRecord) : Type 0 where
  id : any (has_id r.run_id) runs ≡ false
  key : any (holds_key r.idempotency_key) runs ≡ false
  workspace : (not (is_terminal r.status) && any (holds_workspace r.workspace_id) runs) ≡ false

IsFree-tail : (r s : RunRecord) (runs : List RunRecord) → IsFree r (s ∷ runs) → IsFree r runs
IsFree-tail r s runs h = record {
  id = ground (arith, h.id);
  key = ground (arith, h.key);
  workspace = ground (arith, h.workspace);
}

Apart-free : (r s : RunRecord) (runs : List RunRecord) → IsFree r (s ∷ runs) → Apart s r
Apart-free r s runs h = record {
  ids = ground (arith, h.id);
  keys = shares_sym true true s.idempotency_key r.idempotency_key ∙ ground (arith, h.key);
  workspaces =
      shares_sym (not (is_terminal s.status)) (not (is_terminal r.status)) s.workspace_id
        r.workspace_id
      ∙ ground (arith, h.workspace);
}

Distinct-append :
    (r : RunRecord) (runs : List RunRecord)
    → IsFree r runs
    → Distinct runs
    → Distinct (runs ++ r ∷ [])
Distinct-append r [] h d = (tt, tt)
Distinct-append r (s ∷ runs) h d = (
  All-append (Apart s) runs (r ∷ []) d.0 (Apart-free r s runs h, tt),
  Distinct-append r runs (IsFree-tail r s runs h) d.1,
)

any-grows :
    (j : String) (r : RunRecord) (runs : List RunRecord)
    → any (has_id j) runs ≡ true
    → any (has_id j) (runs ++ r ∷ []) ≡ true
any-grows j r runs h = rw any-append (rw h)

inserted-IsSound :
    (r : RunRecord) (db : Db)
    → IsFree r db.runs
    → dangling r.retry_of db.runs ≡ false
    → IsLeased (at_least 2 db.version) r
    → IsSound db
    → IsSound (record db { runs = db.runs ++ r ∷ [] })
inserted-IsSound r db free parent leased h =
    let runs = db.runs ++ r ∷ [] in
    record {
      distinct = Distinct-append r db.runs free h.distinct;
      leases = All-append (IsLeased (at_least 2 db.version)) db.runs (r ∷ []) h.leases (leased, tt);
      parents =
          All-append (HasParent runs) db.runs (r ∷ [])
            (All-map (HasParent db.runs) (HasParent runs) db.runs
              (λ s. dangling-any s.retry_of db.runs runs (λ j. any-grows j r db.runs)) h.parents)
            (dangling-any r.retry_of db.runs runs (λ j. any-grows j r db.runs) parent, tt);
      events =
          All-map (HasRun db.runs) (HasRun runs) db.events
            (λ e present. any-grows e.run_id r db.runs present) h.events;
    }

pub insert_run-IsSound :
    (r : RunRecord) (db : Db)
    → IsLeased (at_least 2 db.version) r
    → IsSound db
    → IsSound (insert_run r db).1
unfolding insert_run
insert_run-IsSound r db leased h = elim (Bool-cases (any (has_id r.run_id) db.runs)) [
  | inl a ↦ rw a h
  | inr a ↦ rw a (elim (Bool-cases (any (holds_key r.idempotency_key) db.runs)) [
    | inl b ↦ rw b h
    | inr b ↦
        rw b
          (elim (Bool-cases
            (not (is_terminal r.status) && any (holds_workspace r.workspace_id) db.runs)) [
              | inl c ↦ rw c h
              | inr c ↦ rw c (elim (Bool-cases (dangling r.retry_of db.runs)) [
                | inl d ↦ rw d h
                | inr d ↦
                    rw d
                      (inserted-IsSound r db (record { id = a; key = b; workspace = c }) d leased h)
              ])
            ])
  ])
]
