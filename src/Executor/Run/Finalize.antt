-- ===== src/Executor/Run/Finalize.antt =====
-- The terminal status and the outbox rows of a run land together.
use workflow_runtime_core.Base.{
  ℕ, String, ◌≡◌, refl, sym, ap, ◌∙◌, inl, inr, Bool, true, false, not, ◌&&◌, Option, none, some,
  List, [], ◌∷◌, Bool-cases, str_eq_refl, is_some, any, All, All-map, find?, if◌then◌else◌,
}
use workflow_runtime_core.Exec.{
  past_guard, Result, ok, err, pure, settle, ◌>>=◌, bind-ok, ok-injective,
}
use workflow_runtime_core.Json.{Json}
use workflow_runtime_core.Models.{RunRecord, RunStatus}
use workflow_runtime_core.Db.{
  Db, Conn, row, has_id, rewritten, always, at_least, update_run, emit, row-update_run,
}
use workflow_runtime_core.Registry.Outcome.{mark_completed, mark_failed, settled}
use workflow_runtime_core.Registry.Lifecycle.{status_of}
use workflow_runtime_core.Messaging.Outbox.{OutboxMessage, has_key, enqueue_all}
use workflow_runtime_core.Executor.Failure.{exit_ok, exit_failed}
use workflow_runtime_core.Executor.Drive.{TerminalProjection}
use workflow_runtime_core.Executor.Run.{
  is_failure, queue_outbox, mark_projection, finalize, require_messaging_schema,
}
use workflow_runtime_core.Executor.Run.Queued.{IsQueued, enqueue_all-All}

-- An event that was recorded.
emitted :
    (conn : Conn) (k kind : String) (detail : Option Json) (s s' : Db)
    → emit conn k kind detail s ≡ (ok tt, s')
    → (is_some (row k s) ≡ true) × (row k s' ≡ row k s) × (s'.outbox ≡ s.outbox)
unfolding emit row
emitted conn k kind detail s s' h = elim (Bool-cases (is_some (row k s))) [
  | inl e ↦
      let same = ap (λ p. p.1) (rw e at h) in
      (e, ap (λ t. find? (has_id k) t.runs) (sym same), ap (λ t. t.outbox) (sym same))
  | inr e ↦ cc (rw e at h)
]

-- An UPDATE of the run to a status, and the event about it.
module _ (conn : Conn) (k kind : String) (f : RunRecord → RunRecord) (detail : Option Json)
    (status : RunStatus) (db db' : Db) (same : (r : RunRecord) → (f r).run_id ≡ r.run_id)
    (sets : (r : RunRecord) → (f r).status ≡ status) where
  abbrev Marked : Type 0
  Marked = (status_of (row k db') ≡ some status) × (db'.outbox ≡ db.outbox)

  marked : (update_run k always f >>= λ o. emit conn k kind detail) db ≡ (ok tt, db') → Marked
  unfolding update_run
  marked h =
      let (o, first, rest) = bind-ok _ _ _ _ _ h in
      let (there, kept, queued) =
        emitted conn k kind detail (update_run k always f db).1 db' rest in
      go (row k db) refl there kept queued
    where
      after : row k (update_run k always f db).1 ≡ rewritten always f (row k db)
      after = row-update_run k k always f db same ∙ (rw (str_eq_refl k))

      go :
          (o : Option RunRecord)
          → row k db ≡ o
          → is_some (row k (update_run k always f db).1) ≡ true
          → row k db' ≡ row k (update_run k always f db).1
          → db'.outbox ≡ db.outbox
          → Marked
      go none missing there kept queued =
          let gone : row k (update_run k always f db).1 ≡ none =
            after ∙ ap (rewritten always f) missing in
          cc (rw gone at there)
      go (some r) found there kept queued =
          let now : row k db' ≡ some (f r) = kept ∙ after ∙ ap (rewritten always f) found in
          (ap status_of now ∙ ap some (sets r), queued)

settle-ok :
    {A : Type 0} (before : Db) (r : Result A) (s s' : Db) (a : A)
    → settle before r s ≡ (ok a, s')
    → (r ≡ ok a) × (s ≡ s')
settle-ok before (ok b) s s' a h = (ap (λ p. p.0) h, ap (λ p. p.1) h)
settle-ok before (err e) s s' a h = cc h

-- A guard that let the block through.
settled-run_id : (b : Bool) (r : RunRecord) → (settled b r).run_id ≡ r.run_id
settled-run_id true r = refl
settled-run_id false r = refl

settled-status : (b : Bool) (r : RunRecord) → (settled b r).status ≡ r.status
settled-status true r = refl
settled-status false r = refl

module _ (conn : Conn) (run : RunRecord) (p : TerminalProjection) (s s' : Db) where
  -- The status, the exit code and the outbox after the terminal transition.
  abbrev Settled : Bool → ℕ → Type 0
  Settled failure code =
      (status_of (row run.run_id s')
        ≡ some (if failure then RunStatus.failed else RunStatus.completed))
      × (code ≡ (if failure then exit_failed else exit_ok))
      × (s'.outbox ≡ s.outbox)

  projection-Settled :
      (failure : Bool) (code : ℕ)
      → mark_projection conn run p failure s ≡ (ok code, s')
      → Settled failure code
  unfolding mark_projection mark_failed mark_completed
  projection-Settled true code h =
      let (u, first, rest) = bind-ok _ _ _ _ _ h in
      let (status, queued) =
        marked conn run.run_id "failed" _ _ RunStatus.failed s s'
          (λ r. settled-run_id (at_least 2 s.version) _)
          (λ r. settled-status (at_least 2 s.version) _) (λ i. (first i, ap (λ q. q.1) rest i)) in
      (status, sym (ok-injective (ap (λ q. q.0) rest)), queued)
  projection-Settled false code h =
      let (u, first, rest) = bind-ok _ _ _ _ _ h in
      let wrote =
        (past_guard (p.artifacts_published && not (at_least 2 s.version)) _ _ s s' tt
          (λ i. (first i, ap (λ q. q.1) rest i))).1 in
      let (status, queued) =
        marked conn run.run_id "completed" _ none RunStatus.completed s s'
          (λ r. settled-run_id (at_least 2 s.version) _)
          (λ r. settled-status (at_least 2 s.version) _) wrote in
      (status, sym (ok-injective (ap (λ q. q.0) rest)), queued)

IsQueued-All :
    (conn : Conn) (messages : List OutboxMessage) (db s : Db)
    → queue_outbox conn messages db ≡ (ok tt, s)
    → All (λ m. IsQueued m s) messages
unfolding queue_outbox require_messaging_schema ◌>>=◌
IsQueued-All conn [] db s h = tt
IsQueued-All conn (m ∷ messages) db s h = elim (Bool-cases (at_least 3 db.version)) [
  | inl e ↦
      let (ids, first, rest) =
        bind-ok (enqueue_all conn (m ∷ messages)) (λ ids. pure tt) db s tt (rw e at h) in
      enqueue_all-All conn (m ∷ messages) db s ids (λ i. (first i, ap (λ q. q.1) rest i))
  | inr e ↦ cc (rw e at h)
]

same_outbox :
    (messages : List OutboxMessage) (s s' : Db)
    → s'.outbox ≡ s.outbox
    → All (λ m. IsQueued m s) messages
    → All (λ m. IsQueued m s') messages
same_outbox messages s s' e h =
    All-map (λ m. IsQueued m s) (λ m. IsQueued m s') messages
      (λ m q. ap (any (has_key m.service_namespace m.message_id)) e ∙ q) h

-- A finished run owes no message that nobody recorded: when `_finalize` returns, the run has the
-- terminal status of its projection, the exit code is that of the status, and every outbox message
-- of the projection has its row in the outbox.
pub finalize-IsQueued :
    (conn : Conn) (run : RunRecord) (p : TerminalProjection) (db db' : Db) (code : ℕ)
    → finalize conn run p db ≡ (ok code, db')
    → (status_of (row run.run_id db')
        ≡ some (if is_failure p.status then RunStatus.failed else RunStatus.completed))
      × (code ≡ (if is_failure p.status then exit_failed else exit_ok))
      × All (λ m. IsQueued m db') p.outbox
unfolding finalize
finalize-IsQueued conn run p db db' code h =
    let (result, state) = settle-ok db _ _ db' code h in
    let (u, first, rest) = bind-ok _ _ _ _ _ (λ i. (result i, state i)) in
    let (status, exit, kept) =
      projection-Settled conn run p (queue_outbox conn p.outbox db).1 db' (is_failure p.status) code
        rest in
    let queued =
      IsQueued-All conn p.outbox db (queue_outbox conn p.outbox db).1
        (λ i. (first i, (queue_outbox conn p.outbox db).1)) in
    (status, exit, same_outbox p.outbox (queue_outbox conn p.outbox db).1 db' kept queued)
