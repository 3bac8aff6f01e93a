-- ===== src/Messaging/Outbox/Claimed.antt =====
-- `claim_due` of the outbox: what a claim returns, and two claims one after the other.
use workflow_runtime_core.Base.{
  ℕ, String, ◌≡◌, refl, sym, ap, ◌∙◌, Bool, true, false, not, ◌&&◌, List, map, arith, All, All-map,
  All-chosen, leb, DistinctKeys, claims-apart, select, update, In,
}
use mathlib.Core.Path.{subst}
use workflow_runtime_core.Exec.{ok, ◌>>=◌, ok-injective}
use workflow_runtime_core.Db.{Db, Conn, OutboxRecord, at_least}
use workflow_runtime_core.Messaging.Outbox.{
  claim_due, due, is_due, is_waiting, is_among, publish_claimed,
}

-- The rows that a claim hands out, and the table it leaves.
abbrev handed : Conn → String → ℕ → List OutboxRecord → List OutboxRecord → List OutboxRecord
handed conn owner seconds chosen rows =
    map (publish_claimed conn owner seconds) (select (is_among chosen) rows)

abbrev left : Conn → String → ℕ → List OutboxRecord → List OutboxRecord → List OutboxRecord
left conn owner seconds chosen rows =
    update (is_among chosen) (publish_claimed conn owner seconds) rows

pub claim_due_lem :
    (conn : Conn) (locked : OutboxRecord → Bool) (namespace owner : String) (seconds limit : ℕ)
    (db : Db)
    → at_least 3 db.version ≡ true
    → claim_due conn locked namespace owner seconds limit db ≡ (
      ok (handed conn owner seconds (due conn locked namespace limit db.outbox) db.outbox),
      record db {
        outbox = left conn owner seconds (due conn locked namespace limit db.outbox) db.outbox;
      },
    )
unfolding claim_due ◌>>=◌
claim_due_lem conn locked namespace owner seconds limit db live = rw live

due-In :
    (conn : Conn) (locked : OutboxRecord → Bool) (namespace : String) (limit : ℕ)
    (rows : List OutboxRecord)
    → All (λ m. (is_waiting m.status ≡ true) × In m rows) (due conn locked namespace limit rows)
unfolding due
due-In conn locked namespace limit rows =
    All-map _ _ _ (λ m h. let t = h.0 in (ground (arith, t), h.1))
      (All-chosen (λ m n. leb m.next_attempt_at n.next_attempt_at)
        (λ m. is_due conn namespace m && not (locked m)) limit rows)

handed-apart :
    (conn conn' : Conn) (locked locked' : OutboxRecord → Bool)
    (namespace namespace' owner owner' : String) (seconds seconds' limit limit' : ℕ)
    (rows : List OutboxRecord)
    → DistinctKeys (λ m. m.outbox_id) rows
    → All
        (λ n.
          is_among (handed conn owner seconds (due conn locked namespace limit rows) rows) n
          ≡ false)
        (handed conn' owner' seconds'
          (due conn' locked' namespace' limit'
            (left conn owner seconds (due conn locked namespace limit rows) rows))
          (left conn owner seconds (due conn locked namespace limit rows) rows))
handed-apart conn conn' locked locked' namespace namespace' owner owner' seconds seconds' limit
      limit' rows distinct =
    let chosen = due conn locked namespace limit rows in
    claims-apart (λ m. m.outbox_id) (publish_claimed conn owner seconds)
      (publish_claimed conn' owner' seconds') (λ m. refl) (λ m. refl) (λ m. is_waiting m.status)
      rows chosen _ distinct (λ m. refl)
      (due-In conn' locked' namespace' limit' (left conn owner seconds chosen rows))

-- Two claims of the outbox, the second in the database that the first leaves, by any
-- publishers, in any namespaces, under any limits and with any rows locked by others: where
-- the outbox ids are distinct and the messaging tables are there, no message is handed out by
-- both.
pub claims-disjoint :
    (conn conn' : Conn) (locked locked' : OutboxRecord → Bool)
    (namespace namespace' owner owner' : String) (seconds seconds' limit limit' : ℕ)
    (db db' db'' : Db) (first second : List OutboxRecord)
    → DistinctKeys (λ m. m.outbox_id) db.outbox
    → at_least 3 db.version ≡ true
    → claim_due conn locked namespace owner seconds limit db ≡ (ok first, db')
    → claim_due conn' locked' namespace' owner' seconds' limit' db' ≡ (ok second, db'')
    → All (λ n. is_among first n ≡ false) second
claims-disjoint conn conn' locked locked' namespace namespace' owner owner' seconds seconds' limit
      limit' db db' db'' first second distinct live h h' =
    let rows = left conn owner seconds (due conn locked namespace limit db.outbox) db.outbox in
    let one = sym (claim_due_lem conn locked namespace owner seconds limit db live) ∙ h in
    let moved : claim_due conn' locked' namespace' owner' seconds' limit'
          (record db { outbox = rows })
        ≡ (ok second, db'') =
      subst (λ d. claim_due conn' locked' namespace' owner' seconds' limit' d ≡ (ok second, db''))
        (sym (ap (λ p. p.1) one)) h' in
    let two =
      sym (
        claim_due_lem conn' locked' namespace' owner' seconds' limit' (record db { outbox = rows })
          live)
      ∙ moved in
    subst (λ f. All (λ n. is_among f n ≡ false) second) (ok-injective (ap (λ p. p.0) one))
      (subst
        (λ s.
          All
            (λ n.
              is_among
                (handed conn owner seconds (due conn locked namespace limit db.outbox) db.outbox) n
              ≡ false)
            s)
        (ok-injective (ap (λ p. p.0) two))
        (handed-apart conn conn' locked locked' namespace namespace' owner owner' seconds seconds'
          limit limit' db.outbox distinct))
