-- ===== src/Messaging/Launches/Claimed.antt =====
-- `claim_due` of the launches: two dispatchers, one after the other.
use workflow_runtime_core.Base.{
  ℕ, String, ◌≡◌, refl, sym, ap, ◌∙◌, Bool, true, false, not, ◌&&◌, List, map, arith, All, All-map,
  All-chosen, leb, DistinctKeys, claims-apart, select, update, In,
}
use mathlib.Core.Path.{subst}
use workflow_runtime_core.Exec.{ok, ◌>>=◌, ok-injective}
use workflow_runtime_core.Db.{Db, Conn, LaunchRecord, at_least}
use workflow_runtime_core.Messaging.Launches.{
  claim_due, due_launches, is_due_launch, is_open, is_chosen, launch_claimed,
}

abbrev handed : Conn → String → ℕ → List LaunchRecord → List LaunchRecord → List LaunchRecord
handed conn owner seconds chosen rows =
    map (launch_claimed conn owner seconds) (select (is_chosen chosen) rows)

abbrev left : Conn → String → ℕ → List LaunchRecord → List LaunchRecord → List LaunchRecord
left conn owner seconds chosen rows =
    update (is_chosen chosen) (launch_claimed conn owner seconds) rows

claim_due_lem :
    (conn : Conn) (locked : LaunchRecord → Bool) (owner : String) (seconds limit : ℕ) (db : Db)
    → at_least 3 db.version ≡ true
    → claim_due conn locked owner seconds limit db ≡ (
      ok (handed conn owner seconds (due_launches conn locked limit db.launches) db.launches),
      record db {
        launches = left conn owner seconds (due_launches conn locked limit db.launches) db.launches;
      },
    )
unfolding claim_due ◌>>=◌
claim_due_lem conn locked owner seconds limit db live = rw live

due-In :
    (conn : Conn) (locked : LaunchRecord → Bool) (limit : ℕ) (rows : List LaunchRecord)
    → All (λ l. (is_open l.state ≡ true) × In l rows) (due_launches conn locked limit rows)
unfolding due_launches
due-In conn locked limit rows =
    All-map _ _ _ (λ l h. let t = h.0 in (ground (arith, t), h.1))
      (All-chosen (λ l m. leb l.next_attempt_at m.next_attempt_at)
        (λ l. is_due_launch conn l && not (locked l)) limit rows)

handed-apart :
    (conn conn' : Conn) (locked locked' : LaunchRecord → Bool) (owner owner' : String)
    (seconds seconds' limit limit' : ℕ) (rows : List LaunchRecord)
    → DistinctKeys (λ l. l.run_id) rows
    → All
        (λ n.
          is_chosen (handed conn owner seconds (due_launches conn locked limit rows) rows) n
          ≡ false)
        (handed conn' owner' seconds'
          (due_launches conn' locked' limit'
            (left conn owner seconds (due_launches conn locked limit rows) rows))
          (left conn owner seconds (due_launches conn locked limit rows) rows))
handed-apart conn conn' locked locked' owner owner' seconds seconds' limit limit' rows distinct =
    let chosen = due_launches conn locked limit rows in
    claims-apart (λ l. l.run_id) (launch_claimed conn owner seconds)
      (launch_claimed conn' owner' seconds') (λ l. refl) (λ l. refl) (λ l. is_open l.state) rows
      chosen _ distinct (λ l. refl)
      (due-In conn' locked' limit' (left conn owner seconds chosen rows))

-- Two claims of launches, the second in the database that the first leaves, under any limits
-- and with any rows locked by others: where the table has one launch per run and the messaging
-- tables are there, no run is handed to both for launching.
pub launches-disjoint :
    (conn conn' : Conn) (locked locked' : LaunchRecord → Bool) (owner owner' : String)
    (seconds seconds' limit limit' : ℕ) (db db' db'' : Db) (first second : List LaunchRecord)
    → DistinctKeys (λ l. l.run_id) db.launches
    → at_least 3 db.version ≡ true
    → claim_due conn locked owner seconds limit db ≡ (ok first, db')
    → claim_due conn' locked' owner' seconds' limit' db' ≡ (ok second, db'')
    → All (λ n. is_chosen first n ≡ false) second
launches-disjoint conn conn' locked locked' owner owner' seconds seconds' limit limit' db db' db''
      first second distinct live h h' =
    let rows = left conn owner seconds (due_launches conn locked limit db.launches) db.launches in
    let one = sym (claim_due_lem conn locked owner seconds limit db live) ∙ h in
    let moved : claim_due conn' locked' owner' seconds' limit' (record db { launches = rows })
        ≡ (ok second, db'') =
      subst (λ d. claim_due conn' locked' owner' seconds' limit' d ≡ (ok second, db''))
        (sym (ap (λ p. p.1) one)) h' in
    let two =
      sym (claim_due_lem conn' locked' owner' seconds' limit' (record db { launches = rows }) live)
      ∙ moved in
    subst (λ f. All (λ n. is_chosen f n ≡ false) second) (ok-injective (ap (λ p. p.0) one))
      (subst
        (λ s.
          All
            (λ n.
              is_chosen
                (handed conn owner seconds (due_launches conn locked limit db.launches) db.launches)
                n
              ≡ false)
            s)
        (ok-injective (ap (λ p. p.0) two))
        (handed-apart conn conn' locked locked' owner owner' seconds seconds' limit limit'
          db.launches distinct))
