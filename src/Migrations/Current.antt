-- ===== src/Migrations/Current.antt =====
-- migrations.py: an application of the core chain that returned has brought it to its last version.
use workflow_runtime_core.Base.{
  ℕ, zero, suc, ◌≡◌, refl, sym, ap, ◌∙◌, inl, inr, true, false, Option, none, some, List, [], ◌∷◌,
  arith, Bool-cases, any, All, or_else,
}
use mathlib.Core.Path.{subst}
use workflow_runtime_core.Exec.{ok, bind-split, past_guard, ok-injective}
use workflow_runtime_core.Db.{Db, Conn, Migration, LedgerRow}
use workflow_runtime_core.Migrations.Ledger.{
  core_namespace, migrations, ledger_rows, is_foreign, verify_rows, is_verified, verify_ledger,
  pending, floor_of,
}
use workflow_runtime_core.Migrations.Apply.{
  Principal, create_ledger, todo_of, apply_todo, apply_from, last_version, is_newer,
  predates_ledger,
}
use workflow_runtime_core.Migrations.Recorded.{
  has_version, is_clean, IsOwn, IsOwn-chain, Extends, Extends-trans, backfill-Extends,
  run_chain-Extends,
}
use workflow_runtime_core.Migrations.Versions.{
  Versions, verified-Versions, Current, Versions-Extends,
}

-- What is there when the chain is to be run.
module _ (conn : Conn) (p : Principal) (s t db' : Db) (v : ℕ) where
  run_todo :
      (m : Migration) (todo : List Migration) (live : Option ℕ)
      → All (IsOwn conn) (m ∷ todo)
      → apply_todo conn p live (m ∷ todo) t ≡ (ok v, db')
      → (is_clean conn t.ledger ≡ true)
      → (is_clean conn db'.ledger ≡ true)
        × ((k : ℕ) → has_version k t.ledger ≡ true → has_version k db'.ledger ≡ true)
        × All (λ m. has_version m.version db'.ledger ≡ true) (m ∷ todo)
        × (v ≡ last_version m.version todo)
        × (db'.version ≡ some (last_version m.version todo))
  unfolding apply_todo
  run_todo m todo live own h clean =
      let (u, r, ran, rest) = bind-split _ _ t db' v h in
      let (more, rows) = run_chain-Extends conn p (m ∷ todo) t r own ran in
      let (w, r', set, last) = bind-split _ _ r db' v rest in
      let landed = sym (ap (λ q. q.1) last) ∙ sym (ap (λ q. q.1) set) in
      let ledger : db'.ledger ≡ r.ledger = ap (λ d. d.ledger) landed in
      (
        rw ledger (more.1 clean),
        λ k held. rw ledger (more.0 k held),
        subst (λ l. All (λ n. has_version n.version l ≡ true) (m ∷ todo)) (sym ledger) rows,
        sym (ok-injective (ap (λ q. q.0) last)),
        ap (λ d. d.version) landed,
      )

  -- What follows the verification of the history.
  caught_up :
      (live : Option ℕ)
      → t.version ≡ live
      → is_newer live ≡ false
      → is_clean conn t.ledger ≡ true
      → Versions (floor_of live) 1 t.ledger
      → apply_todo conn p live (todo_of conn live 5) t ≡ (ok v, db')
      → (v ≡ 5) × Current conn db'
  unfolding todo_of pending migrations Versions apply_todo
  caught_up none same old clean held h =
      let (tidy, kept, rows, given, at_five) = run_todo _ _ none (IsOwn-chain conn) h clean in
      (given, (at_five, tidy, rows))
  caught_up (some zero) same old clean held h =
      let (tidy, kept, rows, given, at_five) = run_todo _ _ (some 0) (IsOwn-chain conn) h clean in
      (given, (at_five, tidy, rows))
  caught_up (some (suc zero)) same old clean held h =
      let (tidy, kept, rows, given, at_five) = run_todo _ _ (some 1) (IsOwn-chain conn).1 h clean in
      (given, (at_five, tidy, (kept 1 held.0, rows)))
  caught_up (some (suc (suc zero))) same old clean held h =
      let (tidy, kept, rows, given, at_five) =
        run_todo _ _ (some 2) (IsOwn-chain conn).1.1 h clean in
      (given, (at_five, tidy, (kept 1 held.0, (kept 2 held.1.0, rows))))
  caught_up (some (suc (suc (suc zero)))) same old clean held h =
      let (tidy, kept, rows, given, at_five) =
        run_todo _ _ (some 3) (IsOwn-chain conn).1.1.1 h clean in
      (given, (at_five, tidy, (kept 1 held.0, (kept 2 held.1.0, (kept 3 held.1.1.0, rows)))))
  caught_up (some (suc (suc (suc (suc zero))))) same old clean held h =
      let (tidy, kept, rows, given, at_five) =
        run_todo _ _ (some 4) (IsOwn-chain conn).1.1.1.1 h clean in
      (
        given,
        (
          at_five,
          tidy,
          (kept 1 held.0, (kept 2 held.1.0, (kept 3 held.1.1.0, (kept 4 held.1.1.1.0, rows)))),
        ),
      )
  caught_up (some (suc (suc (suc (suc (suc zero)))))) same old clean held h =
      let landed = sym (ap (λ q. q.1) h) in
      let given = sym (ok-injective (ap (λ q. q.0) h)) in
      (given, subst (Current conn) (sym landed) (same, clean, held))
  caught_up (some (suc (suc (suc (suc (suc (suc n))))))) same old clean held h =
      let none_left : ⊥ = ground arith in absurd none_left

verified-clean :
    (conn : Conn) (through : Option ℕ) (ledger : Option (List LedgerRow))
    → is_verified conn core_namespace (migrations conn) through ledger ≡ true
    → is_clean conn ledger ≡ true
unfolding is_verified verify_rows
verified-clean conn through none h = refl
verified-clean conn through (some rows) h =
    elim (Bool-cases (any (is_foreign conn (migrations conn)) (ledger_rows core_namespace rows))) [
      | inl e ↦ cc (rw e at h)
      | inr e ↦ rw e refl
    ]

verify-ok :
    (conn : Conn) (through : Option ℕ) (db db' : Db)
    → verify_ledger conn core_namespace (migrations conn) through db ≡ (ok tt, db')
    → (is_verified conn core_namespace (migrations conn) through db.ledger ≡ true) × (db ≡ db')
unfolding verify_ledger
verify-ok conn through db db' h =
    elim (Bool-cases (is_verified conn core_namespace (migrations conn) through db.ledger)) [
      | inl e ↦ (e, ap (λ q. q.1) (rw e at h))
      | inr e ↦ cc (rw e at h)
    ]

created-has :
    (k : ℕ) (ledger : Option (List LedgerRow))
    → has_version k ledger ≡ true
    → has_version k (some (or_else ledger [])) ≡ true
created-has k none h = cc h
created-has k (some rows) h = h

created-clean :
    (conn : Conn) (ledger : Option (List LedgerRow))
    → is_clean conn ledger ≡ true
    → is_clean conn (some (or_else ledger [])) ≡ true
unfolding ledger_rows
created-clean conn none h = refl
created-clean conn (some rows) h = h

created-Extends : (conn : Conn) (db : Db) → Extends conn db (create_ledger db)
unfolding create_ledger
created-Extends conn db =
    (λ k h. created-has k db.ledger h, λ h. created-clean conn db.ledger h, refl)

reached :
    (conn : Conn) (live : Option ℕ) (s t : Db)
    → is_verified conn core_namespace (migrations conn) live s.ledger ≡ true
    → Extends conn s t
    → All
        (λ m. predates_ledger live m ≡ true → has_version m.version t.ledger ≡ true)
        (migrations conn)
    → Versions (floor_of live) 1 t.ledger
unfolding Versions migrations
reached conn none s t h more early = tt
reached conn (some zero) s t h more early = tt
reached conn (some (suc n)) s t h more early = (
  early.0 (ground arith),
  Versions-Extends conn s t n 2 more (
      subst (λ c. Versions c 2 s.ledger) (omega arith)
        (verified-Versions conn (suc n) s.ledger h).1),
)

pub applied-Current :
    (conn : Conn) (p : Principal) (live : Option ℕ) (s db' : Db) (v : ℕ)
    → s.version ≡ live
    → apply_from conn p 5 live s ≡ (ok v, db')
    → (v ≡ 5) × Current conn db'
unfolding apply_from
applied-Current conn p live s db' v here h =
    let (old, h1) = past_guard _ _ _ s db' v h in
    let (u, s1, verified, h2) = bind-split _ _ s db' v h1 in
    let (passed, same) = verify-ok conn live s s1 verified in
    let (w, s2, made, h3) = bind-split _ _ s1 db' v h2 in
    let (x, t, filled, h4) = bind-split _ _ s2 db' v h3 in
    let (more, early) =
      backfill-Extends conn live (migrations conn) s2 t (IsOwn-chain conn) filled in
    let grown : Extends conn s t =
      Extends-trans conn s s2 t
        (subst (Extends conn s) (ap create_ledger same ∙ ap (λ q. q.1) made)
          (created-Extends conn s))
        more in
    caught_up conn p s t db' v live (grown.2 ∙ here) old
      (grown.1 (verified-clean conn live s.ledger passed))
      (reached conn live s t passed grown early) h4
