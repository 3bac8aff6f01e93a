-- ===== src/Messaging/Egress/Counts.antt =====
-- What `drain_once` counts.
use workflow_runtime_core.Base.{
  ℕ, ◌+◌, ◌≤◌, String, ◌≡◌, refl, ap, ◌∙◌, Bool, true, false, List, [], ◌∷◌, length, arith,
}
use mathlib.Core.Path.{subst}
use workflow_runtime_core.Exec.{ok, bind-ok, ok-injective}
use workflow_runtime_core.Db.{Db, Conn, OutboxRecord}
use workflow_runtime_core.Messaging.Egress.{
  Publication, confirmed, refused, broken, DrainResult, count_delivered, settle_message, settle_all,
  drain_once,
}

-- What one message adds to the counts.
abbrev Adds : DrainResult → DrainResult → ℕ → Type 0
Adds r r' n = (r'.claimed ≡ r.claimed) × (r'.delivered + r'.failed ≤ r.delivered + r.failed + n)

module _ (conn : Conn) (publish : OutboxRecord → Publication) (owner : String) where
  delivered-Adds : (held : Bool) (r : DrainResult) → Adds r (count_delivered held r) 1
  delivered-Adds true r = (refl, omega arith)
  delivered-Adds false r = (refl, omega arith)

  settle_message-Adds :
      (m : OutboxRecord) (p : Publication) (r r' : DrainResult) (db db' : Db)
      → settle_message conn publish owner m p r db ≡ (ok r', db')
      → Adds r r' 1
  unfolding settle_message
  settle_message-Adds m confirmed r r' db db' h =
      let (held, t, e) = bind-ok _ _ db db' r' h in
      subst (λ x. Adds r x 1) (ok-injective (ap (λ p. p.0) e)) (delivered-Adds held r)
  settle_message-Adds m (refused error) r r' db db' h =
      let (held, t, e) = bind-ok _ _ db db' r' h in
      subst (λ x. Adds r x 1) (ok-injective (ap (λ p. p.0) e)) (refl, omega arith)
  settle_message-Adds m broken r r' db db' h = cc h

  settle_all-Adds :
      (messages : List OutboxRecord) (r r' : DrainResult) (db db' : Db)
      → settle_all conn publish owner messages r db ≡ (ok r', db')
      → Adds r r' (length messages)
  unfolding settle_all
  settle_all-Adds [] r r' db db' h =
      subst (λ x. Adds r x 0) (ok-injective (ap (λ p. p.0) h)) (refl, omega arith)
  settle_all-Adds (m ∷ messages) r r' db db' h =
      let (r'', t, e) = bind-ok _ _ db db' r' h in
      let one = settle_message-Adds m (publish m) r r'' db _ (both t) in
      let rest = settle_all-Adds messages r'' r' _ db' e in
      (rest.0 ∙ one.0, omega (arith, one.1, rest.1))
    where
      both :
          {x : DrainResult}
          → (settle_message conn publish owner m (publish m) r db).0 ≡ ok x
          → settle_message conn publish owner m (publish m) r db
            ≡ (ok x, (settle_message conn publish owner m (publish m) r db).1)
      both t = ap (λ o. (o, (settle_message conn publish owner m (publish m) r db).1)) t

  -- A drain that returns has settled each claimed message at most once: its delivered and failed
  -- messages together are no more than the claimed ones, whatever `publish` did.
  drain_once-counted :
      (locked : OutboxRecord → Bool) (namespace : String) (seconds limit : ℕ) (db db' : Db)
      (r : DrainResult)
      → drain_once conn publish owner locked namespace seconds limit db ≡ (ok r, db')
      → r.delivered + r.failed ≤ r.claimed
  unfolding drain_once
  drain_once-counted locked namespace seconds limit db db' r h =
      let (messages, t, e) = bind-ok _ _ db db' r h in
      let sum = settle_all-Adds messages _ r _ db' e in omega (arith, sum.0, sum.1)
