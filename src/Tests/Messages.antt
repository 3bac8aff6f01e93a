-- ===== src/Tests/Messages.antt =====
-- Examples of the messaging and of the names at the broker.
use workflow_runtime_core.Base.{
  codes, ℕ, ◌≡◌, refl, false, none, some, [], ◌∷◌, All, sort_by, insert_by,
}
use workflow_runtime_core.Exec.{ok, ◌>>=◌}
use workflow_runtime_core.Db.{Db, OutboxRecord, OutboxStatus}
use workflow_runtime_core.Messaging.Outbox.{
  OutboxMessage, enqueue, insert_message, message, mark_delivered, mark_failed, is_among,
}
use workflow_runtime_core.Messaging.Outbox
use workflow_runtime_core.Messaging.Launches
use workflow_runtime_core.Messaging.Launches.{is_chosen}
use workflow_runtime_core.Messaging.Outbox.Enqueue.{enqueue_once}
use workflow_runtime_core.Messaging.Outbox.Claimed.{claims-disjoint}
use workflow_runtime_core.Messaging.Outbox.Fenced.{settle-lost}
use workflow_runtime_core.Messaging.Outbox.Owed.{
  owed-survives, Owed, take_steps, claim_step, fail_step, purge_step,
}
use workflow_runtime_core.Messaging.Launches.Claimed.{launches-disjoint}
use workflow_runtime_core.Messaging.Envelope.{is_service_namespace, matches_namespace, ends_alnum}
use workflow_runtime_core.Transport.{BrokerTopology, destination_queue, make_topology}
use workflow_runtime_core.Transport.Names.{entity_name-injective}
use workflow_runtime_core.Tests.Samples.{
  session, reply, outbox_row, db_sending, launch_of, db_launching,
}

enqueue_once_example :
    enqueue (session 20) reply (enqueue (session 10) reply (db_sending [])).1
    ≡ (ok "id-a", record (enqueue (session 10) reply (db_sending [])).1 { minted = 2 })
unfolding enqueue insert_message message ◌>>=◌
enqueue_once_example =
    enqueue_once (session 10) (session 20) reply reply (db_sending []) _ "id-a" refl refl refl refl

settle-lost_example :
    (mark_delivered
        (session 20)
        "a"
        "worker-1"
        (db_sending (outbox_row "a" OutboxStatus.publishing (some "worker-2") (some 90) ∷ []))
      ≡ (
        ok false,
        db_sending (outbox_row "a" OutboxStatus.publishing (some "worker-2") (some 90) ∷ []),
      ))
    × (mark_failed
          (session 20)
          "a"
          "worker-1"
          "refused"
          1
          (db_sending (outbox_row "a" OutboxStatus.publishing (some "worker-2") (some 90) ∷ []))
        ≡ (
          ok false,
          record (db_sending
              (outbox_row "a" OutboxStatus.publishing (some "worker-2") (some 90) ∷ [])) {
                drawn = 1;
              },
        ))
settle-lost_example =
    settle-lost (session 20) "a" "worker-1" "refused" 1
      (db_sending (outbox_row "a" OutboxStatus.publishing (some "worker-2") (some 90) ∷ [])) refl
      ((λ e. refl), tt)

abbrev two_waiting : Db
two_waiting = db_sending (
    outbox_row "a" OutboxStatus.pending none none
    ∷ outbox_row "b" OutboxStatus.failed none none
    ∷ [])

-- What a publisher gets that claims at most one of two messages, and what the next one gets.
abbrev sent : ℕ → OutboxRecord → OutboxRecord
sent time m = Outbox.publish_claimed (session time) "worker" 60 m

owed-survives_example : Owed "reports" "a" (outbox_row "a" OutboxStatus.pending none none) (
    take_steps
      ((session 10, claim_step (λ m. false) "reports" "worker" 60 5)
        ∷ (session 20, fail_step "a" "worker" "refused" 1)
        ∷ (session 30, purge_step "reports" 0 false)
        ∷ [])
      two_waiting)
owed-survives_example =
    owed-survives "reports" "a" (outbox_row "a" OutboxStatus.pending none none)
      ((session 10, claim_step (λ m. false) "reports" "worker" 60 5)
        ∷ (session 20, fail_step "a" "worker" "refused" 1)
        ∷ (session 30, purge_step "reports" 0 false)
        ∷ [])
      two_waiting (refl, refl, refl, refl)

claims-disjoint_example :
    All
      (λ n. is_among (sent 10 (outbox_row "a" OutboxStatus.pending none none) ∷ []) n ≡ false)
      (sent 20 (outbox_row "b" OutboxStatus.failed none none) ∷ [])
unfolding Outbox.claim_due Outbox.due sort_by insert_by ◌>>=◌
claims-disjoint_example =
    claims-disjoint (session 10) (session 20) (λ m. false) (λ m. false) "reports" "reports" "worker"
      "worker" 60 60 1 1 two_waiting _ _
      (sent 10 (outbox_row "a" OutboxStatus.pending none none) ∷ [])
      (sent 20 (outbox_row "b" OutboxStatus.failed none none) ∷ []) ((refl, tt), (tt, tt)) refl refl
      refl

launches-disjoint_example :
    All
      (λ n.
        is_chosen (Launches.launch_claimed (session 10) "one" 60 (launch_of "a") ∷ []) n ≡ false)
      (Launches.launch_claimed (session 20) "two" 60 (launch_of "b") ∷ [])
unfolding Launches.claim_due Launches.due_launches sort_by insert_by ◌>>=◌
launches-disjoint_example =
    launches-disjoint (session 10) (session 20) (λ l. false) (λ l. false) "one" "two" 60 60 1 5
      (db_launching (launch_of "a" ∷ launch_of "b" ∷ [])) _ _
      (Launches.launch_claimed (session 10) "one" 60 (launch_of "a") ∷ [])
      (Launches.launch_claimed (session 20) "two" 60 (launch_of "b") ∷ []) ((refl, tt), (tt, tt))
      refl refl refl

abbrev acme : BrokerTopology
acme = record { service_namespace = "acme" }

entity_name-injective_example :
    (acme.service_namespace ≡ acme.service_namespace)
    × (destination_queue "mail" ≡ destination_queue "mail")
unfolding make_topology is_service_namespace matches_namespace ends_alnum ◌>>=◌ codes
entity_name-injective_example =
    entity_name-injective "acme" "acme" acme acme (destination_queue "mail")
      (destination_queue "mail") refl refl refl
