-- ===== src/Transport.antt =====
-- transport/topology.py: the names of the broker's entities.
pub mod Names
use workflow_runtime_core.Base.{String, not, concat}
use workflow_runtime_core.Exec.{Exec, pure, raise_if, ◌>>=◌, ◌>>◌, envelope_error}
use workflow_runtime_core.Messaging.Envelope.{is_service_namespace}

-- Only `make_topology` makes one: `BrokerTopology` checks itself.
pub record BrokerTopology : Type 0 where
  pub service_namespace : String

unfoldable pub make_topology : {S : Type 0} → String → Exec S BrokerTopology
make_topology namespace = do
  raise_if (not (is_service_namespace namespace)) envelope_error
  pure (record { service_namespace = namespace })

-- The entities that a service owns: the properties of BrokerTopology, and the queues of its
-- destinations.
pub data Entity : Type 0 where
  inbound_exchange inbound_queue dead_letter_exchange dead_letter_queue error_queue
        outbound_exchange :
      Entity
  destination_queue : String → Entity

abbrev pub suffix : Entity → String
suffix inbound_exchange = ".inbound"
suffix inbound_queue = ".inbound.q"
suffix dead_letter_exchange = ".dlx"
suffix dead_letter_queue = ".dlq"
suffix error_queue = ".error.q"
suffix outbound_exchange = ".outbound"
suffix (destination_queue destination) = concat ".out." destination

unfoldable pub entity_name : BrokerTopology → Entity → String
entity_name t e = concat t.service_namespace (suffix e)
