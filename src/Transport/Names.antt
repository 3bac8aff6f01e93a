-- ===== src/Transport/Names.antt =====
-- transport/topology.py: the names of two entities.
use workflow_runtime_core.Base.{
  String, ◌≡◌, refl, sym, ap, ◌∙◌, Bool, true, not, ◌&&◌, ◌==◌, ℕ, zero, suc, codes, concat,
  if◌then◌else◌, arith,
}
use mathlib.Core.Path.{subst}
use Prim.Native.Char.{code}
use workflow_runtime_core.Exec.{ok, past_guard, ok-injective}
use workflow_runtime_core.Messaging.Envelope.{
  is_service_namespace, ends_alnum, is_alnum, matches_namespace,
}
use workflow_runtime_core.Transport.{
  BrokerTopology, make_topology, Entity, inbound_exchange, inbound_queue, dead_letter_exchange,
  dead_letter_queue, error_queue, outbound_exchange, destination_queue, suffix, entity_name,
}

undotted : String → Bool
undotted String.[] = true
undotted (String.◌∷◌ c s) = not (code c == b'.') && undotted s

ends_undotted :
    (n : ℕ) (last : Bool) (s : String) → ends_alnum n last (codes s) ≡ true → undotted s ≡ true
unfolding ends_alnum codes undotted
ends_undotted n last String.[] h = refl
ends_undotted n last (String.◌∷◌ c String.[]) h = ground arith
ends_undotted zero last (String.◌∷◌ c (String.◌∷◌ d s)) h = cc h
ends_undotted (suc n) last (String.◌∷◌ c (String.◌∷◌ d s)) h =
    let later = ends_undotted n (is_alnum (code c)) (String.◌∷◌ d s) in ground arith

namespace_undotted : (s : String) → is_service_namespace s ≡ true → undotted s ≡ true
unfolding is_service_namespace matches_namespace codes undotted
namespace_undotted String.[] h = refl
namespace_undotted (String.◌∷◌ c s) h = let later = ends_undotted 62 true s in ground arith

-- The text before the first full stop.
prefix_unique :
    (a b s t : String)
    → undotted a ≡ true
    → undotted b ≡ true
    → concat a (String.◌∷◌ "." s) ≡ concat b (String.◌∷◌ "." t)
    → (a ≡ b) × (s ≡ t)
unfolding undotted concat
prefix_unique String.[] String.[] s t ha hb h = (refl, cc h)
prefix_unique String.[] (String.◌∷◌ d b) s t ha hb h =
    let same : "." ≡ d = cc h in cc (rw (sym same) at hb)
prefix_unique (String.◌∷◌ c a) String.[] s t ha hb h =
    let same : c ≡ "." = cc h in cc (rw same at ha)
prefix_unique (String.◌∷◌ c a) (String.◌∷◌ d b) s t ha hb h =
    let head : c ≡ d = cc h in
    let rest : concat a (String.◌∷◌ "." s) ≡ concat b (String.◌∷◌ "." t) = cc h in
    let (same, last) = prefix_unique a b s t (ground arith) (ground arith) rest in
    (cc (head, same), last)

-- The suffix after its full stop.
abbrev tail_of : Entity → String
tail_of inbound_exchange = "inbound"
tail_of inbound_queue = "inbound.q"
tail_of dead_letter_exchange = "dlx"
tail_of dead_letter_queue = "dlq"
tail_of error_queue = "error.q"
tail_of outbound_exchange = "outbound"
tail_of (destination_queue destination) = concat "out." destination

suffix-tail : (e : Entity) → suffix e ≡ String.◌∷◌ "." (tail_of e)
unfolding concat
suffix-tail inbound_exchange = refl
suffix-tail inbound_queue = refl
suffix-tail dead_letter_exchange = refl
suffix-tail dead_letter_queue = refl
suffix-tail error_queue = refl
suffix-tail outbound_exchange = refl
suffix-tail (destination_queue destination) = refl

first : String → ℕ
first String.[] = 0
first (String.◌∷◌ c s) = code c

drop_text : ℕ → String → String
drop_text zero s = s
drop_text (suc n) String.[] = String.[]
drop_text (suc n) (String.◌∷◌ c s) = drop_text n s

-- The entity, read off its name.
entity_at : String → Entity
unfolding first drop_text
entity_at s =
    if first s == b'i'
    then if first (drop_text 7 s) == 0 then inbound_exchange else inbound_queue
    else if first s == b'e'
    then error_queue
    else if first s == b'd'
    then if first (drop_text 2 s) == b'x' then dead_letter_exchange else dead_letter_queue
    else if first (drop_text 3 s) == b'b'
    then outbound_exchange
    else destination_queue (drop_text 4 s)

entity_at-tail_of : (e : Entity) → entity_at (tail_of e) ≡ e
unfolding entity_at concat
entity_at-tail_of inbound_exchange = refl
entity_at-tail_of inbound_queue = refl
entity_at-tail_of dead_letter_exchange = refl
entity_at-tail_of dead_letter_queue = refl
entity_at-tail_of error_queue = refl
entity_at-tail_of outbound_exchange = refl
entity_at-tail_of (destination_queue destination) = refl

-- A topology that was made has a namespace without a full stop.
made_undotted :
    (namespace : String) (t : BrokerTopology)
    → make_topology namespace tt ≡ (ok t, tt)
    → undotted t.service_namespace ≡ true
unfolding make_topology
made_undotted namespace t h =
    let (named, rest) = past_guard _ _ _ tt tt t h in
    let valid = namespace_undotted namespace (ground (arith, named)) in
    let same = ok-injective (ap (λ q. q.0) rest) in
    subst (λ u. undotted u.service_namespace ≡ true) same valid

-- Two services never share a name at the broker: if an entity of one topology and an entity of
-- another have the same name, the two topologies have the same namespace, and the entities are the
-- same, their destination included.
pub entity_name-injective :
    (namespace namespace' : String) (t u : BrokerTopology) (e f : Entity)
    → make_topology namespace tt ≡ (ok t, tt)
    → make_topology namespace' tt ≡ (ok u, tt)
    → entity_name t e ≡ entity_name u f
    → (t.service_namespace ≡ u.service_namespace) × (e ≡ f)
unfolding entity_name
entity_name-injective namespace namespace' t u e f made made' h =
    let (spaces, tails) =
      prefix_unique t.service_namespace u.service_namespace (tail_of e) (tail_of f)
        (made_undotted namespace t made) (made_undotted namespace' u made')
        (ap (concat t.service_namespace) (sym (suffix-tail e))
          ∙ h
          ∙ ap (concat u.service_namespace) (suffix-tail f)) in
    (spaces, sym (entity_at-tail_of e) ∙ ap entity_at tails ∙ entity_at-tail_of f)
