-- ===== src/Executor/Stream.antt =====
-- executor/runner.py: the graph's stream under its deadline and its lease. Times are microseconds
-- since the stream started.
pub mod Renewal
use workflow_runtime_core.Base.{
  ℕ, zero, suc, ◌+◌, ◌*◌, String, Bool, true, false, Option, none, some, List, [], ◌∷◌, leb, ltb,
  or_else, map, select, ◌++◌, if◌then◌else◌,
}
use workflow_runtime_core.Json.{Json, bool, str, arr, Items, nil, cons, Fields}
use workflow_runtime_core.Models.{RunRecord, spend_ceiling_minutes}
use workflow_runtime_core.Db.{Db, Conn, microseconds}
use workflow_runtime_core.Executor.Failure.{Raised}

-- One emitted interrupt: its `value`, if it has one, and the item itself.
pub record Item : Type 0 where
  pub value : Option Json
  pub itself : Json

-- What a chunk holds under `__interrupt__`: nothing (or an empty value), a list or tuple, or one
-- object.
pub data Emitted : Type 0 where
  nothing : Emitted
  items : List Item → Emitted
  lone : Item → Emitted

abbrev payload_of : Item → Json
payload_of item = or_else item.value item.itself

abbrev as_items : List Json → Items
as_items [] = nil
as_items (v ∷ vs) = cons v (as_items vs)

abbrev one_or_all : List Json → Option Json
one_or_all [] = none
one_or_all (v ∷ []) = some v
one_or_all (v ∷ w ∷ vs) = some (arr (as_items (v ∷ w ∷ vs)))

unfoldable pub extract_interrupt : Emitted → Option Json
extract_interrupt nothing = none
extract_interrupt (items xs) = one_or_all (map payload_of xs)
extract_interrupt (lone item) = one_or_all (payload_of item ∷ [])

-- A chunk of the stream, when it comes, with the session and the clocks of its progress write.
pub record Chunk : Type 0 where
  pub offset : ℕ
  pub keys : List String
  pub interrupts : Emitted
  pub conn : Conn
  pub now : ℕ
  pub clock : ℕ

pub data Ending : Type 0 where
  finished : Ending
  broke : Raised → Ending
  lease_lost : Ending

-- How a cancelled task goes on until it is over: for how long, the chunks that still come, and the
-- exception that it raises in place of CancelledError, if it does. One that returns normally has
-- none either: its value is dropped.
pub record Stop : Type 0 where
  pub lasts : ℕ
  pub late : List Chunk
  pub raised : Option Raised

-- What the graph does: its chunks in their order, each before the end, and how and when it ends
-- if it is left alone; and how it goes on when it is cancelled at a time, and when it is cancelled
-- again while it stops.
pub record Stream : Type 0 where
  pub chunks : List Chunk
  pub ends_at : ℕ
  pub ending : Ending
  pub on_cancel : ℕ → Stop
  pub on_second_cancel : ℕ → ℕ → Stop

-- The exception class carries its stage, its type and its verdict.
abbrev pub deadline_exceeded : Raised
deadline_exceeded = record {
  type_name = "DeadlineExceeded";
  message = "exceeded its declared ceiling";
  stage = some (str "deadline");
  error_type = some (str "deadline_exceeded");
  retryable = some (bool false);
}

abbrev before : ℕ → List Chunk → List Chunk
before time chunks = select (λ c. ltb c.offset time) chunks

-- The stream that is cancelled at `time`, and over `lasts` later.
abbrev pub cancelled : ℕ → ℕ → Ending → Stop → Stream → Stream
cancelled time lasts ending stop s = record s {
  chunks = before time s.chunks ++ stop.late;
  ends_at = time + lasts;
  ending = ending;
}

abbrev unawaited : Stop → Stop
unawaited stop = record stop { lasts = 0; raised = none }

abbrev overdue : Stop → Stop
overdue stop = record stop { raised = some (or_else stop.raised deadline_exceeded) }

-- A cancellation of `_with_deadline` itself. While it waits, it cancels the graph and does not
-- await it. While it awaits the graph that the deadline has cancelled, the graph is cancelled
-- again, and the CancelledError is suppressed: what is raised is the deadline's exception.
abbrev pub passed_on : ℕ → Stream → ℕ → Stop
passed_on bound s time =
    if ltb time bound then unawaited (s.on_cancel time) else overdue (s.on_second_cancel bound time)

-- `_with_deadline`: on expiry the graph is cancelled and awaited; an exception of its own comes
-- before the deadline's.
unfoldable pub with_deadline : Option ℕ → Stream → Stream
with_deadline none s = s
with_deadline (some bound) s =
    let stop = s.on_cancel bound in
    if leb s.ends_at bound
    then record s { on_cancel = passed_on bound s }
    else record (cancelled bound stop.lasts (broke (or_else stop.raised deadline_exceeded)) stop
        s) { on_cancel = passed_on bound s }

abbrev from_minutes : Option ℕ → Option ℕ → Option ℕ
from_minutes none default = default
from_minutes (some minutes) default = some (minutes * (60 * microseconds))

abbrev positive : Option ℕ → Option ℕ
positive none = none
positive (some zero) = none
positive (some (suc n)) = some (suc n)

-- `_deadline_seconds`, in microseconds: the explicit bound, the run's own ceiling, or the
-- binding's default where it is positive.
unfoldable pub deadline : RunRecord → Option ℕ → Option ℕ → Option ℕ
deadline run default (some explicit) = some explicit
deadline run default none = from_minutes (spend_ceiling_minutes run) (positive default)

-- What a renewal answers.
pub data Answer : Type 0 where
  held dropped : Answer
  failing : Raised → Answer

-- `LeaseRenewer`: the interval, and of the n-th renewal (from 0) how long it takes and its answer.
pub record Lease : Type 0 where
  pub interval : ℕ
  pub takes : ℕ → ℕ
  pub answer : ℕ → Answer

abbrev stopped_with : Option Raised → Ending
stopped_with none = lease_lost
stopped_with (some e) = broke e

abbrev outlived : Ending → Ending
outlived finished = lease_lost
outlived (broke e) = broke e
outlived lease_lost = lease_lost

-- The lease is lost: the graph is cancelled and awaited, with CancelledError suppressed and no
-- other exception. Of a graph that ended while the lease was asked for, the exception is raised.
unfoldable pub stopped : ℕ → Stream → Stream
stopped time s =
    let stop = s.on_cancel time in
    if leb s.ends_at time
    then record s { ending = outlived s.ending }
    else cancelled time stop.lasts (stopped_with stop.raised) stop s

-- The renewal raised: the graph is cancelled and not awaited.
unfoldable pub abandoned : ℕ → Raised → Stream → Stream
abandoned time e s =
    if leb s.ends_at time
    then record s { ending = broke e }
    else cancelled time 0 (broke e) (s.on_cancel time) s

-- What follows the n-th renewal, whose answer is there at `time`.
abbrev answered : Answer → ℕ → Stream → Option Stream → Option Stream
answered held time s rest = rest
answered dropped time s rest = some (stopped time s)
answered (failing e) time s rest = some (abandoned time e s)

-- The loop of `_with_lease_renewal` from `time` on, at its n-th renewal, on fuel.
unfoldable pub renewal_loop : ℕ → ℕ → ℕ → Lease → Stream → Option Stream
renewal_loop zero time n lease s = none
renewal_loop (suc fuel) time n lease s =
    let asked = time + lease.interval in
    let rest = renewal_loop fuel (asked + lease.takes n) (suc n) lease s in
    if leb s.ends_at asked then some s else answered (lease.answer n) (asked + lease.takes n) s rest

-- `_with_lease_renewal`, with as many rounds as the stream has microseconds, and one.
unfoldable pub with_lease_renewal : Option Lease → Stream → Option Stream
with_lease_renewal none s = some s
with_lease_renewal (some lease) s = renewal_loop (suc s.ends_at) 0 0 lease s
