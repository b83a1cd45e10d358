-- ===== src/Swu/Window.antt =====
-- pkg/swu/window.go: the task manager, which keeps a bounded number of requests in flight, queues the
-- others, and sends a request again until it is answered or out of retries.
-- An operation returns the new state and what it does to the outside, as events in order. The map of
-- pending requests is a list without a second entry for an ID, in the order in which a loop over the
-- map meets them. A time is a number of nanoseconds, and `backoff` is the product with
-- BackoffFactor, which Go computes in float64. The channel wakeupCh only makes the loop call
-- checkTimeouts earlier: here that call may come at any time.
pub mod Invariant
pub mod Accounting
mod Tests
use swu_go.Prelude.{
  ℕ, ◌+◌, ◌≡◌, Bool, true, false, ◌&&◌, not, Option, none, some, List, [], ◌∷◌, ◌++◌, ltb, leb,
  ◌==◌, if◌then◌else◌, length,
}
use swu_go.Prelude.Bytes.{Bytes}

pub record RetryConfig : Type 0 where
  pub max_retries : ℕ
  pub initial_timeout : ℕ
  pub max_timeout : ℕ
  pub backoff : ℕ → ℕ

-- CompletionCh is known by the ID; Payloads and Exchange are never read.
pub record OutgoingMessage : Type 0 where
  pub msg_id : ℕ
  pub packets : List Bytes
  pub retry_count : ℕ
  pub max_retries : ℕ
  pub next_timeout : ℕ
  pub deadline : ℕ

pub record TaskManager : Type 0 where
  pub config : RetryConfig
  pub window_size : ℕ
  pub pending : List OutgoingMessage
  pub queue : List OutgoingMessage
  pub has_send_func : Bool

-- `sent`: sendFunc is called with the packets. `delivered` and `closed`: the caller's channel gets the
-- response, or is closed.
pub data Event : Type 0 where
  sent : ℕ → List Bytes → Event
  delivered : ℕ → Bytes → Event
  closed : ℕ → Event

-- `make(map...)`, with `tm.pending[msg.MsgID] = msg`, `tm.pending[id]` and `delete(tm.pending, id)`.
pub put : OutgoingMessage → List OutgoingMessage → List OutgoingMessage
put m [] = m ∷ []
put m (p ∷ ps) = if p.msg_id == m.msg_id then m ∷ ps else p ∷ put m ps

pub get : ℕ → List OutgoingMessage → Option OutgoingMessage
get id [] = none
get id (p ∷ ps) = if p.msg_id == id then some p else get id ps

pub delete : ℕ → List OutgoingMessage → List OutgoingMessage
delete id [] = []
delete id (p ∷ ps) = if p.msg_id == id then ps else p ∷ delete id ps

pub new_task_manager : RetryConfig → ℕ → Bool → TaskManager
new_task_manager config win_size has_send_func = record {
  config = config;
  window_size = if ltb win_size 1 then 1 else win_size;
  pending = [];
  queue = [];
  has_send_func = has_send_func;
}

send : TaskManager → OutgoingMessage → List Event
send tm m = if tm.has_send_func then sent m.msg_id m.packets ∷ [] else []

pub activate_message : ℕ → OutgoingMessage → TaskManager → TaskManager × List Event
unfolding send
activate_message now m tm =
    let m' = record m { deadline = now + m.next_timeout } in
    (record tm { pending = put m' tm.pending }, send tm m')

pub enqueue_request : ℕ → ℕ → List Bytes → TaskManager → TaskManager × List Event
enqueue_request now id packets tm =
    let out_msg : OutgoingMessage = record {
      msg_id = id;
      packets = packets;
      retry_count = 0;
      max_retries = tm.config.max_retries;
      next_timeout = tm.config.initial_timeout;
      deadline = 0;
    } in
    if ltb (length tm.pending) tm.window_size
    then activate_message now out_msg tm
    else (record tm { queue = tm.queue ++ (out_msg ∷ []) }, [])

-- pumpQueue, by the queue.
pub pump : ℕ → TaskManager → List OutgoingMessage → TaskManager × List Event
pump now tm [] = (tm, [])
pump now tm (m ∷ rest) =
    if ltb (length tm.pending) tm.window_size
    then activate_message now m (record tm { queue = rest })
    else (tm, [])

abbrev pump_queue : ℕ → TaskManager → TaskManager × List Event
pump_queue now tm = pump now tm tm.queue

-- The state, whether the response was taken, and the events.
pub handle_response : ℕ → ℕ → Bytes → TaskManager → TaskManager × Bool × List Event
handle_response now id response tm = elim (get id tm.pending) [
  | none ↦ (tm, false, [])
  | some m ↦
      let (tm', events) = pump_queue now (record tm { pending = delete id tm.pending }) in
      (tm', true, delivered id response ∷ events)
]

-- The growth of the timeout, with its bound.
next_timeout : RetryConfig → ℕ → ℕ
next_timeout c t =
    let grown = c.backoff t in
    if ltb 0 c.max_timeout && ltb c.max_timeout grown then c.max_timeout else grown

retry : RetryConfig → ℕ → OutgoingMessage → OutgoingMessage
unfolding next_timeout
retry c now m =
    let t = next_timeout c m.next_timeout in
    record m { retry_count = m.retry_count + 1; next_timeout = t; deadline = now + t }

-- The loop of checkTimeouts over the pending requests: those that stay, the IDs to delete, and the
-- events.
pub sweep : TaskManager → ℕ → List OutgoingMessage → List OutgoingMessage × List ℕ × List Event
unfolding send retry
sweep tm now [] = ([], [], [])
sweep tm now (m ∷ ms) =
    let (rest, dead, events) = sweep tm now ms in
    if ltb now m.deadline
    then (m ∷ rest, dead, events)
    else if leb m.max_retries m.retry_count
    then (rest, m.msg_id ∷ dead, closed m.msg_id ∷ events)
    else (retry tm.config now m ∷ rest, dead, send tm m ++ events)

after_sweep :
    ℕ → TaskManager → List OutgoingMessage × List ℕ × List Event → TaskManager × List Event
after_sweep now tm (rest, [], events) = (record tm { pending = rest }, events)
after_sweep now tm (rest, d ∷ dead, events) =
    let (tm', more) = pump_queue now (record tm { pending = rest }) in (tm', events ++ more)

pub check_timeouts : ℕ → TaskManager → TaskManager × List Event
check_timeouts now tm = after_sweep now tm (sweep tm now tm.pending)

close_all : List OutgoingMessage → List Event
close_all [] = []
close_all (m ∷ ms) = closed m.msg_id ∷ close_all ms

-- The case `<-tm.ctx.Done()` of windowLoop.
pub shut_down : TaskManager → TaskManager × List Event
shut_down tm = (record tm { pending = []; queue = [] }, close_all tm.pending ++ close_all tm.queue)

-- The calls that reach the task manager, each with its time.
pub data Call : Type 0 where
  enqueues : ℕ → ℕ → List Bytes → Call
  responds : ℕ → ℕ → Bytes → Call
  ticks : ℕ → Call
  stops : Call

pub step : Call → TaskManager → TaskManager × List Event
step (enqueues now id packets) tm = enqueue_request now id packets tm
step (responds now id response) tm =
    let (tm', _, events) = handle_response now id response tm in (tm', events)
step (ticks now) tm = check_timeouts now tm
step stops tm = shut_down tm

-- The lock makes each call one step, so a history is a list of calls.
pub run : List Call → TaskManager → TaskManager × List Event
run [] tm = (tm, [])
run (c ∷ cs) tm =
    let (tm', events) = step c tm in let (tm'', more) = run cs tm' in (tm'', events ++ more)
