-- ===== src/Swu/Window/Accounting/Sends.antt =====
-- window.go: no request is sent more often than its retries allow.
use swu_go.Prelude.{
  ℕ, ◌+◌, ◌-◌, ◌*◌, ◌≤◌, ◌≡◌, refl, ap, Bool, List, [], ◌∷◌, ◌++◌, ◌==◌, if◌then◌else◌, arith,
}
use swu_go.Prelude.Bytes.{Bytes}
use swu_go.Swu.Window.{
  RetryConfig, OutgoingMessage, TaskManager, Event, sent, delivered, closed, Call, enqueues,
  responds, ticks, stops, put, delete, new_task_manager, activate_message, enqueue_request, pump,
  handle_response, sweep, retry, after_sweep, check_timeouts, shut_down, close_all, step, run,
}
use swu_go.Swu.Window.Accounting.{one, enqueued_by, enqueued, sends}

-- The sends that a request may still cost: in flight, and waiting.
abbrev left : ℕ → OutgoingMessage → ℕ
left id m = if m.msg_id == id then m.max_retries - m.retry_count else 0

abbrev flying : ℕ → List OutgoingMessage → ℕ
flying id [] = 0
flying id (m ∷ ms) = left id m + flying id ms

abbrev waiting : ℕ → List OutgoingMessage → ℕ
waiting id [] = 0
waiting id (m ∷ ms) = one id m.msg_id + left id m + waiting id ms

abbrev budget : ℕ → TaskManager → ℕ
budget id tm = flying id tm.pending + waiting id tm.queue

flying-put :
    (id : ℕ) (m : OutgoingMessage) (ps : List OutgoingMessage)
    → flying id (put m ps) ≤ left id m + flying id ps
unfolding put
flying-put id m [] = omega arith
flying-put id m (p ∷ ps) = ground (arith, flying-put id m ps)

flying-delete : (id j : ℕ) (ps : List OutgoingMessage) → flying id (delete j ps) ≤ flying id ps
unfolding delete
flying-delete id j [] = omega arith
flying-delete id j (p ∷ ps) = ground (arith, flying-delete id j ps)

waiting-append :
    (id : ℕ) (xs : List OutgoingMessage) (m : OutgoingMessage)
    → waiting id (xs ++ (m ∷ [])) ≡ waiting id xs + one id m.msg_id + left id m
waiting-append id [] m = omega arith
waiting-append id (x ∷ xs) m = omega (arith, waiting-append id xs m)

sends-append : (id : ℕ) (xs ys : List Event) → sends id (xs ++ ys) ≡ sends id xs + sends id ys
sends-append id [] ys = omega arith
sends-append id (sent j packets ∷ xs) ys = omega (arith, sends-append id xs ys)
sends-append id (delivered j response ∷ xs) ys = sends-append id xs ys
sends-append id (closed j ∷ xs) ys = sends-append id xs ys

-- The sends of a call are paid from the budget, to which it may add `extra`.
abbrev Pays : ℕ → ℕ → TaskManager → TaskManager × List Event → Type 0
Pays id extra tm r =
    (sends id r.1 + budget id r.0 ≤ budget id tm + extra) × (r.0.config ≡ tm.config)

activate_message-Pays :
    (id now : ℕ) (m : OutgoingMessage) (tm : TaskManager)
    → Pays id (one id m.msg_id + left id m) tm (activate_message now m tm)
unfolding activate_message
activate_message-Pays id now m tm =
    (ground (arith, flying-put id (record m { deadline = now + m.next_timeout }) tm.pending), refl)

enqueue_request-Pays :
    (id now j : ℕ) (packets : List Bytes) (tm : TaskManager)
    → Pays id (one id j * (1 + tm.config.max_retries)) tm (enqueue_request now j packets tm)
unfolding enqueue_request
enqueue_request-Pays id now j packets tm =
    let m : OutgoingMessage = record {
      msg_id = j;
      packets = packets;
      retry_count = 0;
      max_retries = tm.config.max_retries;
      next_timeout = tm.config.initial_timeout;
      deadline = 0;
    } in
    ground (arith, activate_message-Pays id now m tm, waiting-append id tm.queue m)

pump-Pays :
    (id now : ℕ) (tm : TaskManager) (q : List OutgoingMessage)
    → q ≡ tm.queue
    → Pays id 0 tm (pump now tm q)
unfolding pump
pump-Pays id now tm [] e = (omega arith, refl)
pump-Pays id now tm (m ∷ rest) e =
    ground (arith, activate_message-Pays id now m (record tm { queue = rest }), ap (waiting id) e)

handle_response-Pays :
    (id now j : ℕ) (response : Bytes) (tm : TaskManager)
    → let (tm', _, events) = handle_response now j response tm in Pays id 0 tm (tm', events)
unfolding handle_response
handle_response-Pays id now j response tm =
    let less = record tm { pending = delete j tm.pending } in
    ground (arith, flying-delete id j tm.pending, pump-Pays id now less tm.queue refl)

sweep-Pays :
    (id : ℕ) (tm : TaskManager) (now : ℕ) (ms : List OutgoingMessage)
    → let (rest, _, events) = sweep tm now ms in sends id events + flying id rest ≤ flying id ms
unfolding sweep retry
sweep-Pays id tm now [] = omega arith
sweep-Pays id tm now (m ∷ ms) = ground (arith, sweep-Pays id tm now ms)

after_sweep-Pays :
    (id now : ℕ) (tm : TaskManager) (rest : List OutgoingMessage) (dead : List ℕ)
    (events : List Event)
    → sends id events + flying id rest ≤ flying id tm.pending
    → Pays id 0 tm (after_sweep now tm (rest, dead, events))
unfolding after_sweep
after_sweep-Pays id now tm rest [] events h = (omega arith, refl)
after_sweep-Pays id now tm rest (d ∷ dead) events h =
    let swept = record tm { pending = rest } in
    let (pays, same) = pump-Pays id now swept tm.queue refl in
    (omega (arith, pays, sends-append id events (pump now swept tm.queue).1), same)

sends-close_all : (id : ℕ) (ms : List OutgoingMessage) → sends id (close_all ms) ≡ 0
unfolding close_all
sends-close_all id [] = refl
sends-close_all id (m ∷ ms) = sends-close_all id ms

step-Pays :
    (id : ℕ) (c : Call) (tm : TaskManager)
    → Pays id (enqueued_by id c * (1 + tm.config.max_retries)) tm (step c tm)
unfolding step check_timeouts shut_down
step-Pays id (enqueues now j packets) tm = enqueue_request-Pays id now j packets tm
step-Pays id (responds now j response) tm =
    let (pays, same) = handle_response-Pays id now j response tm in (omega (arith, pays), same)
step-Pays id (ticks now) tm =
    let (rest, dead, events) = sweep tm now tm.pending in
    let (pays, same) =
      after_sweep-Pays id now tm rest dead events (sweep-Pays id tm now tm.pending) in
    (omega (arith, pays), same)
step-Pays id stops tm = (
  omega (
    arith,
    sends-append id (close_all tm.pending) (close_all tm.queue),
    sends-close_all id tm.pending,
    sends-close_all id tm.queue,
  ),
  refl,
)

run-Pays :
    (id limit : ℕ) (cs : List Call) (tm : TaskManager)
    → tm.config.max_retries ≡ limit
    → sends id (run cs tm).1 + budget id (run cs tm).0 ≤ budget id tm + enqueued id cs * (1 + limit)
unfolding run
run-Pays id limit [] tm e = omega arith
run-Pays id limit (c ∷ cs) tm e =
    let (pays, same) = step-Pays id c tm in
    let later = run-Pays id limit cs (step c tm).0 (rw same e) in
    let cost : enqueued_by id c * (1 + tm.config.max_retries) ≡ enqueued_by id c * (1 + limit) =
      rw e in
    let first = step c tm in
    omega (arith, pays, later, cost, sends-append id first.1 (run cs first.0).1)

-- After any history of calls, the packets of an ID were handed to sendFunc at most 1 + MaxRetries
-- times for each time that a request of this ID was enqueued.
pub sends-le :
    (config : RetryConfig) (win_size : ℕ) (has_send_func : Bool) (cs : List Call) (id : ℕ)
    → sends id (run cs (new_task_manager config win_size has_send_func)).1
      ≤ enqueued id cs * (1 + config.max_retries)
unfolding new_task_manager
sends-le config win_size has_send_func cs id =
    omega (
      arith,
      run-Pays id config.max_retries cs (new_task_manager config win_size has_send_func) refl,
    )
