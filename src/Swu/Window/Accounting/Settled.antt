-- ===== src/Swu/Window/Accounting/Settled.antt =====
-- window.go: no request is lost, and none is settled twice.
use swu_go.Prelude.{
  ℕ, ◌+◌, ◌≤◌, ◌≡◌, refl, ap, Bool, some, inl, inr, List, [], ◌∷◌, ◌++◌, Option-cases, arith,
}
use swu_go.Prelude.Bytes.{Bytes}
use swu_go.Swu.Window.{
  RetryConfig, OutgoingMessage, TaskManager, Event, sent, delivered, closed, Call, enqueues,
  responds, ticks, stops, put, get, delete, new_task_manager, activate_message, enqueue_request,
  pump, handle_response, sweep, retry, after_sweep, check_timeouts, shut_down, close_all, step, run,
}
use swu_go.Swu.Window.Accounting.{one, enqueued, settled}

abbrev pub count : ℕ → List OutgoingMessage → ℕ
count id [] = 0
count id (m ∷ ms) = one id m.msg_id + count id ms

-- How many requests of this ID are in flight or waiting.
abbrev pub held : ℕ → TaskManager → ℕ
held id tm = count id tm.pending + count id tm.queue

-- Each request is enqueued under an ID of which no other is in flight or waiting.
abbrev pub Fresh : List Call → TaskManager → Type 0
Fresh [] tm = Unit {0}
Fresh (enqueues now id packets ∷ cs) tm =
    (held id tm ≡ 0) × Fresh cs (step (enqueues now id packets) tm).0
Fresh (c ∷ cs) tm = Fresh cs (step c tm).0

count-put :
    (id : ℕ) (m : OutgoingMessage) (ps : List OutgoingMessage)
    → count m.msg_id ps ≡ 0
    → count id (put m ps) ≡ one id m.msg_id + count id ps
unfolding put
count-put id m [] h = omega arith
count-put id m (p ∷ ps) h = ground (arith, count-put id m ps)

count-delete :
    (id j : ℕ) (ps : List OutgoingMessage) (m : OutgoingMessage)
    → get j ps ≡ some m
    → one id j + count id (delete j ps) ≡ count id ps
unfolding get delete
count-delete id j [] m h = cc
count-delete id j (p ∷ ps) m h = ground (arith, count-delete id j ps m)

count-append :
    (id : ℕ) (xs : List OutgoingMessage) (m : OutgoingMessage)
    → count id (xs ++ (m ∷ [])) ≡ count id xs + one id m.msg_id
count-append id [] m = omega arith
count-append id (x ∷ xs) m = omega (arith, count-append id xs m)

settled-append :
    (id : ℕ) (xs ys : List Event) → settled id (xs ++ ys) ≡ settled id xs + settled id ys
settled-append id [] ys = omega arith
settled-append id (sent j packets ∷ xs) ys = settled-append id xs ys
settled-append id (delivered j response ∷ xs) ys = omega (arith, settled-append id xs ys)
settled-append id (closed j ∷ xs) ys = omega (arith, settled-append id xs ys)

-- A call settles what it no longer holds, `extra` requests being new.
abbrev Keeps : ℕ → ℕ → TaskManager → TaskManager × List Event → Type 0
Keeps id extra tm r = settled id r.1 + held id r.0 ≡ held id tm + extra

activate_message-Keeps :
    (id now : ℕ) (m : OutgoingMessage) (tm : TaskManager)
    → count m.msg_id tm.pending ≡ 0
    → Keeps id (one id m.msg_id) tm (activate_message now m tm)
unfolding activate_message
activate_message-Keeps id now m tm h =
    ground (arith, count-put id (record m { deadline = now + m.next_timeout }) tm.pending)

enqueue_request-Keeps :
    (id now j : ℕ) (packets : List Bytes) (tm : TaskManager)
    → held j tm ≡ 0
    → Keeps id (one id j) tm (enqueue_request now j packets tm)
unfolding enqueue_request
enqueue_request-Keeps id now j packets tm h =
    let m : OutgoingMessage = record {
      msg_id = j;
      packets = packets;
      retry_count = 0;
      max_retries = tm.config.max_retries;
      next_timeout = tm.config.initial_timeout;
      deadline = 0;
    } in
    ground (arith, activate_message-Keeps id now m tm, count-append id tm.queue m)

-- No ID is held twice.
abbrev Distinct : TaskManager → Type 0
Distinct tm = (j : ℕ) → held j tm ≤ 1

pump-Keeps :
    (id now : ℕ) (tm : TaskManager) (q : List OutgoingMessage)
    → q ≡ tm.queue
    → Distinct tm
    → Keeps id 0 tm (pump now tm q)
unfolding pump
pump-Keeps id now tm [] e d = omega arith
pump-Keeps id now tm (m ∷ rest) e d = ground (
  arith,
  activate_message-Keeps id now m (record tm { queue = rest }),
  ap (count id) e,
  ap (count m.msg_id) e,
  d m.msg_id,
)

handle_response-Keeps :
    (id now j : ℕ) (response : Bytes) (tm : TaskManager)
    → Distinct tm
    → let (tm', _, events) = handle_response now j response tm in Keeps id 0 tm (tm', events)
unfolding handle_response
handle_response-Keeps id now j response tm d = elim (Option-cases (get j tm.pending)) [
  | inl e ↦ rw (e, handle_response) (omega arith)
  | inr (m, e) ↦
      let less = record tm { pending = delete j tm.pending } in
      rw (e, handle_response)
        (omega (
          arith,
          count-delete id j tm.pending m e,
          pump-Keeps id now less tm.queue refl
              (λ k. omega (arith, d k, count-delete k j tm.pending m e)),
        ))
]

sweep-Keeps :
    (id : ℕ) (tm : TaskManager) (now : ℕ) (ms : List OutgoingMessage)
    → let (rest, _, events) = sweep tm now ms in settled id events + count id rest ≡ count id ms
unfolding sweep retry
sweep-Keeps id tm now [] = refl
sweep-Keeps id tm now (m ∷ ms) = ground (arith, sweep-Keeps id tm now ms)

after_sweep-Keeps :
    (id now : ℕ) (tm : TaskManager) (rest : List OutgoingMessage) (dead : List ℕ)
    (events : List Event)
    → ((j : ℕ) → settled j events + count j rest ≡ count j tm.pending)
    → Distinct tm
    → Keeps id 0 tm (after_sweep now tm (rest, dead, events))
unfolding after_sweep
after_sweep-Keeps id now tm rest [] events h d = omega (arith, h id)
after_sweep-Keeps id now tm rest (x ∷ dead) events h d =
    let swept = record tm { pending = rest } in
    omega (
      arith,
      h id,
      pump-Keeps id now swept tm.queue refl (λ j. omega (arith, d j, h j)),
      settled-append id events (pump now swept tm.queue).1,
    )

settled-close_all : (id : ℕ) (ms : List OutgoingMessage) → settled id (close_all ms) ≡ count id ms
unfolding close_all
settled-close_all id [] = refl
settled-close_all id (m ∷ ms) = omega (arith, settled-close_all id ms)

run-Keeps :
    (id : ℕ) (cs : List Call) (tm : TaskManager)
    → Distinct tm
    → Fresh cs tm
    → settled id (run cs tm).1 + held id (run cs tm).0 ≡ held id tm + enqueued id cs
unfolding run
run-Keeps id [] tm d f = omega arith
run-Keeps id (enqueues now j packets ∷ cs) tm d (free, f) =
    let r = step (enqueues now j packets) tm in
    let kept : (k : ℕ) → Keeps k (one k j) tm r =
      λ k. unfold step in enqueue_request-Keeps k now j packets tm free in
    omega (
      arith,
      kept id,
      run-Keeps id cs r.0 (λ k. ground (arith, kept k, d k, free)) f,
      settled-append id r.1 (run cs r.0).1,
    )
run-Keeps id (responds now j response ∷ cs) tm d f =
    let r = step (responds now j response) tm in
    let kept : (k : ℕ) → Keeps k 0 tm r =
      λ k. unfold step in handle_response-Keeps k now j response tm d in
    omega (
      arith,
      kept id,
      run-Keeps id cs r.0 (λ k. omega (arith, kept k, d k)) f,
      settled-append id r.1 (run cs r.0).1,
    )
run-Keeps id (ticks now ∷ cs) tm d f =
    let r = step (ticks now) tm in
    let kept : (k : ℕ) → Keeps k 0 tm r = λ k.
      unfold step check_timeouts in
      (let (rest, dead, events) = sweep tm now tm.pending in
        after_sweep-Keeps k now tm rest dead events (λ j. sweep-Keeps j tm now tm.pending) d) in
    omega (
      arith,
      kept id,
      run-Keeps id cs r.0 (λ k. omega (arith, kept k, d k)) f,
      settled-append id r.1 (run cs r.0).1,
    )
run-Keeps id (stops ∷ cs) tm d f =
    let r = step stops tm in
    let kept : (k : ℕ) → Keeps k 0 tm r = λ k.
      unfold step shut_down in
      omega (
        arith,
        settled-append k (close_all tm.pending) (close_all tm.queue),
        settled-close_all k tm.pending,
        settled-close_all k tm.queue,
      ) in
    omega (
      arith,
      kept id,
      run-Keeps id cs r.0 (λ k. omega (arith, kept k, d k)) f,
      settled-append id r.1 (run cs r.0).1,
    )

-- After any history of calls that enqueues each request under an ID of which none is in flight or
-- waiting, the requests of an ID are those that are in flight, those that wait, and those whose channel
-- got a response or was closed, each once: none is lost, and none is settled twice.
pub settled-held :
    (config : RetryConfig) (win_size : ℕ) (has_send_func : Bool) (cs : List Call) (id : ℕ)
    → let tm = new_task_manager config win_size has_send_func in
      Fresh cs tm → settled id (run cs tm).1 + held id (run cs tm).0 ≡ enqueued id cs
unfolding new_task_manager
settled-held config win_size has_send_func cs id f =
    omega
      (arith, run-Keeps id cs (new_task_manager config win_size has_send_func) (λ j. omega arith) f)
