-- ===== src/Swu/Window/Invariant.antt =====
-- window.go: what every history of calls keeps.
use swu_go.Prelude.{
  ℕ, suc, ◌+◌, ◌≤◌, ◌<◌, ◌≡◌, refl, sym, subst, ◌⊎◌, inl, inr, Bool, some, List, [], ◌∷◌, ◌++◌, ltb,
  lt→ltb, length, All, Bool-cases, Option-cases, arith,
}
use swu_go.Prelude.Bytes.{Bytes}
use swu_go.Swu.Window.{
  RetryConfig, OutgoingMessage, TaskManager, Event, Call, enqueues, responds, ticks, stops, put,
  get, delete, new_task_manager, activate_message, enqueue_request, pump, handle_response, sweep,
  retry, after_sweep, check_timeouts, shut_down, step, run,
}

abbrev pub RetriesLeft : OutgoingMessage → Type 0
RetriesLeft m = m.retry_count ≤ m.max_retries

-- At most `window_size` requests are in flight, none waits while nothing is in flight, and no request
-- is sent again more often than it may.
pub record Inv (tm : TaskManager) : Type 0 where
  pub window : 1 ≤ tm.window_size
  pub bounded : length tm.pending ≤ tm.window_size
  pub busy : (tm.queue ≡ []) ⊎ (1 ≤ length tm.pending)
  pub pending_retries : All RetriesLeft tm.pending
  pub queue_retries : All RetriesLeft tm.queue

length-put :
    (m : OutgoingMessage) (ps : List OutgoingMessage)
    → (1 ≤ length (put m ps)) × (length (put m ps) ≤ suc (length ps))
unfolding put
length-put m [] = omega arith
length-put m (p ∷ ps) = ground (arith, length-put m ps)

put-All :
    (m : OutgoingMessage) (ps : List OutgoingMessage)
    → RetriesLeft m
    → All RetriesLeft ps
    → All RetriesLeft (put m ps)
unfolding put
put-All m [] h hs = (h, tt)
put-All m (p ∷ ps) h (hp, hs) = ground (arith, put-All m ps h hs)

delete-All :
    (id : ℕ) (ps : List OutgoingMessage) → All RetriesLeft ps → All RetriesLeft (delete id ps)
unfolding delete
delete-All id [] h = tt
delete-All id (p ∷ ps) (hp, hs) = ground (arith, delete-All id ps hs)

length-delete :
    (id : ℕ) (ps : List OutgoingMessage) (m : OutgoingMessage)
    → get id ps ≡ some m
    → suc (length (delete id ps)) ≡ length ps
unfolding get delete
length-delete id [] m h = cc
length-delete id (p ∷ ps) m h = ground (arith, length-delete id ps m)

append-All :
    (xs : List OutgoingMessage) (m : OutgoingMessage)
    → All RetriesLeft xs
    → RetriesLeft m
    → All RetriesLeft (xs ++ (m ∷ []))
append-All [] m h k = (k, tt)
append-All (x ∷ xs) m (h, hs) k = (h, append-All xs m hs k)

activate_message-Inv :
    (now : ℕ) (m : OutgoingMessage) (tm : TaskManager)
    → 1 ≤ tm.window_size
    → length tm.pending < tm.window_size
    → All RetriesLeft tm.pending
    → All RetriesLeft tm.queue
    → RetriesLeft m
    → Inv (activate_message now m tm).0
unfolding activate_message
activate_message-Inv now m tm w h ps qs r =
    let m' = record m { deadline = now + m.next_timeout } in
    record {
      window = w;
      bounded = omega (arith, length-put m' tm.pending);
      busy = inr (length-put m' tm.pending).0;
      pending_retries = put-All m' tm.pending r ps;
      queue_retries = qs;
    }

enqueue_request-Inv :
    (now id : ℕ) (packets : List Bytes) (tm : TaskManager)
    → Inv tm
    → Inv (enqueue_request now id packets tm).0
unfolding enqueue_request
enqueue_request-Inv now id packets tm v =
    elim (Bool-cases (ltb (length tm.pending) tm.window_size)) [
      | inl e ↦ rw e (
          activate_message-Inv now _ tm v.window (ground arith) v.pending_retries v.queue_retries
            (omega arith))
      | inr e ↦ rw e (record {
        window = v.window;
        bounded = v.bounded;
        busy = inr (ground arith);
        pending_retries = v.pending_retries;
        queue_retries = append-All tm.queue _ v.queue_retries (omega arith);
      })
    ]

-- `pump` restores the invariant wherever there is room in the window.
pump-Inv :
    (now : ℕ) (tm : TaskManager) (q : List OutgoingMessage)
    → q ≡ tm.queue
    → 1 ≤ tm.window_size
    → length tm.pending < tm.window_size
    → All RetriesLeft tm.pending
    → All RetriesLeft q
    → Inv (pump now tm q).0
unfolding pump
pump-Inv now tm [] e w h ps qs = record {
  window = w;
  bounded = omega arith;
  busy = inl (sym e);
  pending_retries = ps;
  queue_retries = subst (All RetriesLeft) e tt;
}
pump-Inv now tm (m ∷ rest) e w h ps (qm, qs) =
    rw (lt→ltb (length tm.pending) tm.window_size h)
      (activate_message-Inv now m (record tm { queue = rest }) w h ps qs qm)

handle_response-Inv :
    (now id : ℕ) (response : Bytes) (tm : TaskManager)
    → Inv tm
    → Inv (handle_response now id response tm).0
unfolding handle_response
handle_response-Inv now id response tm v = elim (Option-cases (get id tm.pending)) [
  | inl e ↦ rw (e, handle_response) v
  | inr (m, e) ↦
      rw (e, handle_response)
        (pump-Inv now (record tm { pending = delete id tm.pending }) tm.queue refl v.window
          (omega (arith, length-delete id tm.pending m e, v.bounded))
          (delete-All id tm.pending v.pending_retries) v.queue_retries)
]

-- The loop drops each ID that it lists, and no other.
sweep_lem :
    (tm : TaskManager) (now : ℕ) (ms : List OutgoingMessage)
    → All RetriesLeft ms
    → let (rest, dead, _) = sweep tm now ms in
      (length rest + length dead ≡ length ms) × All RetriesLeft rest
unfolding sweep retry
sweep_lem tm now [] h = (refl, tt)
sweep_lem tm now (m ∷ ms) (h, hs) = ground (arith, sweep_lem tm now ms hs)

after_sweep-Inv :
    (now : ℕ) (tm : TaskManager) (rest : List OutgoingMessage) (dead : List ℕ) (events : List Event)
    → Inv tm
    → length rest + length dead ≡ length tm.pending
    → All RetriesLeft rest
    → Inv (after_sweep now tm (rest, dead, events)).0
unfolding after_sweep
after_sweep-Inv now tm rest [] events v n h = record {
  window = v.window;
  bounded = omega (arith, v.bounded);
  busy = ground (arith, v.busy);
  pending_retries = h;
  queue_retries = v.queue_retries;
}
after_sweep-Inv now tm rest (d ∷ dead) events v n h =
    pump-Inv now (record tm { pending = rest }) tm.queue refl v.window (omega (arith, v.bounded)) h
      v.queue_retries

check_timeouts-Inv : (now : ℕ) (tm : TaskManager) → Inv tm → Inv (check_timeouts now tm).0
unfolding check_timeouts
check_timeouts-Inv now tm v =
    let (n, h) = sweep_lem tm now tm.pending v.pending_retries in
    let (rest, dead, events) = sweep tm now tm.pending in
    after_sweep-Inv now tm rest dead events v n h

step-Inv : (c : Call) (tm : TaskManager) → Inv tm → Inv (step c tm).0
unfolding step
step-Inv (enqueues now id packets) tm v = enqueue_request-Inv now id packets tm v
step-Inv (responds now id response) tm v = handle_response-Inv now id response tm v
step-Inv (ticks now) tm v = check_timeouts-Inv now tm v
step-Inv stops tm v =
    unfold shut_down in
    record {
      window = v.window;
      bounded = omega arith;
      busy = inl refl;
      pending_retries = tt;
      queue_retries = tt;
    }

pub run-Inv : (cs : List Call) (tm : TaskManager) → Inv tm → Inv (run cs tm).0
unfolding run
run-Inv [] tm v = v
run-Inv (c ∷ cs) tm v = run-Inv cs (step c tm).0 (step-Inv c tm v)

-- After any history of requests, responses, timer ticks and shutdowns, in any order and at any times,
-- a task manager has at most its window size in flight, keeps no request waiting while nothing is in
-- flight, and holds no request that was sent again more often than its retry limit.
pub run-new_task_manager-Inv :
    (config : RetryConfig) (win_size : ℕ) (has_send_func : Bool) (cs : List Call)
    → Inv (run cs (new_task_manager config win_size has_send_func)).0
unfolding new_task_manager
run-new_task_manager-Inv config win_size has_send_func cs = run-Inv cs _ (record {
  window = ground arith;
  bounded = omega arith;
  busy = inl refl;
  pending_retries = tt;
  queue_retries = tt;
})
