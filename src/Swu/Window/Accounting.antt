-- ===== src/Swu/Window/Accounting.antt =====
-- window.go: what becomes of each request, by counting.
pub mod Sends
pub mod Settled
use swu_go.Prelude.{ℕ, ◌+◌, List, [], ◌∷◌, ◌==◌, if◌then◌else◌}
use swu_go.Swu.Window.{OutgoingMessage, Event, sent, delivered, closed, Call, enqueues}

-- 1 if the IDs agree.
abbrev pub one : ℕ → ℕ → ℕ
one id j = if j == id then 1 else 0

-- How often a request of this ID was enqueued.
abbrev pub enqueued_by : ℕ → Call → ℕ
enqueued_by id (enqueues now j packets) = one id j
enqueued_by id _ = 0

abbrev pub enqueued : ℕ → List Call → ℕ
enqueued id [] = 0
enqueued id (c ∷ cs) = enqueued_by id c + enqueued id cs

-- How often packets of this ID were handed to sendFunc.
abbrev pub sends : ℕ → List Event → ℕ
sends id [] = 0
sends id (sent j packets ∷ es) = one id j + sends id es
sends id (delivered j response ∷ es) = sends id es
sends id (closed j ∷ es) = sends id es

-- How often a channel of this ID got its response or was closed.
abbrev pub settled : ℕ → List Event → ℕ
settled id [] = 0
settled id (sent j packets ∷ es) = settled id es
settled id (delivered j response ∷ es) = one id j + settled id es
settled id (closed j ∷ es) = one id j + settled id es
