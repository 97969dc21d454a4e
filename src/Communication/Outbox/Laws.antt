-- ===== src/Communication/Outbox/Laws.antt =====
-- An outbox between two calls. A dequeued message is kept nowhere, so only messages that were never
-- sent can be marked as failed, and the number of attempts stays at zero.
use nexus_ai_workspace.Common.{
  Option, extract, ℕ, String, ◌≡◌, refl, ap, ◌⊎◌, inl, inr, List, [], ◌∷◌, ◌++◌, none, some, true,
  false, Bool, Bool-cases, All, All-append, arith, length, ◌+◌, ◌*◌, IsSorted, StrictOrder,
  IsSorted-cut, insert_before-IsSorted, All-insert_before, leb, ◌===◌, extract_cases, Found, find,
}
use nexus_ai_workspace.Communication.Message.{AgentMessage, goes_before, goes_before-StrictOrder}
use nexus_ai_workspace.Communication.Outbox.{
  dequeued, retried, AgentOutbox, OutboxMessage, max_size, max_retry_attempts, retry_delay, create,
  insert_by_priority, wrap, enqueue, is_due, dequeue, has_id, for_retry, retry, clear, mark_failed,
  mark_as_failed,
}

abbrev IsUnsent : OutboxMessage → Type 0
IsUnsent m = (m.attempts ≡ 0) × (m.max_attempts ≡ max_retry_attempts)

abbrev pub before : OutboxMessage → OutboxMessage → Bool
before m other = goes_before m.message other.message

before-StrictOrder : StrictOrder before
before-StrictOrder = record {
  irrefl = λ x. goes_before-StrictOrder.irrefl x.message;
  trans = λ x y z. goes_before-StrictOrder.trans x.message y.message z.message;
}

pub record IsValid (b : AgentOutbox) : Type 0 where
  pub sorted : IsSorted before b.messages
  pub unsent : All IsUnsent b.messages
  pub failed_unsent : All IsUnsent b.failed_messages

pub create-IsValid : (agent : String) → IsValid (create agent)
unfolding create
create-IsValid agent = record { sorted = tt; unsent = tt; failed_unsent = tt }

All-cut {ℓ} :
    (P : OutboxMessage → Type ℓ) (xs : List OutboxMessage) (y : OutboxMessage)
    (ys : List OutboxMessage)
    → All P (xs ++ y ∷ ys)
    → P y × All P (xs ++ ys)
All-cut P [] y ys h = h
All-cut P (x ∷ xs) y ys h = let (p, rest) = All-cut P xs y ys h.1 in (p, (h.0, rest))

insert-IsValid :
    (b : AgentOutbox) (m : OutboxMessage) (rest : List OutboxMessage)
    → IsUnsent m
    → All IsUnsent rest
    → IsValid b
    → IsValid (record b { messages = insert_by_priority m b.messages; failed_messages = rest })
unfolding insert_by_priority
insert-IsValid b m rest u r v = record {
  sorted = insert_before-IsSorted before before-StrictOrder m b.messages v.sorted;
  unsent = All-insert_before before IsUnsent (before m) m b.messages u v.unsent;
  failed_unsent = r;
}

enqueue-IsValid : (b : AgentOutbox) (m : AgentMessage) → IsValid b → IsValid (enqueue b m).0
unfolding enqueue wrap
enqueue-IsValid b m v = elim (Bool-cases (m.sender_agent_id === b.agent_id)) [
  | inr e ↦ rw e v
  | inl e ↦ elim (Bool-cases (leb max_size (length b.messages))) [
    | inl f ↦ rw (e, f) v
    | inr f ↦ rw (e, f) (insert-IsValid b (wrap m) b.failed_messages (refl, refl) v.failed_unsent v)
  ]
]

dequeue-IsValid : (b : AgentOutbox) (now : ℕ) → IsValid b → IsValid (dequeue b now).0
unfolding dequeue
dequeue-IsValid b now v = elim (extract_cases (is_due now) b.messages) [
  | inl (e, _, _) ↦ rw e v
  | inr f ↦ rw f.cut (record {
    sorted = IsSorted-cut before f.before f.item f.after (rw f.split at v.sorted);
    unsent = (All-cut IsUnsent f.before f.item f.after (rw f.split at v.unsent)).1;
    failed_unsent = v.failed_unsent;
  })
]

pub mark_as_failed-IsValid :
    (b : AgentOutbox) (id problem : String) (now : ℕ)
    → IsValid b
    → IsValid (mark_as_failed b id problem now)
unfolding mark_as_failed mark_failed
mark_as_failed-IsValid b id problem now v = elim (extract_cases (has_id id) b.messages) [
  | inl (e, _, _) ↦ rw e v
  | inr f ↦
      let (u, rest) = All-cut IsUnsent f.before f.item f.after (rw f.split at v.unsent) in
      rw f.cut (record {
        sorted = IsSorted-cut before f.before f.item f.after (rw f.split at v.sorted);
        unsent = rest;
        failed_unsent = All-append IsUnsent b.failed_messages _ v.failed_unsent (u, tt);
      })
]

at_once : (now attempts : ℕ) → attempts ≡ 0 → now + retry_delay * attempts ≡ now
at_once now attempts e = omega arith

pub mark_as_failed-agent_id :
    (b : AgentOutbox) (id problem : String) (now : ℕ)
    → (mark_as_failed b id problem now).agent_id ≡ b.agent_id
unfolding mark_as_failed
mark_as_failed-agent_id b id problem now = elim (extract_cases (has_id id) b.messages) [
  | inl (e, _, _) ↦ rw e refl
  | inr f ↦ rw f.cut refl
]

-- The two ways in which a `retry` may end.
abbrev pub Retries : AgentOutbox → String → ℕ → Type 0
Retries b id now =
    ((find (has_id id) b.failed_messages ≡ none) × (retry b id now ≡ (b, false)))
    ⊎ ((f : Found (has_id id) b.failed_messages) × (retry b id now ≡ (
      record b {
        messages = insert_by_priority (for_retry f.item now) b.messages;
        failed_messages = f.before ++ f.after;
      },
      true,
    ))
        × ((for_retry f.item now).next_retry ≡ some now)
        × IsUnsent f.item
        × All IsUnsent (f.before ++ f.after))

pub retry-Retries : (b : AgentOutbox) (id : String) (now : ℕ) → IsValid b → Retries b id now
unfolding retry for_retry
retry-Retries b id now v = elim (extract_cases (has_id id) b.failed_messages) [
  | inl (e, seen, _) ↦ inl (seen, rw e refl)
  | inr f ↦
      let (u, rest) = All-cut IsUnsent f.before f.item f.after (rw f.split at v.failed_unsent) in
      let room : leb f.item.max_attempts f.item.attempts ≡ false = ground (arith, u.0, u.1) in
      inr (f, rw (f.cut, room) refl, ap some (at_once now f.item.attempts u.0), u, rest)
]

retry-IsValid : (b : AgentOutbox) (id : String) (now : ℕ) → IsValid b → IsValid (retry b id now).0
unfolding for_retry
retry-IsValid b id now v = elim (retry-Retries b id now v) [
  | inl (_, e) ↦ rw e v
  | inr (f, e, _, u, rest) ↦
      rw e (insert-IsValid b (for_retry f.item now) (f.before ++ f.after) u rest v)
]

-- The calls that may change an outbox.
pub data Call : Type 0 where
  enqueues : AgentMessage → Call
  dequeues : (now : ℕ) → Call
  retries : String → (now : ℕ) → Call
  clears : Call
  marks_as_failed : (id problem : String) → (now : ℕ) → Call

unfoldable pub step : AgentOutbox → Call → AgentOutbox
step b (enqueues m) = (enqueue b m).0
step b (dequeues now) = (dequeue b now).0
step b (retries id now) = (retry b id now).0
step b clears = clear b
step b (marks_as_failed id problem now) = mark_as_failed b id problem now

unfoldable pub run : AgentOutbox → List Call → AgentOutbox
run b [] = b
run b (c ∷ cs) = run (step b c) cs

dequeued-agent_id :
    (b : AgentOutbox) (now : ℕ) (o : Option (OutboxMessage × List OutboxMessage))
    → (dequeued b now o).0.agent_id ≡ b.agent_id
dequeued-agent_id b now none = refl
dequeued-agent_id b now (some (m, rest)) = refl

retried-agent_id :
    (b : AgentOutbox) (now : ℕ) (o : Option (OutboxMessage × List OutboxMessage))
    → (retried b now o).0.agent_id ≡ b.agent_id
retried-agent_id b now none = refl
retried-agent_id b now (some (m, rest)) = ground arith

enqueue-agent_id : (b : AgentOutbox) (m : AgentMessage) → (enqueue b m).0.agent_id ≡ b.agent_id
unfolding enqueue
enqueue-agent_id b m = ground arith

pub step-agent_id : (b : AgentOutbox) (c : Call) → (step b c).agent_id ≡ b.agent_id
unfolding step clear dequeue retry
step-agent_id b (enqueues m) = enqueue-agent_id b m
step-agent_id b (dequeues now) = dequeued-agent_id b now (extract (is_due now) b.messages)
step-agent_id b (retries id now) = retried-agent_id b now (extract (has_id id) b.failed_messages)
step-agent_id b clears = refl
step-agent_id b (marks_as_failed id problem now) = mark_as_failed-agent_id b id problem now

pub step-IsValid : (b : AgentOutbox) (c : Call) → IsValid b → IsValid (step b c)
unfolding step clear
step-IsValid b (enqueues m) v = enqueue-IsValid b m v
step-IsValid b (dequeues now) v = dequeue-IsValid b now v
step-IsValid b (retries id now) v = retry-IsValid b id now v
step-IsValid b clears v = record { sorted = tt; unsent = tt; failed_unsent = tt }
step-IsValid b (marks_as_failed id problem now) v = mark_as_failed-IsValid b id problem now v

run-IsValid : (b : AgentOutbox) (cs : List Call) → IsValid b → IsValid (run b cs)
unfolding run
run-IsValid b [] v = v
run-IsValid b (c ∷ cs) v = run-IsValid (step b c) cs (step-IsValid b c v)

-- After any sequence of calls on a new outbox its messages are sorted, most urgent and oldest
-- first, and every message in it, failed ones included, has zero attempts out of three.
pub outbox_run-IsValid : (agent : String) (cs : List Call) → IsValid (run (create agent) cs)
outbox_run-IsValid agent cs = run-IsValid (create agent) cs (create-IsValid agent)

-- A retry never waits and is never refused for its attempts: after any sequence of calls on a new
-- outbox, `retry` either finds no failed message with the id, changes nothing and returns false; or
-- it returns true and moves the first failed message with the id back among those to send, due at
-- the time of the call; that message and those that stay failed have zero attempts out of three.
pub retry-run :
    (agent : String) (cs : List Call) (id : String) (now : ℕ)
    → Retries (run (create agent) cs) id now
retry-run agent cs id now = retry-Retries _ id now (outbox_run-IsValid agent cs)
