-- ===== src/Communication/Inbox/Laws.antt =====
-- An inbox between two calls, and what `push` and `pop` do to it.
use nexus_ai_workspace.Common.{
  ℕ, String, ◌≡◌, refl, ◌⊎◌, inl, inr, List, [], ◌∷◌, Option, none, some, true, false, Bool-cases,
  All, arith, length, length-perm, ◌≤◌, ◌<◌, ◌≢◌, IsSorted, insert_before-IsSorted,
  insert_before-perm, All-insert_before, leb,
}
use mathlib.Core.List.{Perm}
use nexus_ai_workspace.Communication.Message.{
  AgentMessage, delivered, goes_before, goes_before-StrictOrder,
}
use nexus_ai_workspace.Communication.Inbox.{
  clear, AgentInbox, not_addressed, inbox_full, max_size, create, is_for_other, mark_delivered,
  insert_by_priority, push, mark_processed, pop_from, pop,
}

abbrev IsDelivered : AgentMessage → Type 0
IsDelivered m = m.status ≡ delivered

-- Most urgent and oldest first, within the limit, and all marked as delivered.
pub record IsValid (b : AgentInbox) : Type 0 where
  pub sorted : IsSorted goes_before b.messages
  pub bounded : length b.messages ≤ max_size
  pub marked : All IsDelivered b.messages

pub create-IsValid : (agent : String) → IsValid (create agent)
unfolding create
create-IsValid agent = record { sorted = tt; bounded = omega arith; marked = tt }

module _ (b : AgentInbox) (m : AgentMessage) (now : ℕ) where
  abbrev marked_message : AgentMessage
  marked_message = mark_delivered m b.agent_id now

  abbrev with_message : AgentInbox
  with_message = record b { messages = insert_by_priority marked_message b.messages }

  -- The three ways in which `push` ends.
  push_cases :
      ((is_for_other m.receiver_agent_id b.agent_id ≡ true)
        × (push b m now ≡ (b, some (not_addressed b.agent_id))))
      ⊎ ((max_size ≤ length b.messages) × (push b m now ≡ (b, some inbox_full)))
      ⊎ ((is_for_other m.receiver_agent_id b.agent_id ≡ false)
          × (length b.messages < max_size)
          × (push b m now ≡ (with_message, none)))
  unfolding push
  push_cases = elim (Bool-cases (is_for_other m.receiver_agent_id b.agent_id)) [
    | inl e ↦ inl (e, rw e refl)
    | inr e ↦ elim (Bool-cases (leb max_size (length b.messages))) [
      | inl f ↦ inr (inl (ground arith, rw (e, f) refl))
      | inr f ↦ inr (inr (e, ground arith, rw (e, f) refl))
    ]
  ]

  insert-perm : Perm with_message.messages (marked_message ∷ b.messages)
  unfolding insert_by_priority
  insert-perm = insert_before-perm (goes_before marked_message) marked_message b.messages

  with_message-IsValid : length b.messages < max_size → IsValid b → IsValid with_message
  unfolding insert_by_priority mark_delivered
  with_message-IsValid room v = record {
    sorted =
        insert_before-IsSorted goes_before goes_before-StrictOrder marked_message b.messages
          v.sorted;
    bounded = omega (arith, length-perm _ _ insert-perm);
    marked =
        All-insert_before goes_before IsDelivered (goes_before marked_message) marked_message
          b.messages refl v.marked;
  }

  pub push-IsValid : IsValid b → IsValid (push b m now).0
  push-IsValid v = elim push_cases [
    | inl (_, e) ↦ rw e v
    | inr (inl (_, e)) ↦ rw e v
    | inr (inr (_, room, e)) ↦ rw e (with_message-IsValid room v)
  ]

  pub push-agent_id : (push b m now).0.agent_id ≡ b.agent_id
  push-agent_id = elim push_cases [
    | inl (_, e) ↦ rw e refl
    | inr (inl (_, e)) ↦ rw e refl
    | inr (inr (_, _, e)) ↦ rw e refl
  ]

  pub push-perm :
      let (t, problem) = push b m now in
      (((is_for_other m.receiver_agent_id b.agent_id ≡ true) ⊎ (max_size ≤ length b.messages))
        × (t ≡ b)
        × (problem ≢ none))
      ⊎ ((is_for_other m.receiver_agent_id b.agent_id ≡ false)
          × (length b.messages < max_size)
          × Perm t.messages (marked_message ∷ b.messages)
          × (problem ≡ none))
  push-perm = elim push_cases [
    | inl (other, e) ↦ inl (inl other, rw e refl, rw e (ground arith))
    | inr (inl (full, e)) ↦ inl (inr full, rw e refl, rw e (ground arith))
    | inr (inr (own, room, e)) ↦ inr (own, room, rw e insert-perm, rw e refl)
  ]

pop_from-IsValid :
    (b : AgentInbox) (ms : List AgentMessage) (now : ℕ)
    → b.messages ≡ ms
    → IsValid b
    → IsValid (pop_from b ms now).0
pop_from-IsValid b [] now e v = v
pop_from-IsValid b (m ∷ ms) now e v =
    let (_, sorted) = rw e at v.sorted in
    let (_, marked) = rw e at v.marked in
    let bounded = rw e at v.bounded in
    record { sorted = sorted; bounded = omega arith; marked = marked }

pub pop-IsValid : (b : AgentInbox) (now : ℕ) → IsValid b → IsValid (pop b now).0
unfolding pop
pop-IsValid b now v = pop_from-IsValid b b.messages now refl v

-- The inbox and the message after a `pop`.
abbrev pub Pops : AgentInbox → ℕ → AgentInbox × Option AgentMessage → Type 0
Pops b now (t, none) = (b.messages ≡ []) × (t ≡ b)
Pops b now (t, some m) =
    (head : AgentMessage) × (b.messages ≡ head ∷ t.messages)
    × (m ≡ mark_processed head b.agent_id now)
    × All (λ o. goes_before o m ≡ false) t.messages

pop_from-Pops :
    (b : AgentInbox) (ms : List AgentMessage) (now : ℕ)
    → b.messages ≡ ms
    → IsValid b
    → Pops b now (pop_from b ms now)
unfolding mark_processed goes_before
pop_from-Pops b [] now e v = (e, refl)
pop_from-Pops b (m ∷ ms) now e v = let (first, _) = rw e at v.sorted in (m, e, refl, first)

-- `pop` on a valid inbox: from an empty one nothing comes, and it stays as it was; from another its
-- first message comes, marked as processed, exactly this message is gone, and no message that stays
-- goes before it.
pub pop-Pops : (b : AgentInbox) (now : ℕ) → IsValid b → Pops b now (pop b now)
unfolding pop
pop-Pops b now v = pop_from-Pops b b.messages now refl v

-- The calls that may change an inbox.
pub data Call : Type 0 where
  pushes : AgentMessage → (now : ℕ) → Call
  pops : (now : ℕ) → Call
  clears : Call

unfoldable pub step : AgentInbox → Call → AgentInbox
step b (pushes m now) = (push b m now).0
step b (pops now) = (pop b now).0
step b clears = clear b

pub step-IsValid : (b : AgentInbox) (c : Call) → IsValid b → IsValid (step b c)
unfolding step clear
step-IsValid b (pushes m now) v = push-IsValid b m now v
step-IsValid b (pops now) v = pop-IsValid b now v
step-IsValid b clears v = record { sorted = tt; bounded = omega arith; marked = tt }

pop_from-agent_id :
    (b : AgentInbox) (ms : List AgentMessage) (now : ℕ)
    → (pop_from b ms now).0.agent_id ≡ b.agent_id
pop_from-agent_id b [] now = refl
pop_from-agent_id b (m ∷ ms) now = refl

pub step-agent_id : (b : AgentInbox) (c : Call) → (step b c).agent_id ≡ b.agent_id
unfolding step clear pop
step-agent_id b (pushes m now) = push-agent_id b m now
step-agent_id b (pops now) = pop_from-agent_id b b.messages now
step-agent_id b clears = refl
