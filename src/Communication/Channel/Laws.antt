-- ===== src/Communication/Channel/Laws.antt =====
-- A channel between two calls, whom a broadcast reaches, and what `unsubscribeAgent` leaves.
use nexus_ai_workspace.Common.{
  ℕ, String, ◌≡◌, refl, ap, ◌∙◌, Bool, true, false, List, [], ◌∷◌, Option, none, Bool-cases, inl,
  inr, arith, ◌+◌, ◌≤◌, ◌===◌, ===_refl, ===_sym, length, All, All-map, if◌then◌else◌, select,
}
use nexus_ai_workspace.Common.Map.{
  Map, get, delete, values, Distinct, set-Distinct, delete-Distinct, Entries, Entries-set,
  Entries-delete,
}
use nexus_ai_workspace.Communication.Message.{AgentMessage}
use nexus_ai_workspace.Communication.Log.{add_to_log-le}
use nexus_ai_workspace.Communication.Channel.{
  AgentChannel, ChannelSubscription, max_history_size, create, passes, is_relevant, add_to_history,
  publish, subscribe, unsubscribe, as_broadcast, broadcast, is_of, some_of_values, clear_history,
  is_subscribed, ids_of, delete_all, unsubscribe_agent,
}

abbrev IsFiled : String → ChannelSubscription → Type 0
IsFiled id s = s.id ≡ id

pub record IsValid (c : AgentChannel) : Type 0 where
  pub bounded : length c.message_history ≤ max_history_size
  pub distinct : Distinct c.subscriptions
  pub filed : Entries IsFiled c.subscriptions

publish-IsValid : (c : AgentChannel) (m : AgentMessage) → IsValid c → IsValid (publish c m).0
unfolding publish add_to_history
publish-IsValid c m v = record {
  bounded = add_to_log-le max_history_size m c.message_history v.bounded;
  distinct = v.distinct;
  filed = v.filed;
}

delete_all-Distinct :
    (ids : List String) (m : Map ChannelSubscription) → Distinct m → Distinct (delete_all ids m)
unfolding delete_all
delete_all-Distinct [] m d = d
delete_all-Distinct (id ∷ ids) m d = delete_all-Distinct ids (delete id m) (delete-Distinct id m d)

delete_all-Entries :
    (ids : List String) (m : Map ChannelSubscription)
    → Entries IsFiled m
    → Entries IsFiled (delete_all ids m)
unfolding delete_all
delete_all-Entries [] m h = h
delete_all-Entries (id ∷ ids) m h =
    delete_all-Entries ids (delete id m) (Entries-delete IsFiled id m h)

-- The calls that may change the channel.
pub data Call : Type 0 where
  publishes : AgentMessage → Call
  subscribes :
      (subscription_id agent_id : String)
      → (handler : ℕ) → Option (AgentMessage → Bool)
      → (now : ℕ) → Call
  unsubscribes : String → Call
  broadcasts : AgentMessage → (now : ℕ) → Call
  clears_history : Call
  unsubscribes_agent : String → Call

unfoldable pub step : AgentChannel → Call → AgentChannel
step c (publishes m) = (publish c m).0
step c (subscribes id agent handler filter now) = (subscribe c id agent handler filter now).0
step c (unsubscribes id) = (unsubscribe c id).0
step c (broadcasts m now) = (broadcast c m now).0
step c clears_history = clear_history c
step c (unsubscribes_agent agent) = (unsubscribe_agent c agent).0

unfoldable pub run : AgentChannel → List Call → AgentChannel
run c [] = c
run c (k ∷ ks) = run (step c k) ks

step-IsValid : (c : AgentChannel) (k : Call) → IsValid c → IsValid (step c k)
unfolding step subscribe unsubscribe broadcast clear_history unsubscribe_agent
step-IsValid c (publishes m) v = publish-IsValid c m v
step-IsValid c (subscribes id agent handler filter now) v = record {
  bounded = v.bounded;
  distinct = set-Distinct id _ c.subscriptions v.distinct;
  filed = Entries-set IsFiled id _ c.subscriptions refl v.filed;
}
step-IsValid c (unsubscribes id) v = record {
  bounded = v.bounded;
  distinct = delete-Distinct id c.subscriptions v.distinct;
  filed = Entries-delete IsFiled id c.subscriptions v.filed;
}
step-IsValid c (broadcasts m now) v = publish-IsValid c (as_broadcast m now) v
step-IsValid c clears_history v = record {
  bounded = omega arith;
  distinct = v.distinct;
  filed = v.filed;
}
step-IsValid c (unsubscribes_agent agent) v = record {
  bounded = v.bounded;
  distinct = delete_all-Distinct (ids_of agent c.subscriptions) c.subscriptions v.distinct;
  filed = delete_all-Entries (ids_of agent c.subscriptions) c.subscriptions v.filed;
}

run-IsValid : (c : AgentChannel) (ks : List Call) → IsValid c → IsValid (run c ks)
unfolding run
run-IsValid c [] v = v
run-IsValid c (k ∷ ks) v = run-IsValid (step c k) ks (step-IsValid c k v)

-- After any sequence of calls on a new channel its history has at most 100 messages, no id of a
-- subscription is filed twice, and each subscription is filed under its own id.
pub channel_run-IsValid : (id : String) (ks : List Call) → IsValid (run (create id) ks)
unfolding create
channel_run-IsValid id ks =
    run-IsValid (create id) ks (record { bounded = omega arith; distinct = tt; filed = tt })

-- The subscriptions that are left without those of an agent.
abbrev pub without : String → Map ChannelSubscription → Map ChannelSubscription
without agent [] = []
without agent ((id, s) ∷ m) =
    let rest = without agent m in if is_of agent s then rest else (id, s) ∷ rest

ids_of-other :
    (agent j : String) (m : Map ChannelSubscription)
    → get j m ≡ none
    → All (λ i. (j === i) ≡ false) (ids_of agent m)
unfolding ids_of get
ids_of-other agent j [] h = tt
ids_of-other agent j ((k, s) ∷ m) h = elim (Bool-cases (k === j)) [
  | inl e ↦ let h' = rw e at h in cc
  | inr e ↦
      let ih = ids_of-other agent j m (rw e at h) in
      elim (Bool-cases (is_of agent s)) [ inl b ↦ rw b (===_sym k j e, ih) | inr b ↦ rw b ih ]
]

delete_all-cons :
    (ids : List String) (j : String) (s : ChannelSubscription) (m : Map ChannelSubscription)
    → All (λ i. (j === i) ≡ false) ids
    → delete_all ids ((j, s) ∷ m) ≡ (j, s) ∷ delete_all ids m
unfolding delete_all delete
delete_all-cons [] j s m h = refl
delete_all-cons (i ∷ ids) j s m h = rw h.0 (delete_all-cons ids j s (delete i m) h.1)

delete_all-without :
    (agent : String) (m : Map ChannelSubscription)
    → Distinct m
    → delete_all (ids_of agent m) m ≡ without agent m
unfolding delete_all ids_of delete
delete_all-without agent [] d = refl
delete_all-without agent ((j, s) ∷ m) d = elim (Bool-cases (is_of agent s)) [
  | inl e ↦ rw (e, delete_all, delete, ===_refl j) (delete_all-without agent m d.1)
  | inr e ↦ rw e (
      delete_all-cons (ids_of agent m) j s m (ids_of-other agent j m d.0)
      ∙ ap (λ r. (j, s) ∷ r) (delete_all-without agent m d.1))
]

length-without :
    (agent : String) (m : Map ChannelSubscription)
    → length (ids_of agent m) + length (without agent m) ≡ length m
unfolding ids_of
length-without agent [] = refl
length-without agent ((j, s) ∷ m) = ground (arith, length-without agent m)

without_none :
    (agent : String) (m : Map ChannelSubscription)
    → some_of_values (is_of agent) (without agent m) ≡ false
without_none agent [] = refl
without_none agent ((j, s) ∷ m) = elim (Bool-cases (is_of agent s)) [
  | inl e ↦ rw e (without_none agent m)
  | inr e ↦ rw (e, e) (without_none agent m)
]

-- On a valid channel `unsubscribeAgent` removes exactly the agent's subscriptions, in place, and
-- returns how many they were; the agent is not subscribed any more.
pub unsubscribe_agent-without :
    (c : AgentChannel) (agent : String)
    → IsValid c
    → let (t, n) = unsubscribe_agent c agent in
      (t.subscriptions ≡ without agent c.subscriptions)
      × (n + length t.subscriptions ≡ length c.subscriptions)
      × (is_subscribed t agent ≡ false)
unfolding unsubscribe_agent is_subscribed
unsubscribe_agent-without c agent v =
    let gone = delete_all-without agent c.subscriptions v.distinct in
    rw gone (refl, length-without agent c.subscriptions, without_none agent c.subscriptions)

select-All :
    (p : ChannelSubscription → Bool) (xs : List ChannelSubscription)
    → All (λ s. p s ≡ true) (select p xs)
select-All p [] = tt
select-All p (x ∷ xs) = elim (Bool-cases (p x)) [
  | inl e ↦ rw e (e, select-All p xs)
  | inr e ↦ rw e (select-All p xs)
]

-- A broadcast calls no handler of its sender and none whose filter rejects the message, whatever
-- receiver the message had.
pub broadcast-others :
    (c : AgentChannel) (m : AgentMessage) (now : ℕ)
    → All
        (λ s.
          ((s.agent_id === m.sender_agent_id) ≡ false)
          × (passes s.filter (as_broadcast m now) ≡ true))
        (broadcast c m now).1
unfolding broadcast publish is_relevant as_broadcast add_to_history
broadcast-others c m now =
    All-map _ _ _ (λ s h. ground arith)
      (select-All (is_relevant (as_broadcast m now)) (values c.subscriptions))
