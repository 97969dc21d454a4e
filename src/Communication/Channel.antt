-- ===== src/Communication/Channel.antt =====
-- agent-channel.ts. A handler is named by a number, and a publication returns the subscriptions
-- whose handlers it calls, in their order: what a handler does, or throws, the channel does not
-- see. The id of a new subscription, made from the clock and a random number, is an argument, and
-- so is the clock.
pub mod Laws
pub mod Examples
use nexus_ai_workspace.Common.{
  ℕ, String, Bool, true, false, List, [], ◌∷◌, Option, none, some, ◌===◌, length, is_some, not,
  if◌then◌else◌, select, map,
}
use nexus_ai_workspace.Common.Map.{Map, set, delete, has, values}
use nexus_ai_workspace.Values.{flag, date}
use nexus_ai_workspace.Communication.Message.{AgentMessage}
use nexus_ai_workspace.Communication.Log.{add_to_log, latest}

pub record ChannelSubscription : Type 0 where
  pub id : String
  pub agent_id : String
  pub handler : ℕ
  pub filter : Option (AgentMessage → Bool)
  pub created_at : ℕ

pub record AgentChannel : Type 0 where
  pub channel_id : String
  pub subscriptions : Map ChannelSubscription
  pub message_history : List AgentMessage

abbrev pub max_history_size : ℕ
max_history_size = 100

unfoldable pub create : String → AgentChannel
create channel_id = record { channel_id = channel_id; subscriptions = []; message_history = [] }

abbrev pub passes : Option (AgentMessage → Bool) → AgentMessage → Bool
passes none m = true
passes (some filter) m = filter m

-- `message.receiverAgentId` as a condition: an empty text is no receiver.
abbrev pub is_addressed_to : Option String → (sender agent : String) → Bool
is_addressed_to none sender agent = not (agent === sender)
is_addressed_to (some receiver) sender agent =
    if receiver === "" then not (agent === sender) else agent === receiver

unfoldable pub is_relevant : AgentMessage → ChannelSubscription → Bool
is_relevant m s =
    if passes s.filter m
    then is_addressed_to m.receiver_agent_id m.sender_agent_id s.agent_id
    else false

unfoldable pub add_to_history : AgentChannel → AgentMessage → AgentChannel
add_to_history c m = record c { message_history = add_to_log max_history_size m c.message_history }

unfoldable pub publish : AgentChannel → AgentMessage → AgentChannel × List ChannelSubscription
publish c m = let c' = add_to_history c m in (c', select (is_relevant m) (values c'.subscriptions))

unfoldable pub subscribe :
    AgentChannel
    → (subscription_id agent_id : String) → (handler : ℕ) → Option (AgentMessage → Bool)
    → (now : ℕ) → AgentChannel × String
subscribe c subscription_id agent_id handler filter now =
    let subscription : ChannelSubscription = record {
      id = subscription_id;
      agent_id = agent_id;
      handler = handler;
      filter = filter;
      created_at = now;
    } in
    (record c { subscriptions = set subscription_id subscription c.subscriptions }, subscription_id)

unfoldable pub unsubscribe : AgentChannel → String → AgentChannel × Bool
unsubscribe c id = (record c { subscriptions = delete id c.subscriptions }, has id c.subscriptions)

unfoldable pub as_broadcast : AgentMessage → ℕ → AgentMessage
as_broadcast m now = record m {
  receiver_agent_id = none;
  metadata = set "broadcastAt" (date now) (set "broadcast" (flag true) m.metadata);
}

unfoldable pub broadcast : AgentChannel → AgentMessage → ℕ → AgentChannel × List ChannelSubscription
broadcast c m now = publish c (as_broadcast m now)

abbrev pub is_of : String → ChannelSubscription → Bool
is_of agent s = s.agent_id === agent

abbrev pub some_of_values : (ChannelSubscription → Bool) → Map ChannelSubscription → Bool
some_of_values p [] = false
some_of_values p ((k, s) ∷ m) = if p s then true else some_of_values p m

unfoldable pub get_subscriber_count : AgentChannel → ℕ
get_subscriber_count c = length c.subscriptions

unfoldable pub get_subscriptions_by_agent : AgentChannel → String → List ChannelSubscription
get_subscriptions_by_agent c agent = select (is_of agent) (values c.subscriptions)

unfoldable pub get_message_history : AgentChannel → Option ℕ → List AgentMessage
get_message_history c limit = latest limit c.message_history

unfoldable pub clear_history : AgentChannel → AgentChannel
clear_history c = record c { message_history = [] }

unfoldable pub is_subscribed : AgentChannel → String → Bool
is_subscribed c agent = some_of_values (is_of agent) c.subscriptions

-- The ids of an agent's subscriptions.
unfoldable pub ids_of : String → Map ChannelSubscription → List String
ids_of agent [] = []
ids_of agent ((id, s) ∷ m) = let rest = ids_of agent m in if is_of agent s then id ∷ rest else rest

unfoldable pub delete_all : List String → Map ChannelSubscription → Map ChannelSubscription
delete_all [] m = m
delete_all (id ∷ ids) m = delete_all ids (delete id m)

unfoldable pub unsubscribe_agent : AgentChannel → String → AgentChannel × ℕ
unsubscribe_agent c agent =
    let ids = ids_of agent c.subscriptions in
    (record c { subscriptions = delete_all ids c.subscriptions }, length ids)
