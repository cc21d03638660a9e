-- ===== src/Client/Topics.antt =====
-- Subscribe, Unsubscribe, Publish, and the events that the hub sends.
use myflowhub_clipboardnode.Base.{
  ℕ, Bool, true, false, not, ◌&&◌, ◌||◌, Option, none, some, List, [], ◌∷◌, ◌++◌, Text, codes,
  text_eq, is_empty, trim_space, ◌==◌, ltb, length, pos, eq_ℤ, if◌then◌else◌, Result, ok, err,
  Error, bus_topic_required, bus_name_required, login_required, event_queue_full, unexpected_action,
}
use myflowhub_clipboardnode.Runtime.Remote.{Message}
use myflowhub_clipboardnode.Client.{
  AuthState, BusResp, Request, subscribe, unsubscribe, publish, PublishReq, send, read_clock,
  Answer, failed, answered, World, Client, Done, note, store_last_error, ensure_client,
}
use myflowhub_clipboardnode.Client.Auth.{send_and_await, response_error}

-- The guard of the three: logged in, with a node and a hub.
abbrev pub may_send : AuthState → Bool
may_send st = st.logged_in && (not (st.node_id == 0) && not (st.hub_id == 0))

-- A frame of the hub: whether it is of the topic bus, whether its major kind is a command or a
-- message, and its payload.
pub record Frame : Type 0 where
  pub is_bus : Bool
  pub is_command_or_message : Bool
  pub payload : List ℕ

abbrev is_nil : List ℕ → Bool
is_nil [] = true
is_nil (b ∷ bs) = false

module _ {K : Type 0} (world : World K) where
  abbrev refuse : Client K → Error → Done K
  refuse c e = (store_last_error c e, some e)

  unfoldable pub finish_bus : Text → Client K → Answer BusResp → Done K
  unfolding response_error
  finish_bus prefix c (failed t) = refuse c (Error.external t)
  finish_bus prefix c (answered resp) =
      if eq_ℤ resp.code (pos 1)
      then (c, none)
      else refuse c (response_error prefix resp.code resp.msg)

  unfoldable pub finish_bus_reply : Text → Client K × Answer (List ℕ) → Done K
  unfolding finish_bus
  finish_bus_reply prefix (c, failed t) = refuse c (Error.external t)
  finish_bus_reply prefix (c, answered bytes) = finish_bus prefix c (world.decode_bus_resp bytes)

  -- From the encoding of a topic request to the end of Subscribe or Unsubscribe.
  unfoldable pub exchange_bus : Client K → Text → Request → Done K
  unfolding finish_bus_reply send_and_await
  exchange_bus c prefix request = elim (world.encode_error request) [
    | some t ↦ (c, some (Error.external t))
    | none ↦ finish_bus_reply prefix (send_and_await world c c.auth.node_id c.auth.hub_id request)
  ]

  -- Subscribe
  unfoldable pub subscribe_topic : Client K → Text → Done K
  unfolding exchange_bus
  subscribe_topic c given =
      let topic = trim_space given in
      if is_empty topic
      then (c, some bus_topic_required)
      else if not (may_send c.auth)
      then (c, some login_required)
      else exchange_bus c (codes "topicbus subscribe") (subscribe topic)

  -- Unsubscribe
  unfoldable pub unsubscribe_topic : Client K → Text → Done K
  unfolding exchange_bus
  unsubscribe_topic c given =
      let topic = trim_space given in
      if is_empty topic
      then (c, none)
      else if not (may_send c.auth && c.connected)
      then (c, none)
      else exchange_bus c (codes "topicbus unsubscribe") (unsubscribe topic)

  abbrev end_send : Client K → Option Text → Done K
  end_send c none = (c, none)
  end_send c (some t) = refuse c (Error.external t)

  -- The sending of an encoded publication, which ends with it or with the context.
  unfoldable pub send_publish : Client K → PublishReq → Done K
  unfolding ensure_client
  send_publish c req = elim (world.encode_error (publish req)) [
    | some t ↦ (c, some (Error.external t))
    | none ↦
        let sent = note (ensure_client c) (send c.auth.node_id c.auth.hub_id (publish req)) in
        end_send sent (world.sent sent.log)
  ]

  -- Publish
  unfoldable pub publish_payload : Client K → Text → Text → List ℕ → Done K
  unfolding send_publish
  publish_payload c given given_name payload =
      let topic = trim_space given in
      let name = trim_space given_name in
      if is_empty topic
      then (c, some bus_topic_required)
      else if is_empty name
      then (c, some bus_name_required)
      else if not (may_send c.auth)
      then (c, some login_required)
      else send_publish (note c read_clock)
          (record { topic = topic; name = name; ts = world.now_milli c.log; payload = payload })

  abbrev of_request : PublishReq → Result PublishReq
  of_request req = if is_empty (trim_space req.name) then err bus_name_required else ok req

  abbrev of_answer : Answer PublishReq → Result PublishReq
  of_answer (failed t) = err (Error.external t)
  of_answer (answered req) = of_request req

  abbrev of_message : Answer (Text × List ℕ) → Result PublishReq
  of_message (failed t) = err (Error.external t)
  of_message (answered (action, body)) =
      if not (text_eq action world.publish_action)
      then err (unexpected_action action)
      else of_answer (world.decode_publish body)

  -- parseTopicBusPublish
  unfoldable pub parse_topic_bus_publish : List ℕ → Result PublishReq
  parse_topic_bus_publish payload = of_message (world.decode_message payload)

  -- `select { case c.events <- msg: default: ... }`
  unfoldable pub push_event : Client K → Message → Client K
  push_event c msg =
      if ltb (length c.events) c.event_buffer
      then record c { events = c.events ++ msg ∷ [] }
      else store_last_error c event_queue_full

  abbrev push_parsed : Client K → Result PublishReq → Client K
  unfolding push_event
  push_parsed c (err e) = c
  push_parsed c (ok req) =
      push_event c (record { topic = req.topic; name = req.name; payload = req.payload })

  -- onUnmatchedFrame, of a frame that has a header
  unfoldable pub on_unmatched_frame : Client K → Frame → Client K
  unfolding parse_topic_bus_publish push_event
  on_unmatched_frame c frame =
      if not frame.is_bus || is_nil frame.payload
      then c
      else if not frame.is_command_or_message
      then c
      else push_parsed c (parse_topic_bus_publish frame.payload)
