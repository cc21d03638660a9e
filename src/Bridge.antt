-- ===== src/Bridge.antt =====
-- cmd/clipboardnode-bridge/main.go and bridge/contract.go: the host that runs the engine for a user
-- interface, its status, and the events that it emits.
--
-- JSON is a parameter: an emitted event is kept as the value that it encodes, newest first, and the
-- data of a command is decoded by functions of `Outside`. A command runs under the host's lock as one
-- step, and so does the forwarding of a decision.
pub mod Commands
pub mod Forward
pub mod SetConfig
pub mod Forwarded
pub mod Web
pub mod Guards
mod Tests
use myflowhub_clipboardnode.Base.{
  ℕ, suc, Bool, true, false, not, ◌&&◌, ◌||◌, Option, none, some, List, [], ◌∷◌, ◌++◌, Text, codes,
  text_eq, is_empty, trim_space, ℤ, pos, negsuc, if◌then◌else◌, Result, ok, err, Error, is_some,
}
use mathlib.Core.List.{map}
use myflowhub_clipboardnode.Config.{Config, TopicRoute, clone_topic_routes, retention_body}
use myflowhub_clipboardnode.Event.{Platform}
use myflowhub_clipboardnode.Runtime.{Action, Decision, unset, Env}
use myflowhub_clipboardnode.Runtime
use myflowhub_clipboardnode.History.{HistoryEntry, Moment, entries_of}
use myflowhub_clipboardnode.History
use myflowhub_clipboardnode.Store.{ConfigStore, Codec}
use myflowhub_clipboardnode.Store
use myflowhub_clipboardnode.Engine.{Engine, Transport, status_of}
use myflowhub_clipboardnode.Engine

pub record BridgeRoute : Type 0 where
  pub topic : Text
  pub sync_to_local : Bool
  pub sync_from_local : Bool

pub record Command : Type 0 where
  pub id : Text
  pub action : Text
  pub payload : Text

pub record Settings : Type 0 where
  pub enabled : Bool
  pub parent_endpoint : Text
  pub topic : Text
  pub topics : Option (List BridgeRoute)
  pub device_id : Text
  pub display_name : Text
  pub device_label : Text
  pub max_inline_bytes : ℤ
  pub auto_watch : Bool
  pub auto_apply : Bool
  pub history_retention : Text
  pub history_limit : ℤ
  pub transfer_provider : Text
  pub transfer_ref : Text

-- `last_error` is none for the empty string.
pub record Status : Type 0 where
  pub connected : Bool
  pub logged_in : Bool
  pub node_id : ℕ
  pub hub_id : ℕ
  pub parent_endpoint : Text
  pub enabled : Bool
  pub topic : Text
  pub topics : Option (List BridgeRoute)
  pub device_id : Text
  pub display_name : Text
  pub device_label : Text
  pub auto_watch : Bool
  pub auto_apply : Bool
  pub history_retention : Text
  pub history_limit : ℤ
  pub transfer_provider : Text
  pub transfer_ref : Text
  pub started : Bool
  pub subscribed : Bool
  pub watching : Bool
  pub pending_event_id : Text
  pub pending_topic : Text
  pub pending_size : ℤ
  pub pending_hash : Text
  pub last_action : Action
  pub last_event_id : Text
  pub last_size : ℤ
  pub last_hash_prefix : Text
  pub last_error : Option Error

-- The title is the action.
pub record Activity : Type 0 where
  pub id : Text
  pub kind : Text
  pub title : Action
  pub detail : Text
  pub topic : Text
  pub device_label : Text
  pub byte_size : ℤ
  pub hash_prefix : Text
  pub timestamp_ms : ℤ
  pub text : Text

pub record Transfer : Type 0 where
  pub id : Text
  pub state : Text
  pub byte_size : ℤ
  pub hash_prefix : Text
  pub detail : Text

pub data EventName : Type 0 where
  status_changed activity_updated transfer_update history_updated error_event : EventName

pub data Payload : Type 0 where
  no_data : Payload
  of_status : Status → Payload
  of_activity : Activity → Payload
  of_transfer : Transfer → Payload
  of_history : List HistoryEntry → Payload

pub record EngineEvent : Type 0 where
  pub id : Text
  pub name : EventName
  pub payload : Payload
  pub good : Bool
  pub error : Option Error

-- `moments` counts the readings of the clock and `writes` the uses of the configuration file's disk.
pub record Host (T : Type 0) : Type 0 where
  pub store : ConfigStore
  pub history : History.Store
  pub cfg : Config
  pub eng : Engine T
  pub out : List EngineEvent
  pub moments : ℕ
  pub writes : ℕ

-- What the host uses of others: the engine's transport and environments, the disks, the clock, the
-- adapter's reading, and the decoders of the commands' data.
pub record Outside (T : Type 0) : Type 0 where
  pub transport : Transport T
  pub envs : ℕ → Env
  pub platform : Platform
  pub codec : Codec
  pub disk : ℕ → Store.Disk
  pub history_disk : History.Disk
  pub moment : ℕ → Moment
  pub read_text : ℕ → Result Text
  pub decode_settings : Text → Result Settings
  pub decode_send_text : Text → Result Text
  pub decode_apply_event : Text → Result Text
  pub decode_entry : Text → Result HistoryEntry

abbrev to_bridge : TopicRoute → BridgeRoute
to_bridge r = record {
  topic = r.topic;
  sync_to_local = r.sync_to_local;
  sync_from_local = r.sync_from_local;
}

abbrev of_bridge : BridgeRoute → TopicRoute
of_bridge r = record {
  topic = r.topic;
  sync_to_local = r.sync_to_local;
  sync_from_local = r.sync_from_local;
}

-- bridgeTopicRoutes; an empty list becomes nil
unfoldable pub bridge_topic_routes : Option (List TopicRoute) → Option (List BridgeRoute)
bridge_topic_routes none = none
bridge_topic_routes (some []) = none
bridge_topic_routes (some (r ∷ rs)) = some (map to_bridge (r ∷ rs))

-- runtimeTopicRoutes
unfoldable pub runtime_topic_routes : Option (List BridgeRoute) → Option (List TopicRoute)
runtime_topic_routes none = none
runtime_topic_routes (some []) = none
runtime_topic_routes (some (r ∷ rs)) = some (map of_bridge (r ∷ rs))

-- configFromSettings
unfoldable pub config_from_settings : Settings → Config
unfolding runtime_topic_routes
config_from_settings s = record {
  enabled = s.enabled;
  parent_endpoint = s.parent_endpoint;
  topic = s.topic;
  topics = runtime_topic_routes s.topics;
  max_inline_bytes = s.max_inline_bytes;
  device_id = s.device_id;
  display_name = s.display_name;
  device_label = s.device_label;
  auto_watch = s.auto_watch;
  auto_apply = s.auto_apply;
  history_retention = s.history_retention;
  history_limit = s.history_limit;
  transfer_provider = s.transfer_provider;
  transfer_ref = s.transfer_ref;
}

-- decisionCanEnterBodyHistory
abbrev pub decision_can_enter_body_history : Action → Bool
decision_can_enter_body_history Action.local_published = true
decision_can_enter_body_history Action.remote_applied = true
decision_can_enter_body_history _ = false

-- activityKind
unfoldable pub activity_kind : Action → Text
activity_kind Action.local_published = codes "published"
activity_kind Action.remote_applied = codes "applied"
activity_kind Action.remote_pending = codes "pending"
activity_kind Action.transfer_pending = codes "pending"
activity_kind Action.transfer_published = codes "pending"
activity_kind Action.validation_failed = codes "error"
activity_kind Action.transport_failed = codes "error"
activity_kind Action.clipboard_write_failed = codes "error"
activity_kind _ = codes "ignored"

-- activityFromDecision
unfoldable pub activity_from_decision : Decision → Config → ℤ → Activity
unfolding activity_kind
activity_from_decision d cfg timestamp_ms =
    let topic = trim_space d.topic in
    record {
      id = d.event_id;
      kind = activity_kind d.action;
      title = d.action;
      detail = if is_empty topic then codes "TopicBus" else codes "TopicBus: " ++ topic;
      topic = topic;
      device_label = [];
      byte_size = d.size;
      hash_prefix = d.hash_prefix;
      timestamp_ms = timestamp_ms;
      text =
          if text_eq cfg.history_retention retention_body
            && decision_can_enter_body_history d.action
          then d.text
          else [];
    }

-- The fields of an activity that the history keeps.
abbrev pub entry_of : Activity → HistoryEntry
entry_of a = record {
  id = a.id;
  kind = a.kind;
  text = a.text;
  topic = a.topic;
  device_label = a.device_label;
  byte_size = a.byte_size;
  hash_prefix = a.hash_prefix;
  timestamp_ms = a.timestamp_ms;
}

-- The status of the runtime before there is one; its time is the zero time, in Unix milliseconds.
abbrev pub zero_status : Runtime.Status
zero_status = record {
  enabled = false;
  topic = [];
  topics = none;
  auto_watch = false;
  auto_apply = false;
  started = false;
  subscribed = false;
  watching = false;
  pending_event_id = [];
  pending_topic = [];
  pending_size = pos 0;
  pending_hash_prefix = [];
  last_action = unset;
  last_event_id = [];
  last_size = pos 0;
  last_hash = [];
  last_error = none;
  last_updated = negsuc 62135596799999;
}

abbrev pub runtime_of : Option Runtime.Status → Runtime.Status
runtime_of none = zero_status
runtime_of (some s) = s

abbrev or_error : Option Error → Option Error → Option Error
or_error none below = below
or_error (some e) below = some e

-- The configuration that the status shows: the runtime's routes and switches where it has a topic.
unfoldable pub shown_config : Config → Engine.Status → Config
shown_config cfg st =
    let rt = runtime_of st.runtime in
    let shown = if is_empty rt.topic then cfg else record cfg {
      topic = rt.topic;
      topics = clone_topic_routes rt.topics;
      enabled = rt.enabled;
      auto_watch = rt.auto_watch;
      auto_apply = rt.auto_apply;
    } in
    if is_empty shown.parent_endpoint
    then record shown { parent_endpoint = st.parent_endpoint }
    else shown

-- statusWithError, of the engine's status
unfoldable pub status_with_error : Config → Engine.Status → Option Error → Status
unfolding shown_config bridge_topic_routes
status_with_error host_cfg st failure =
    let cfg = shown_config host_cfg st in
    let rt = runtime_of st.runtime in
    record {
      connected = st.connected;
      logged_in = st.logged_in;
      node_id = st.node_id;
      hub_id = st.hub_id;
      parent_endpoint = cfg.parent_endpoint;
      enabled = cfg.enabled;
      topic = cfg.topic;
      topics = bridge_topic_routes cfg.topics;
      device_id = cfg.device_id;
      display_name = cfg.display_name;
      device_label = cfg.display_name;
      auto_watch = cfg.auto_watch;
      auto_apply = cfg.auto_apply;
      history_retention = cfg.history_retention;
      history_limit = cfg.history_limit;
      transfer_provider = cfg.transfer_provider;
      transfer_ref = cfg.transfer_ref;
      started = rt.started;
      subscribed = rt.subscribed;
      watching = rt.watching;
      pending_event_id = rt.pending_event_id;
      pending_topic = rt.pending_topic;
      pending_size = rt.pending_size;
      pending_hash = rt.pending_hash_prefix;
      last_action = rt.last_action;
      last_event_id = rt.last_event_id;
      last_size = rt.last_size;
      last_hash_prefix = rt.last_hash;
      last_error = or_error failure st.last_error;
    }

module _ {T : Type 0} (outside : Outside T) where
  -- emit
  abbrev pub emit : Host T → EngineEvent → Host T
  emit h evt = record h { out = evt ∷ h.out }

  -- The host's status, with an error to show.
  unfoldable pub status_now : Host T → Option Error → Status
  unfolding status_with_error status_of
  status_now h failure =
      status_with_error h.cfg (status_of outside.transport outside.envs h.eng) failure

  -- emitStatus
  abbrev pub emit_status : Host T → Text → Option Error → Host T
  emit_status h id failure = emit h (record {
    id = id;
    name = status_changed;
    payload = of_status (status_now h failure);
    good = not (is_some failure);
    error = failure;
  })

  -- emitCommandOK
  abbrev pub emit_command_ok : Host T → Text → Host T
  emit_command_ok h id =
      if is_empty (trim_space id)
      then h
      else emit h
          (record { id = id; name = status_changed; payload = no_data; good = true; error = none })

  -- emitError
  abbrev pub emit_error : Host T → Text → Error → Host T
  emit_error h id e =
      emit h
        (record { id = id; name = error_event; payload = no_data; good = false; error = some e })

  -- historyEntries
  abbrev pub history_entries : Host T → List HistoryEntry
  history_entries h = entries_of outside.platform outside.history_disk h.history h.cfg

  -- emitHistory
  abbrev pub emit_history : Host T → Text → Host T
  emit_history h id = emit h (record {
    id = id;
    name = history_updated;
    payload = of_history (history_entries h);
    good = true;
    error = none;
  })

  -- The clock, read once.
  abbrev pub tick : Host T → Host T
  tick h = record h { moments = suc h.moments }
