-- ===== src/Runtime.antt =====
-- core/runtime/runtime.go: the state of the runtime, what it records, and its pending events.
--
-- The state is threaded through each method; a method runs under the runtime's lock as one step.
-- What the hub, the clipboard, the clock and the identifier source answer is an `Env`: a function of
-- everything that was called before. The calls are kept in `log`, newest first.
pub mod Tests
pub mod Bus
pub mod Lifecycle
pub mod Local
pub mod Remote
pub mod Pending
pub mod Sync
pub mod Handlers
use myflowhub_clipboardnode.Base.{
  ℕ, suc, ◌+◌, Bool, true, false, not, ◌&&◌, ◌||◌, Option, none, some, List, [], ◌∷◌, ◌++◌, Text,
  text_eq, is_empty, byte_len, ltb, leb, ◌==◌, ℤ, pos, pos_part, ltb_ℤ, eq_ℤ, length, take, is_some,
  if◌then◌else◌, Result, ok, err, Error, node_id_required, instance_id_required, fail_if, ◌>>=◌,
  ◌>>◌,
}
use myflowhub_clipboardnode.Dedupe.{BoundedSet, new_bounded_set, add}
use myflowhub_clipboardnode.Config.{Config, TopicRoute, normalize_config, clone_topic_routes}
use myflowhub_clipboardnode.Event.{TextEvent, Platform}

pub data Action : Type 0 where
  -- the empty action of an empty decision
  unset : Action
  disabled ignored_topic ignored_name ignored_local_origin ignored_duplicate ignored_loop : Action
  ignored_unchanged ignored_local_policy ignored_topic_policy local_published : Action
  transfer_published transfer_pending transfer_unsupported remote_pending remote_applied : Action
  validation_failed transport_failed clipboard_write_failed : Action

pub record Decision : Type 0 where
  pub action : Action
  pub event_id : Text
  pub topic : Text
  pub size : ℤ
  pub hash_prefix : Text
  pub text : Text

-- A decision with the fields that a composite literal leaves out at zero.
abbrev pub decision : Action → Decision
decision a = record {
  action = a;
  event_id = [];
  topic = [];
  size = pos 0;
  hash_prefix = [];
  text = [];
}

-- `last_error` is `none` for the empty string.
pub record Status : Type 0 where
  pub enabled : Bool
  pub topic : Text
  pub topics : Option (List TopicRoute)
  pub auto_watch : Bool
  pub auto_apply : Bool
  pub started : Bool
  pub subscribed : Bool
  pub watching : Bool
  pub pending_event_id : Text
  pub pending_topic : Text
  pub pending_size : ℤ
  pub pending_hash_prefix : Text
  pub last_action : Action
  pub last_event_id : Text
  pub last_size : ℤ
  pub last_hash : Text
  pub last_error : Option Error
  pub last_updated : ℤ

pub record PendingText : Type 0 where
  pub event : TextEvent
  pub topic : Text
  pub hash_prefix : Text
  pub received_at : ℤ

-- The calls that leave the runtime. A watcher is named by the number of watchers started before it.
pub data Call : Type 0 where
  subscribe unsubscribe : Text → Call
  publish : Text → Text → List ℕ → Call
  write_text : Text → Call
  watch_text cancel_watch : ℕ → Call
  cancel_run close_clipboard : Call

abbrev pub Log : Type 0
Log = List (Call × Option Error)

-- Times are in Unix milliseconds.
pub record Env : Type 0 where
  pub answer : Log → Call → Option Error
  pub now : ℕ → ℤ
  pub new_event_id : ℕ → Result Text

-- `pending_remote` is a map; `run_ctx` and `cancel` say whether these are non-nil, and
-- `watch_cancel` which watcher is cancelled by it. The last four fields are the world's.
pub record Runtime : Type 0 where
  pub cfg : Config
  pub node_id : ℕ
  pub instance_id : Text
  pub has_clipboard : Bool
  pub has_topic_bus : Bool
  pub recent_events : BoundedSet
  pub suppress_hashes : BoundedSet
  pub last_local_hash : Text
  pub pending_remote : List (Text × PendingText)
  pub pending_order : List Text
  pub pending_limit : ℤ
  pub decisions : List Decision
  pub decision_buffer : ℕ
  pub started : Bool
  pub subscribed : Bool
  pub watching : Bool
  pub run_ctx : Bool
  pub cancel : Bool
  pub watch_cancel : Option ℕ
  pub status : Status
  pub log : Log
  pub clock_reads : ℕ
  pub ids_drawn : ℕ
  pub watchers : ℕ

pub record Options : Type 0 where
  pub config : Config
  pub node_id : ℕ
  pub instance_id : Text
  pub has_clipboard : Bool
  pub has_topic_bus : Bool
  pub decision_buffer : ℤ
  pub recent_event_limit : ℤ
  pub suppress_hash_limit : ℤ

abbrev pub default_recent_limit : ℤ
default_recent_limit = pos 128

abbrev pub default_suppress_limit : ℤ
default_suppress_limit = pos 32

-- A method's new state, decision and error.
abbrev pub Outcome : Type 0
Outcome = Runtime × Decision × Option Error

-- m[id]
unfoldable pub find_pending : Text → List (Text × PendingText) → Option PendingText
find_pending id [] = none
find_pending id ((k, v) ∷ m) = if text_eq k id then some v else find_pending id m

-- delete(m, id)
unfoldable pub drop_pending : Text → List (Text × PendingText) → List (Text × PendingText)
drop_pending id [] = []
drop_pending id ((k, v) ∷ m) =
    let rest = drop_pending id m in if text_eq k id then rest else (k, v) ∷ rest

-- m[id] = v
unfoldable pub put_pending :
    Text → PendingText → List (Text × PendingText) → List (Text × PendingText)
unfolding drop_pending
put_pending id v m = (id, v) ∷ drop_pending id m

-- The newest entry of the order that is still pending.
unfoldable pub latest_pending : List Text → List (Text × PendingText) → Option PendingText
latest_pending [] m = none
latest_pending (id ∷ ids) m = elim (latest_pending ids m) [
  | some v ↦ some v
  | none ↦ find_pending id m
]

unfoldable pub hash_prefix : Text → Text
hash_prefix h = if leb (byte_len h) 12 then h else take 12 h

-- `select { case r.decisions <- decision: default: }`
unfoldable pub emit_decision : Runtime → Decision → Runtime
emit_decision r d =
    if ltb (length r.decisions) r.decision_buffer
    then record r { decisions = r.decisions ++ d ∷ [] }
    else r

abbrev pub is_failure : Action → Bool
is_failure validation_failed = true
is_failure transport_failed = true
is_failure clipboard_write_failed = true
is_failure transfer_unsupported = true
is_failure _ = false

abbrev pub pending_fields : Option PendingText → Status → Status
pending_fields none s = record s {
  pending_event_id = [];
  pending_topic = [];
  pending_size = pos 0;
  pending_hash_prefix = [];
}
pending_fields (some v) s = record s {
  pending_event_id = v.event.event_id;
  pending_topic = v.topic;
  pending_size = v.event.size;
  pending_hash_prefix = v.hash_prefix;
}

-- The status fields that mirror a configuration.
abbrev pub config_fields : Config → Status → Status
config_fields c s = record s {
  enabled = c.enabled;
  topic = c.topic;
  topics = clone_topic_routes c.topics;
  auto_watch = c.auto_watch;
  auto_apply = c.auto_apply;
}

module _ (env : Env) where
  -- `r.status.LastUpdated = r.now()`
  abbrev pub stamp : Runtime → Runtime
  stamp r = record r {
    status = record r.status { last_updated = env.now r.clock_reads };
    clock_reads = suc r.clock_reads;
  }

  -- A call, its answer logged.
  unfoldable pub perform : Runtime → Call → Runtime × Option Error
  perform r c = (record r { log = (c, env.answer r.log c) ∷ r.log }, env.answer r.log c)

  -- The status after a decision, its time stamp apart.
  abbrev pub decided_status : Runtime → Decision → Status
  decided_status r d =
      let s =
        pending_fields (latest_pending r.pending_order r.pending_remote)
          (config_fields r.cfg r.status) in
      record s {
        started = r.started;
        subscribed = r.subscribed;
        watching = r.watching;
        last_action = d.action;
        last_event_id = d.event_id;
        last_size = d.size;
        last_hash = d.hash_prefix;
        last_error = if is_failure d.action then r.status.last_error else none;
      }

  -- recordDecisionLocked
  unfoldable pub record_decision : Runtime → Decision → Runtime
  unfolding emit_decision
  record_decision r d = emit_decision (stamp (record r { status = decided_status r d })) d

  -- recordFailureDecision, with an error that is not nil
  unfoldable pub record_failure : Runtime → Decision → Error → Runtime
  record_failure r d e =
      let s = record_decision r d in record s { status = record s.status { last_error = some e } }

  -- A decision that is recorded and returned.
  abbrev pub decide : Runtime → Decision → Outcome
  decide r d = (record_decision r d, d, none)

  -- A decision that is recorded with an error; the error returned may be wrapped.
  abbrev pub fail_with : Runtime → Decision → Error → Error → Outcome
  fail_with r d e returned = (record_failure r d e, d, some returned)

  -- New
  unfoldable pub new_runtime : Options → Result Runtime
  new_runtime opts = do
    cfg ← normalize_config opts.config
    fail_if (opts.node_id == 0) node_id_required
    fail_if (is_empty opts.instance_id) instance_id_required
    let recent_limit =
        if eq_ℤ opts.recent_event_limit (pos 0)
        then default_recent_limit
        else opts.recent_event_limit
    let suppress_limit =
        if eq_ℤ opts.suppress_hash_limit (pos 0)
        then default_suppress_limit
        else opts.suppress_hash_limit
    ok (record {
      cfg = cfg;
      node_id = opts.node_id;
      instance_id = opts.instance_id;
      has_clipboard = opts.has_clipboard;
      has_topic_bus = opts.has_topic_bus;
      recent_events = new_bounded_set recent_limit;
      suppress_hashes = new_bounded_set suppress_limit;
      last_local_hash = [];
      pending_remote = [];
      pending_order = [];
      pending_limit = recent_limit;
      decisions = [];
      decision_buffer =
          if ltb_ℤ (pos 0) opts.decision_buffer then pos_part opts.decision_buffer else 64;
      started = false;
      subscribed = false;
      watching = false;
      run_ctx = false;
      cancel = false;
      watch_cancel = none;
      status = record {
        enabled = cfg.enabled;
        topic = cfg.topic;
        topics = clone_topic_routes cfg.topics;
        auto_watch = cfg.auto_watch;
        auto_apply = cfg.auto_apply;
        started = false;
        subscribed = false;
        watching = false;
        pending_event_id = [];
        pending_topic = [];
        pending_size = pos 0;
        pending_hash_prefix = [];
        last_action = unset;
        last_event_id = [];
        last_size = pos 0;
        last_hash = [];
        last_error = none;
        last_updated = env.now 0;
      };
      log = [];
      clock_reads = 1;
      ids_drawn = 0;
      watchers = 0;
    })
