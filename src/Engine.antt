-- ===== src/Engine.antt =====
-- core/engine/engine.go: one runtime at a time, over a transport to the hub.
--
-- The transport is an interface that core/myflowhub's client fills (Engine/Hub). What the hub, the
-- clipboard and the clock answer to the runtime's own calls is an `Env` for each runtime made; `run`
-- is the number of the current one. What the runtime calls leaves its trace in the transport too
-- (`called`). Each method runs as one step, and the goroutine that serves the
-- runtime is a sequence of `consume` steps, one for each value that it receives.
pub mod Steps
pub mod Hub
pub mod Startup
pub mod Updates
pub mod Traces
pub mod Coherence
pub mod Tests
use myflowhub_clipboardnode.Base.{
  ℕ, suc, Bool, true, false, not, Option, none, some, List, [], ◌∷◌, ◌++◌, Text, codes, text_eq,
  is_empty, trim_space, ltb, length, take, ◌-◌, ℤ, pos, if◌then◌else◌, Result, ok, err, Error,
  ◌>>=◌, ◌>>◌, fail_if, wrapped, wrap_with, work_dir_required, engine_not_started,
  engine_clipboard_required, decision_queue_full,
}
use myflowhub_clipboardnode.Config.{Config, normalize_config}
use myflowhub_clipboardnode.Event.{Platform}
use myflowhub_clipboardnode.Runtime.{
  Runtime, Env, Decision, decision, unset, Action, Outcome, new_runtime, Call, Log,
}
use myflowhub_clipboardnode.Runtime
use myflowhub_clipboardnode.Runtime.Lifecycle.{start, stop, update_config}
use myflowhub_clipboardnode.Runtime.Local.{handle_local_text}
use myflowhub_clipboardnode.Runtime.Remote.{Message, handle_topic_bus_message, apply_pending}
use myflowhub_clipboardnode.Client.{AuthState}
use myflowhub_clipboardnode.Client

-- The transport as the engine uses it; T is its state.
pub record Transport (T : Type 0) : Type 0 where
  pub connect : T → Text → T × Option Error
  pub ensure_identity : T → Text → Text → T × Result AuthState
  pub close : T → T × Option Error
  pub clear_auth : T → T × Option Error
  pub status : T → Client.Status
  -- What a call that the runtime makes, with its answer, leaves of the transport.
  pub called : T → Call → Option Error → T

pub record Status : Type 0 where
  pub connected : Bool
  pub logged_in : Bool
  pub node_id : ℕ
  pub hub_id : ℕ
  pub parent_endpoint : Text
  pub device_id : Text
  pub display_name : Text
  pub device_label : Text
  pub runtime : Option Runtime.Status
  pub last_error : Option Error

-- `cancel` and `done` say whether these are non-nil; `last_error` is none for the empty string.
pub record Engine (T : Type 0) : Type 0 where
  pub has_clipboard : Bool
  pub transport : T
  pub cfg : Config
  pub runtime : Option Runtime
  pub cancel : Bool
  pub done : Bool
  pub started : Bool
  pub last_error : Option Error
  pub instance_id : Text
  pub decisions : List Decision
  pub run : ℕ

pub record Options (T : Type 0) : Type 0 where
  pub config : Config
  pub work_dir : Text
  pub has_clipboard : Bool
  pub transport : Option T
  pub instance_id : Text

abbrev pub decision_limit : ℕ
decision_limit = 64

abbrev pub Done : Type 0 → Type 0
Done T = Engine T × Option Error

abbrev pub Decided : Type 0 → Type 0
Decided T = Engine T × Decision × Option Error

abbrev pub or_make : {T : Type 0} → Option T → Result T → Result T
or_make (some t) made = ok t
or_make none made = made

abbrev pub or_draw : Text → Result Text → Result Text
or_draw given drawn =
    if is_empty given then wrap_with (codes "create instance id") drawn else ok given

-- New; `made` is what myflowhub.New returns and `drawn` a random identifier.
unfoldable pub new_engine : {T : Type 0} → Options T → Result T → Result Text → Result (Engine T)
new_engine opts made drawn = do
  cfg ← normalize_config opts.config
  fail_if (is_empty (trim_space opts.work_dir)) work_dir_required
  transport ← or_make opts.transport made
  instance_id ← or_draw (trim_space opts.instance_id) drawn
  ok (record {
    has_clipboard = opts.has_clipboard;
    transport = transport;
    cfg = cfg;
    runtime = none;
    cancel = false;
    done = false;
    started = false;
    last_error = none;
    instance_id = instance_id;
    decisions = [];
    run = 0;
  })

abbrev pub is_unset : Action → Bool
is_unset unset = true
is_unset _ = false

module _ {T : Type 0} where
  -- recordError, of an error that is not nil
  abbrev pub record_error : Engine T → Error → Engine T
  record_error e failure = record e { last_error = some failure }

  abbrev pub record_if : Engine T → Option Error → Engine T
  record_if e none = e
  record_if e (some failure) = record_error e failure

  -- emitDecision
  unfoldable pub emit_decision : Engine T → Decision → Engine T
  emit_decision e d =
      if is_unset d.action
      then e
      else if ltb (length e.decisions) decision_limit
      then record e { decisions = e.decisions ++ d ∷ [] }
      else record_error e decision_queue_full

module _ {T : Type 0} (transport : Transport T) where
  -- What calls, the newest first, leave of the transport.
  unfoldable pub after_calls : T → Log → T
  after_calls t [] = t
  after_calls t ((call, answer) ∷ l) = transport.called (after_calls t l) call answer

  -- The transport once the runtime's log has grown from `before` to `now`; the runtime calls hub and
  -- clipboard alone, and the calls of the clipboard leave the transport as it is.
  abbrev pub heard : Engine T → Log → Log → T
  heard e before now = after_calls e.transport (take (length now - length before) now)

module _ {T : Type 0} (transport : Transport T) (envs : ℕ → Env) where
  -- Start after an error: the error is recorded and the transport closed, what Close returns dropped.
  unfoldable pub abandon : Engine T → Error → Error → Done T
  abandon e failure returned = (
    record e { transport = (transport.close e.transport).0; last_error = some failure },
    some returned,
  )

  unfoldable pub started_with : Engine T → Runtime → Engine T
  started_with e rt = record e {
    runtime = some rt;
    cancel = true;
    done = true;
    started = true;
    last_error = none;
    run = suc e.run;
  }

  unfoldable pub run_runtime : Engine T → Runtime × Option Error → Done T
  unfolding abandon started_with
  run_runtime e (rt, some failure) = abandon e failure failure
  run_runtime e (rt, none) = (started_with e rt, none)

  -- The options of the runtime that Start makes.
  abbrev pub runtime_options : Engine T → AuthState → Runtime.Options
  runtime_options e st = record {
    config = e.cfg;
    node_id = st.node_id;
    instance_id = e.instance_id;
    has_clipboard = e.has_clipboard;
    has_topic_bus = true;
    decision_buffer = pos 0;
    recent_event_limit = pos 0;
    suppress_hash_limit = pos 0;
  }

  -- Start from the answer of New.
  unfoldable pub start_made : Engine T → Result Runtime → Done T
  unfolding abandon run_runtime after_calls
  start_made e (err failure) = abandon e failure failure
  start_made e (ok rt) =
      let o = start (envs (suc e.run)) rt in
      run_runtime (record e { transport = heard transport e rt.log o.0.log }) o

  -- Start from the answer of EnsureIdentity, with the transport that it left.
  unfoldable pub start_identified : Engine T → Result AuthState → Done T
  unfolding abandon start_made
  start_identified e (err failure) =
      abandon e failure (wrapped (codes "authenticate myflowhub node") [] failure)
  start_identified e (ok st) = start_made e (new_runtime (envs (suc e.run)) (runtime_options e st))

  -- Start from the answer of Connect.
  unfoldable pub start_connected : Engine T → T × Option Error → Done T
  unfolding start_identified
  start_connected e (t, some failure) = (
    record_error (record e { transport = t }) failure,
    some (wrapped (codes "connect myflowhub") [] failure),
  )
  start_connected e (t, none) =
      let identified = transport.ensure_identity t e.cfg.device_id e.cfg.display_name in
      start_identified (record e { transport = identified.0 }) identified.1

  -- Start
  unfoldable pub start_engine : Engine T → Done T
  unfolding start_connected
  start_engine e =
      if e.started
      then (e, none)
      else start_connected e (transport.connect e.transport e.cfg.parent_endpoint)

  abbrev pub stop_error : Option Error → Option Error → Option Error
  stop_error (some failure) closed = some failure
  stop_error none closed = closed

  abbrev pub stop_runtime : Engine T → Option Runtime → T × Option Error
  stop_runtime e none = (e.transport, none)
  stop_runtime e (some rt) = let o = stop (envs e.run) rt in (heard transport e rt.log o.0.log, o.1)

  -- Stop; the wait for the serving goroutine, of two seconds at most, is not modelled.
  unfoldable pub stop_engine : Engine T → Done T
  unfolding after_calls
  stop_engine e =
      let idle = record e { runtime = none; cancel = false; done = false; started = false } in
      let ended = stop_runtime e e.runtime in
      let closed = transport.close ended.0 in
      let failure = stop_error ended.1 closed.1 in
      (record_if (record idle { transport = closed.0 }) failure, failure)

  abbrev pub forget : Config → Engine T × Option Error → Done T
  forget cfg (e, some failure) = (record_error e failure, some failure)
  forget cfg (e, none) = (record e { cfg = cfg }, none)

  -- UpdateConfig with another device, once the engine has stopped
  unfoldable pub change_identity : Config → Done T → Done T
  change_identity cfg (e, some failure) = (record_error e failure, some failure)
  change_identity cfg (e, none) =
      let cleared = transport.clear_auth e.transport in
      forget cfg (record e { transport = cleared.0 }, cleared.1)

  unfoldable pub update_runtime : Engine T → Config → Option Runtime → Done T
  unfolding after_calls
  update_runtime e cfg none = (e, none)
  update_runtime e cfg (some rt) =
      let updated = update_config (envs e.run) rt cfg in
      (
        record_if
            (record e {
              runtime = some updated.0;
              transport = heard transport e rt.log updated.0.log;
            })
            updated.1,
        updated.1,
      )

  unfoldable pub update_normalized : Engine T → Config → Done T
  unfolding change_identity stop_engine update_runtime
  update_normalized e cfg =
      if not (text_eq e.cfg.device_id cfg.device_id)
      then change_identity cfg (stop_engine e)
      else update_runtime (record e { cfg = cfg }) cfg e.runtime

  -- UpdateConfig
  unfoldable pub update_engine : Engine T → Config → Done T
  unfolding update_normalized
  update_engine e given = elim (normalize_config given) [
    | err failure ↦ (e, some failure)
    | ok cfg ↦ update_normalized e cfg
  ]

  -- Status
  unfoldable pub status_of : Engine T → Status
  status_of e =
      let below = transport.status e.transport in
      record {
        connected = below.connected;
        logged_in = below.auth.logged_in;
        node_id = below.auth.node_id;
        hub_id = below.auth.hub_id;
        parent_endpoint = e.cfg.parent_endpoint;
        device_id = e.cfg.device_id;
        display_name = e.cfg.display_name;
        device_label = e.cfg.display_name;
        runtime = elim e.runtime [ none ↦ none | some rt ↦ some rt.status ];
        last_error = elim e.last_error [ none ↦ below.last_error | some failure ↦ some failure ];
      }
