-- ===== src/Runtime/Lifecycle.antt =====
-- Start, Stop, UpdateConfig and OnConnectivityRestored.
use myflowhub_clipboardnode.Base.{
  ℕ, suc, Bool, true, false, not, ◌&&◌, ◌||◌, Option, none, some, List, [], ◌∷◌, Text, codes,
  if◌then◌else◌, Error, ok, err, wrapped, topicbus_required, clipboard_required,
}
use myflowhub_clipboardnode.Config.{Config, normalize_config}
use myflowhub_clipboardnode.Runtime.{
  Runtime, Env, perform, stamp, record_failure, decision, config_fields, disabled, transport_failed,
  watch_text, cancel_watch, cancel_run, close_clipboard,
}
use myflowhub_clipboardnode.Runtime.Bus.{
  subscription_topics, topics_to_subscribe, topics_to_unsubscribe, subscribe_topics,
  unsubscribe_topics,
}

abbrev pub Done : Type 0
Done = Runtime × Option Error

module _ (env : Env) where
  -- A cancel function that is called if it is there; it returns nothing.
  abbrev pub call_cancel_run : Bool → Runtime → Runtime
  call_cancel_run true r = (perform env r cancel_run).0
  call_cancel_run false r = r

  abbrev pub call_cancel_watch : Option ℕ → Runtime → Runtime
  call_cancel_watch (some n) r = (perform env r (cancel_watch n)).0
  call_cancel_watch none r = r

  abbrev drop_run : Runtime → Runtime
  drop_run r = record r { run_ctx = false; cancel = false }

  -- clearStartState
  unfoldable pub clear_start_state : Runtime → Runtime
  clear_start_state r = stamp env (record r {
    started = false;
    subscribed = false;
    watching = false;
    run_ctx = false;
    cancel = false;
    watch_cancel = none;
    status = record r.status { started = false; subscribed = false };
  })

  -- The cleanup of Start after an error e of the hub or of the watcher.
  unfoldable pub abort_start : Runtime → List Text → Text → Error → Done
  unfolding clear_start_state
  abort_start r subscribed what e =
      let cleaned = (unsubscribe_topics env r subscribed).0 in
      let cleared = clear_start_state (perform env cleaned cancel_run).0 in
      (record_failure env cleared (decision transport_failed) e, some (wrapped what [] e))

  unfoldable pub mark_started : Runtime → Option ℕ → Runtime
  mark_started r watch_cancel = stamp env (record r {
    started = true;
    subscribed = true;
    watching = r.cfg.auto_watch;
    watch_cancel = watch_cancel;
    status = record r.status { started = true; subscribed = true; watching = r.cfg.auto_watch };
  })

  -- Start after its topics are subscribed.
  unfoldable pub start_watching : Runtime → List Text → Done
  unfolding abort_start mark_started
  start_watching r subscribed =
      if not r.cfg.auto_watch
      then (mark_started r none, none)
      else let n = r.watchers in
        let watched = perform env (record r { watchers = suc n }) (watch_text n) in
        elim watched.1 [
          | some e ↦
              abort_start (perform env watched.0 (cancel_watch n)).0 subscribed
                (codes "watch clipboard text") e
          | none ↦ (mark_started watched.0 (some n), none)
        ]

  unfoldable pub start_enabled : Runtime → Done
  unfolding abort_start start_watching
  start_enabled r =
      let tried = subscribe_topics env r (subscription_topics r.cfg) in
      elim tried.2 [
        | some e ↦ abort_start tried.0 tried.1 (codes "subscribe clipboard topics") e
        | none ↦ start_watching tried.0 tried.1
      ]

  unfoldable pub start : Runtime → Done
  unfolding start_enabled
  start r =
      let running = record r { run_ctx = true; cancel = true } in
      if r.started
      then (r, none)
      else if not r.cfg.enabled
      then (
        stamp env (record running {
          started = true;
          status = record r.status { started = true; last_action = disabled };
        }),
        none,
      )
      else if not r.has_topic_bus
      then (drop_run (perform env running cancel_run).0, some topicbus_required)
      else if (r.cfg.auto_watch || r.cfg.auto_apply) && not r.has_clipboard
      then (drop_run (perform env running cancel_run).0, some clipboard_required)
      else start_enabled running

  abbrev pub close_if : Bool → Runtime → Done
  close_if true r = perform env r close_clipboard
  close_if false r = (r, none)

  abbrev pub stop_error : Option Error → Option Error → Option Error
  stop_error (some e) closed = some (wrapped (codes "unsubscribe clipboard topics") [] e)
  stop_error none (some e) = some (wrapped (codes "close clipboard adapter") [] e)
  stop_error none none = none

  -- The state that Stop leaves before it makes its calls; `status.watching` is not reset.
  unfoldable pub stopped : Runtime → Runtime
  stopped r = stamp env (record r {
    started = false;
    subscribed = false;
    watching = false;
    run_ctx = false;
    cancel = false;
    watch_cancel = none;
    status = record r.status { started = false; subscribed = false };
  })

  abbrev pub unsubscribe_if : Bool → Runtime → List Text → Done
  unsubscribe_if true r ts = unsubscribe_topics env r ts
  unsubscribe_if false r ts = (r, none)

  unfoldable pub stop : Runtime → Done
  unfolding stopped
  stop r =
      let cancelled = call_cancel_watch r.watch_cancel (call_cancel_run r.cancel (stopped r)) in
      let left = unsubscribe_if r.subscribed cancelled (subscription_topics r.cfg) in
      let closed = close_if r.has_clipboard left.0 in (closed.0, stop_error left.1 closed.1)

  -- UpdateConfig before Start, or while stopped.
  unfoldable pub adopt_config : Runtime → Config → Runtime
  adopt_config r next = stamp env (record r { cfg = next; status = config_fields next r.status })

  -- The state that is written when sync is disabled, the watcher being cancelled.
  abbrev pub sync_off : Runtime → Config → Runtime
  sync_off r next = stamp env (record r {
    cfg = next;
    subscribed = false;
    watching = false;
    watch_cancel = none;
    pending_remote = [];
    pending_order = [];
    status = record (config_fields next r.status) {
      subscribed = false;
      watching = false;
      last_action = disabled;
      last_error = none;
    };
  })

  -- UpdateConfig from enabled to disabled.
  unfoldable pub disable_sync : Runtime → Config → Done
  disable_sync r next =
      let off = sync_off (call_cancel_watch r.watch_cancel r) next in
      let left = unsubscribe_topics env off (subscription_topics r.cfg) in
      elim left.1 [
        | some e ↦ (
          record left.0 { status = record left.0.status { last_error = some e } },
          some (wrapped (codes "unsubscribe clipboard topics") [] e),
        )
        | none ↦ (left.0, none)
      ]

  -- The end of UpdateConfig: `stopping` is shouldStopWatcher, `watcher` the watcher just started.
  unfoldable pub commit_config : Runtime → Config → Bool → Option ℕ → Runtime
  commit_config r next stopping watcher =
      let kept = if stopping then record r { watching = false; watch_cancel = none } else r in
      let set = stamp env (record kept {
        cfg = next;
        subscribed = next.enabled;
        status = record (config_fields next r.status) {
          subscribed = next.enabled;
          watching = kept.watching;
        };
      }) in
      elim watcher [
        | none ↦ set
        | some n ↦ record set {
          watching = true;
          watch_cancel = some n;
          status = record set.status { watching = true };
        }
      ]

  -- UpdateConfig once the watcher is dealt with: unsubscribe what is no longer wanted, and commit.
  unfoldable pub finish_update : Runtime → Config → List Text → List Text → Bool → Option ℕ → Done
  unfolding commit_config
  finish_update r next added dropped stopping watcher =
      let left = unsubscribe_topics env r dropped in
      elim left.1 [
        | some e ↦ (
          record_failure env (unsubscribe_topics env left.0 added).0 (decision transport_failed) e,
          some (wrapped (codes "unsubscribe clipboard topics") [] e),
        )
        | none ↦ (commit_config left.0 next stopping watcher, none)
      ]

  -- The start of a watcher in UpdateConfig.
  unfoldable pub begin_watching : Runtime → Config → List Text → List Text → Bool → Done
  unfolding finish_update
  begin_watching r next added dropped stopping =
      let n = r.watchers in
      let watched = perform env (record r { watchers = suc n }) (watch_text n) in
      elim watched.1 [
        | some e ↦ (
          record_failure env
              (unsubscribe_topics env (perform env watched.0 (cancel_watch n)).0 added).0
              (decision transport_failed) e,
          some (wrapped (codes "watch clipboard text") [] e),
        )
        | none ↦ finish_update watched.0 next added dropped stopping (some n)
      ]

  -- UpdateConfig once the new topics are subscribed.
  unfoldable pub update_watcher : Runtime → Config → List Text → List Text → Done
  unfolding begin_watching finish_update
  update_watcher r next added dropped =
      let stopping = r.watching && (not next.enabled || not next.auto_watch) in
      let cancelled = if stopping then call_cancel_watch r.watch_cancel r else r in
      if next.enabled && next.auto_watch && not r.watching
      then begin_watching cancelled next added dropped stopping
      else finish_update cancelled next added dropped stopping none

  abbrev pub subscribe_added : Runtime → List Text → Runtime × List Text × Option Error
  subscribe_added r [] = (r, [], none)
  subscribe_added r (t ∷ ts) = subscribe_topics env r (t ∷ ts)

  -- UpdateConfig of a started runtime that is not being disabled.
  unfoldable pub switch_config : Runtime → Config → Done
  unfolding update_watcher
  switch_config r next =
      let added = topics_to_subscribe r.cfg next in
      let dropped = topics_to_unsubscribe r.cfg next in
      let tried = subscribe_added r added in
      elim tried.2 [
        | some e ↦ (
          record_failure env (unsubscribe_topics env tried.0 tried.1).0 (decision transport_failed)
              e,
          some (wrapped (codes "subscribe clipboard topics") [] e),
        )
        | none ↦ update_watcher tried.0 next added dropped
      ]

  unfoldable pub update_normalized : Runtime → Config → Done
  unfolding switch_config disable_sync adopt_config
  update_normalized r next =
      if not r.started
      then (adopt_config r next, none)
      else if next.enabled && not r.has_topic_bus
      then (r, some topicbus_required)
      else if next.enabled && (next.auto_watch || next.auto_apply) && not r.has_clipboard
      then (r, some clipboard_required)
      else if r.cfg.enabled && not next.enabled
      then disable_sync r next
      else switch_config r next

  unfoldable pub update_config : Runtime → Config → Done
  unfolding update_normalized
  update_config r next = elim (normalize_config next) [
    | err e ↦ (r, some e)
    | ok normal ↦ update_normalized r normal
  ]

  unfoldable pub on_connectivity_restored : Runtime → Done
  on_connectivity_restored r =
      let tried = subscribe_topics env r (subscription_topics r.cfg) in
      if not r.started || not r.cfg.enabled
      then (r, none)
      else if not r.has_topic_bus
      then (r, some topicbus_required)
      else elim tried.2 [
        | some e ↦ (
          record_failure env (unsubscribe_topics env tried.0 tried.1).0 (decision transport_failed)
              e,
          some (wrapped (codes "resubscribe clipboard topics") [] e),
        )
        | none ↦ (
          stamp env (record tried.0 {
            subscribed = true;
            status = record tried.0.status { subscribed = true };
          }),
          none,
        )
      ]
