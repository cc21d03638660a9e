-- ===== src/Runtime/Sync/Follows.antt =====
-- After Start, Stop and UpdateConfig that succeed, the hub's subscriptions follow the configuration.
use myflowhub_clipboardnode.Base.{
  ℕ, ◌≡◌, refl, ap, sym, ◌∙◌, inl, inr, Bool, true, false, not, ◌&&◌, ◌||◌, Option, none, some,
  List, Text, Error, arith, Bool-cases, if_elim, not-true, not-false, Option-cases, if◌then◌else◌,
}
use myflowhub_clipboardnode.Dedupe.{member}
use myflowhub_clipboardnode.Config.{Config}
use myflowhub_clipboardnode.Runtime.{Runtime, Env, perform, watch_text}
use myflowhub_clipboardnode.Runtime.Bus.{subscription_topics, subscribe_topics, unsubscribe_topics}
use myflowhub_clipboardnode.Runtime.Lifecycle.{
  Done, start, start_enabled, start_watching, mark_started, abort_start, call_cancel_watch,
  commit_config, finish_update, begin_watching, update_watcher,
}
use myflowhub_clipboardnode.Runtime.Sync.{
  active, Subscribes, refused, taken, Leaves, failed_at, left, unsubscribe_topics-Leaves,
  subscribe_topics-Subscribes,
}

-- The active topics are those of the configuration while the runtime is started and enabled, and
-- none otherwise.
abbrev pub Follows : Runtime → Type 0
Follows r =
    (t : Text)
    → active t r.log ≡ (r.started && (r.cfg.enabled && member t (subscription_topics r.cfg)))

-- An operation that failed, or after which the runtime is started or not as told, has the
-- configuration told, and its subscriptions follow it.
pub data Settles (started : Bool) (cfg : Config) (o : Done) : Type 0 where
  failed : (e : Error) → o.1 ≡ some e → Settles started cfg o
  settled : o.0.started ≡ started → o.0.cfg ≡ cfg → Follows o.0 → Settles started cfg o

pub moved :
    (started : Bool) (a b : Config) (o : Done) → a ≡ b → Settles started a o → Settles started b o
moved started a b o e (failed x h) = failed x h
moved started a b o e (settled s c f) = settled s (c ∙ e) f

module _ (env : Env) where
  start_watching-Settles :
      (r : Runtime) (ts : List Text)
      → ((t : Text) → active t r.log ≡ (r.cfg.enabled && member t (subscription_topics r.cfg)))
      → Settles true r.cfg (start_watching env r ts)
  unfolding start_watching mark_started abort_start perform
  start_watching-Settles r ts now = elim (Bool-cases r.cfg.auto_watch) [
    | inr manual ↦ simp manual (settled refl refl now)
    | inl automatic ↦ elim (Option-cases (env.answer r.log (watch_text r.watchers))) [
      | inl fine ↦ simp automatic (rw (fine, start_watching) (settled refl refl now))
      | inr (e, bad) ↦ simp automatic (rw (bad, start_watching) (failed _ refl))
    ]
  ]

  subscribed_only :
      (r s : Runtime)
      → r.cfg.enabled ≡ true
      → s ≡ record r { log = s.log }
      → (t : Text)
      → (member t (subscription_topics r.cfg) || false)
        ≡ (s.cfg.enabled && member t (subscription_topics s.cfg))
  subscribed_only r s on frame t =
      (rw on (ground (arith, Bool-cases (member t (subscription_topics r.cfg)))))
      ∙ sym (ap (λ x. x.cfg.enabled && member t (subscription_topics x.cfg)) frame)

  started_with :
      (r : Runtime)
      → r.cfg.enabled ≡ true
      → ((t : Text) → active t r.log ≡ false)
      → Subscribes env r
          (subscription_topics r.cfg)
          (subscribe_topics env r (subscription_topics r.cfg))
      → Settles true r.cfg (start_enabled env r)
  unfolding start_enabled abort_start
  started_with r on quiet (refused e h) = rw (h, start_enabled) (failed _ refl)
  started_with r on quiet (taken h frame now) =
      rw (h, start_enabled)
        (moved true _ r.cfg _ (ap (λ x. x.cfg) frame)
          (start_watching-Settles _ _ (λ t. now t ∙ rw quiet (subscribed_only r _ on frame t))))

  -- A start that succeeds, of a runtime whose subscriptions follow its configuration, leaves it
  -- started with its configuration, and its subscriptions follow that: exactly the topics of the
  -- routes are active when sync is enabled, and none when it is not.
  pub start-Settles : (r : Runtime) → Follows r → Settles true r.cfg (start env r)
  unfolding start
  start-Settles r f =
      if_elim (Settles true r.cfg) r.started (λ on. settled on refl f)
        (λ fresh.
          let quiet : (t : Text) → active t r.log ≡ false = (λ t. f t ∙ rw fresh refl) in
          if_elim (Settles true r.cfg) (not r.cfg.enabled)
            (λ off. settled refl refl (λ t. quiet t ∙ rw (not-true r.cfg.enabled off) refl))
            (λ on.
              if_elim (Settles true r.cfg) (not r.has_topic_bus) (λ alone. failed _ refl)
                (λ bus.
                  if_elim (Settles true r.cfg)
                    ((r.cfg.auto_watch || r.cfg.auto_apply) && not r.has_clipboard)
                    (λ missing. failed _ refl)
                    (λ there.
                      started_with (record r { run_ctx = true; cancel = true }) (not-false _ on)
                        quiet
                        (subscribe_topics-Subscribes env
                          (record r { run_ctx = true; cancel = true })
                          (subscription_topics r.cfg))))))

  commit_config-Settles :
      (r : Runtime) (next : Config) (stopping : Bool) (watcher : Option ℕ)
      → r.started ≡ true
      → ((t : Text) → active t r.log ≡ (next.enabled && member t (subscription_topics next)))
      → Settles true next (commit_config env r next stopping watcher, none)
  unfolding commit_config
  commit_config-Settles r next true none on now = settled on refl (λ t. now t ∙ rw on refl)
  commit_config-Settles r next true (some n) on now = settled on refl (λ t. now t ∙ rw on refl)
  commit_config-Settles r next false none on now = settled on refl (λ t. now t ∙ rw on refl)
  commit_config-Settles r next false (some n) on now = settled on refl (λ t. now t ∙ rw on refl)

  finished_with :
      (r : Runtime) (next : Config) (added dropped : List Text) (stopping : Bool)
      (watcher : Option ℕ)
      → r.started ≡ true
      → ((t : Text)
          → (not (member t dropped) && active t r.log)
            ≡ (next.enabled && member t (subscription_topics next)))
      → Leaves env r dropped (unsubscribe_topics env r dropped)
      → Settles true next (finish_update env r next added dropped stopping watcher)
  unfolding finish_update
  finished_with r next added dropped stopping watcher on now (failed_at e h) =
      rw (h, finish_update) (failed _ refl)
  finished_with r next added dropped stopping watcher on now (left h frame is) =
      rw (h, finish_update)
        (commit_config-Settles _ next stopping watcher (ap (λ x. x.started) frame ∙ on)
          (λ t. is t ∙ now t))

  finish_update-Settles :
      (r : Runtime) (next : Config) (added dropped : List Text) (stopping : Bool)
      (watcher : Option ℕ)
      → r.has_topic_bus ≡ true
      → r.started ≡ true
      → ((t : Text)
          → (not (member t dropped) && active t r.log)
            ≡ (next.enabled && member t (subscription_topics next)))
      → Settles true next (finish_update env r next added dropped stopping watcher)
  finish_update-Settles r next added dropped stopping watcher bus on now =
      finished_with r next added dropped stopping watcher on now
        (unsubscribe_topics-Leaves env r dropped bus)

  begin_watching-Settles :
      (r : Runtime) (next : Config) (added dropped : List Text) (stopping : Bool)
      → r.has_topic_bus ≡ true
      → r.started ≡ true
      → ((t : Text)
          → (not (member t dropped) && active t r.log)
            ≡ (next.enabled && member t (subscription_topics next)))
      → Settles true next (begin_watching env r next added dropped stopping)
  unfolding begin_watching perform
  begin_watching-Settles r next added dropped stopping bus on now =
      elim (Option-cases (env.answer r.log (watch_text r.watchers))) [
        | inl fine ↦
            rw (fine, begin_watching)
              (finish_update-Settles _ next added dropped stopping (some r.watchers) bus on now)
        | inr (e, bad) ↦ rw (bad, begin_watching) (failed _ refl)
      ]

  cancelled : Bool → Runtime → Runtime
  cancelled stopping r = if stopping then call_cancel_watch env r.watch_cancel r else r

  -- Cancelling a watcher changes no subscription.
  pub data Cancels (r s : Runtime) : Type 0 where
    cancels :
        s.has_topic_bus ≡ r.has_topic_bus
        → s.started ≡ r.started
        → ((t : Text) → active t s.log ≡ active t r.log)
        → Cancels r s

  pub call_cancel_watch-Cancels :
      (r : Runtime) (w : Option ℕ) → Cancels r (call_cancel_watch env w r)
  unfolding perform
  call_cancel_watch-Cancels r none = cancels refl refl (λ t. refl)
  call_cancel_watch-Cancels r (some n) = cancels refl refl (λ t. refl)

  cancelled-Cancels : (stopping : Bool) (r : Runtime) → Cancels r (cancelled stopping r)
  unfolding cancelled
  cancelled-Cancels true r = call_cancel_watch-Cancels r r.watch_cancel
  cancelled-Cancels false r = cancels refl refl (λ t. refl)

  after_cancel :
      (r s : Runtime) (next : Config) (added dropped : List Text) (stopping begins : Bool)
      → r.has_topic_bus ≡ true
      → r.started ≡ true
      → ((t : Text)
          → (not (member t dropped) && active t r.log)
            ≡ (next.enabled && member t (subscription_topics next)))
      → Cancels r s
      → Settles true next (
          if begins
          then begin_watching env s next added dropped stopping
          else finish_update env s next added dropped stopping none)
  after_cancel r s next added dropped stopping true bus on now (cancels b o l) =
      begin_watching-Settles s next added dropped stopping (b ∙ bus) (o ∙ on)
        (λ t. ap (λ x. not (member t dropped) && x) (l t) ∙ now t)
  after_cancel r s next added dropped stopping false bus on now (cancels b o l) =
      finish_update-Settles s next added dropped stopping none (b ∙ bus) (o ∙ on)
        (λ t. ap (λ x. not (member t dropped) && x) (l t) ∙ now t)

  pub update_watcher-Settles :
      (r : Runtime) (next : Config) (added dropped : List Text)
      → r.has_topic_bus ≡ true
      → r.started ≡ true
      → ((t : Text)
          → (not (member t dropped) && active t r.log)
            ≡ (next.enabled && member t (subscription_topics next)))
      → Settles true next (update_watcher env r next added dropped)
  unfolding update_watcher cancelled
  update_watcher-Settles r next added dropped bus on now =
      after_cancel r _ next added dropped _ _ bus on now
        (cancelled-Cancels (r.watching && (not next.enabled || not next.auto_watch)) r)
