-- ===== src/Runtime/Sync/Updates.antt =====
-- UpdateConfig that succeeds moves the hub's subscriptions to the new configuration.
use myflowhub_clipboardnode.Base.{
  ◌≡◌, refl, ap, sym, ◌∙◌, inl, inr, Bool, true, false, not, ◌&&◌, ◌||◌, List, [], ◌∷◌, Text, arith,
  ok, Bool-cases, if_elim, not-true, not-false,
}
use myflowhub_clipboardnode.Dedupe.{member}
use myflowhub_clipboardnode.Config.{Config, normalize_config}
use myflowhub_clipboardnode.Runtime.{Runtime, Env}
use myflowhub_clipboardnode.Runtime.Bus.{
  subscription_topics, topics_to_subscribe, topics_to_unsubscribe, unsubscribe_topics,
}
use myflowhub_clipboardnode.Runtime.Lifecycle.{
  Done, subscribe_added, switch_config, call_cancel_watch, disable_sync, sync_off, adopt_config,
  update_normalized, update_config,
}
use myflowhub_clipboardnode.Runtime.Sync.{
  switch-topics, Subscribes, refused, taken, Leaves, failed_at, left, unsubscribe_topics-Leaves,
  subscribe_topics-Subscribes,
}
use myflowhub_clipboardnode.Runtime.Sync.Follows.{
  Follows, Settles, failed, settled, update_watcher-Settles, Cancels, cancels,
  call_cancel_watch-Cancels,
}

true-false : ¬ (true ≡ false)
true-false h = cc

both-left : (a b : Bool) → (a && b) ≡ true → a ≡ true
both-left true b h = refl
both-left false b h = cc

both-right : (a b : Bool) → (a && b) ≡ true → b ≡ true
both-right true b h = h
both-right false b h = cc

flagged : (a b : Bool) (cfg : Config) (o : Done) → a ≡ b → Settles b cfg o → Settles a cfg o
flagged a b cfg o e (failed x h) = failed x h
flagged a b cfg o e (settled s c f) = settled (s ∙ sym e) c f

-- A topic of the disabled configuration is no longer active.
none_left :
    (started enabled m' m : Bool)
    → enabled ≡ false
    → (not m && (true && (true && m))) ≡ (started && (enabled && m'))
none_left started enabled m' m off = ground (arith, Bool-cases started, Bool-cases m)

module _ (env : Env) where
  subscribe_added-Subscribes :
      (r : Runtime) (ts : List Text) → Subscribes env r ts (subscribe_added env r ts)
  unfolding member
  subscribe_added-Subscribes r [] = taken refl refl (λ t. refl)
  subscribe_added-Subscribes r (t ∷ ts) = subscribe_topics-Subscribes env r (t ∷ ts)

  switched_with :
      (r : Runtime) (next : Config)
      → r.has_topic_bus ≡ true
      → r.started ≡ true
      → Follows r
      → Subscribes env r
          (topics_to_subscribe r.cfg next)
          (subscribe_added env r (topics_to_subscribe r.cfg next))
      → Settles true next (switch_config env r next)
  unfolding switch_config
  switched_with r next bus on f (refused e h) = rw (h, switch_config) (failed _ refl)
  switched_with r next bus on f (taken h frame now) =
      rw (h, switch_config)
        (update_watcher-Settles env (subscribe_added env r (topics_to_subscribe r.cfg next)).0 next
          (topics_to_subscribe r.cfg next) (topics_to_unsubscribe r.cfg next)
          (ap (λ x. x.has_topic_bus) frame ∙ bus) (ap (λ x. x.started) frame ∙ on)
          (λ t.
            ap (λ x. not (member t (topics_to_unsubscribe r.cfg next)) && x)
              (now t ∙ ap (λ x. member t (topics_to_subscribe r.cfg next) || x) (f t ∙ rw on refl))
            ∙ switch-topics r.cfg next t))

  disabled_with :
      (r : Runtime) (next : Config)
      → r.started ≡ true
      → next.enabled ≡ false
      → r.cfg.enabled ≡ true
      → Follows r
      → Cancels env r (call_cancel_watch env r.watch_cancel r)
      → Leaves env
          (sync_off env (call_cancel_watch env r.watch_cancel r) next)
          (subscription_topics r.cfg)
          (unsubscribe_topics env
            (sync_off env (call_cancel_watch env r.watch_cancel r) next)
            (subscription_topics r.cfg))
      → Settles true next (disable_sync env r next)
  unfolding disable_sync
  disabled_with r next on off was f c (failed_at e h) = rw (h, disable_sync) (failed _ refl)
  disabled_with r next on off was f (cancels b o l) (left h frame now) =
      rw (h, disable_sync)
        (settled (ap (λ x. x.started) frame ∙ (o ∙ on)) (ap (λ x. x.cfg) frame) (λ t.
          now t
          ∙ ap (λ x. not (member t (subscription_topics r.cfg)) && x)
              (l t ∙ f t ∙ rw (on, was) refl)
          ∙ none_left _ _ _ (member t (subscription_topics r.cfg))
              (ap (λ x. x.cfg.enabled) frame ∙ off)))

  disable_sync-Settles :
      (r : Runtime) (next : Config)
      → r.has_topic_bus ≡ true
      → r.started ≡ true
      → next.enabled ≡ false
      → r.cfg.enabled ≡ true
      → Follows r
      → Cancels env r (call_cancel_watch env r.watch_cancel r)
      → Settles true next (disable_sync env r next)
  disable_sync-Settles r next bus on off was f (cancels b o l) =
      disabled_with r next on off was f (cancels b o l) (
        unsubscribe_topics-Leaves env (sync_off env (call_cancel_watch env r.watch_cancel r) next)
          (subscription_topics r.cfg) (b ∙ bus))

  update_started :
      (r : Runtime) (next : Config)
      → r.has_topic_bus ≡ true
      → r.started ≡ true
      → Follows r
      → Settles true next (update_normalized env r next)
  unfolding update_normalized
  update_started r next bus on f =
      if_elim (Settles true next) (not r.started)
        (λ off. absurd (true-false (sym on ∙ not-true r.started off)))
        (λ _.
          if_elim (Settles true next) (next.enabled && not r.has_topic_bus) (λ alone. failed _ refl)
            (λ _.
              if_elim (Settles true next)
                ((next.enabled && (next.auto_watch || next.auto_apply)) && not r.has_clipboard)
                (λ missing. failed _ refl)
                (λ _.
                  if_elim (Settles true next) (r.cfg.enabled && not next.enabled)
                    (λ h.
                      disable_sync-Settles r next bus on (not-true next.enabled (both-right _ _ h))
                        (both-left _ _ h) f (call_cancel_watch-Cancels env r r.watch_cancel))
                    (λ _.
                      switched_with r next bus on f
                        (subscribe_added-Subscribes r (topics_to_subscribe r.cfg next))))))

  update_stopped :
      (r : Runtime) (next : Config)
      → r.started ≡ false
      → Follows r
      → Settles false next (update_normalized env r next)
  unfolding update_normalized adopt_config
  update_stopped r next off f =
      if_elim (Settles false next) (not r.started) (λ _. settled off refl (λ t. f t ∙ rw off refl))
        (λ on. absurd (true-false (sym (not-false r.started on) ∙ off)))

  update_normalized-Settles :
      (r : Runtime) (next : Config)
      → r.has_topic_bus ≡ true
      → Follows r
      → Settles r.started next (update_normalized env r next)
  update_normalized-Settles r next bus f = elim (Bool-cases r.started) [
    | inl on ↦ flagged _ true next _ on (update_started r next bus on f)
    | inr off ↦ flagged _ false next _ off (update_stopped r next off f)
  ]

  -- An update of the configuration that succeeds, of a runtime with a hub whose subscriptions follow
  -- its configuration, leaves it started or not as it was, with the new configuration normalised, and
  -- its subscriptions follow that.
  pub update_config-Settles :
      (r : Runtime) (raw next : Config)
      → normalize_config raw ≡ ok next
      → r.has_topic_bus ≡ true
      → Follows r
      → Settles r.started next (update_config env r raw)
  unfolding update_config
  update_config-Settles r raw next good bus f =
      rw (good, update_config) (update_normalized-Settles r next bus f)
