-- ===== src/Runtime/Sync/Stops.antt =====
-- What Stop leaves subscribed.
use myflowhub_clipboardnode.Base.{
  ℕ, ◌≡◌, refl, ap, ◌∙◌, Bool, true, false, not, ◌&&◌, Option, none, some, List, Text, Error, arith,
  Bool-cases,
}
use myflowhub_clipboardnode.Dedupe.{member}
use myflowhub_clipboardnode.Config.{Config}
use myflowhub_clipboardnode.Runtime.{Runtime, Env, perform}
use myflowhub_clipboardnode.Runtime.Bus.{subscription_topics}
use myflowhub_clipboardnode.Runtime.Lifecycle.{
  Done, stop, stopped, call_cancel_watch, call_cancel_run, close_if, stop_error, unsubscribe_if,
}
use myflowhub_clipboardnode.Runtime.Sync.{
  active, Leaves, failed_at, left, unsubscribe_topics-Leaves,
}
use myflowhub_clipboardnode.Runtime.Sync.Follows.{Follows, Settles, failed, settled}

none_active :
    (started enabled m : Bool)
    → true ≡ (started && enabled)
    → (not m && (started && (enabled && m))) ≡ false
none_active started enabled m h =
    ground (arith, Bool-cases started, Bool-cases enabled, Bool-cases m)

none_on :
    (started enabled m : Bool) → false ≡ (started && enabled) → (started && (enabled && m)) ≡ false
none_on started enabled m h = ground (arith, Bool-cases started, Bool-cases enabled, Bool-cases m)

module _ (env : Env) where
  -- The state in which Stop has cancelled the watcher and the run.
  abbrev cancelled : Runtime → Runtime
  cancelled r = call_cancel_watch env r.watch_cancel (call_cancel_run env r.cancel (stopped env r))

  data Halts (r s : Runtime) : Type 0 where
    halts :
        s.started ≡ false
        → s.cfg ≡ r.cfg
        → s.has_topic_bus ≡ r.has_topic_bus
        → ((t : Text) → active t s.log ≡ active t r.log)
        → Halts r s

  halted :
      (r : Runtime) (c : Bool) (w : Option ℕ)
      → Halts r (call_cancel_watch env w (call_cancel_run env c (stopped env r)))
  unfolding stopped perform
  halted r true none = halts refl refl refl (λ t. refl)
  halted r true (some n) = halts refl refl refl (λ t. refl)
  halted r false none = halts refl refl refl (λ t. refl)
  halted r false (some n) = halts refl refl refl (λ t. refl)

  closed_with :
      (s : Runtime) (cfg : Config) (adapter : Bool) (e : Option Error)
      → s.started ≡ false
      → s.cfg ≡ cfg
      → ((t : Text) → active t s.log ≡ false)
      → Settles false cfg ((close_if env adapter s).0, stop_error env e (close_if env adapter s).1)
  unfolding perform
  closed_with s cfg true e off same quiet = settled off same (λ t. quiet t ∙ rw off refl)
  closed_with s cfg false e off same quiet = settled off same (λ t. quiet t ∙ rw off refl)

  left_with :
      (r s : Runtime) (ts : List Text) (o : Done)
      → Halts r s
      → ((t : Text) → (not (member t ts) && active t r.log) ≡ false)
      → Leaves env s ts o
      → Settles false r.cfg (
        (close_if env r.has_clipboard o.0).0,
        stop_error env o.1 (close_if env r.has_clipboard o.0).1,
      )
  left_with r s ts o (halts off same bus logged) gone (failed_at e h) =
      failed _ (ap (λ x. stop_error env x (close_if env r.has_clipboard o.0).1) h)
  left_with r s ts o (halts off same bus logged) gone (left h frame now) =
      closed_with o.0 r.cfg r.has_clipboard o.1 (ap (λ x. x.started) frame ∙ off)
        (ap (λ x. x.cfg) frame ∙ same)
        (λ t. now t ∙ ap (λ x. not (member t ts) && x) (logged t) ∙ gone t)

  stopped_with :
      (r s : Runtime) (flag : Bool)
      → r.has_topic_bus ≡ true
      → Follows r
      → flag ≡ (r.started && r.cfg.enabled)
      → Halts r s
      → Settles false r.cfg (
        (close_if env r.has_clipboard (unsubscribe_if env flag s (subscription_topics r.cfg)).0).0,
        stop_error env
            (unsubscribe_if env flag s (subscription_topics r.cfg)).1
            (close_if env r.has_clipboard
              (unsubscribe_if env flag s (subscription_topics r.cfg)).0).1,
      )
  stopped_with r s true bus f on (halts off same b logged) =
      left_with r s (subscription_topics r.cfg) _ (halts off same b logged)
        (λ t.
          ap (λ x. not (member t (subscription_topics r.cfg)) && x) (f t)
          ∙ none_active r.started r.cfg.enabled (member t (subscription_topics r.cfg)) on)
        (unsubscribe_topics-Leaves env s (subscription_topics r.cfg) (b ∙ bus))
  stopped_with r s false bus f on (halts off same b logged) =
      closed_with s r.cfg r.has_clipboard none off same (λ t.
        logged t ∙ f t ∙ none_on r.started r.cfg.enabled (member t (subscription_topics r.cfg)) on)

  -- Stop, unless it returns an error, leaves the runtime stopped with its configuration and no topic
  -- active. The runtime has a hub, its subscriptions follow its configuration, and it counts as
  -- subscribed just when it is started and enabled.
  pub stop-Settles :
      (r : Runtime)
      → r.has_topic_bus ≡ true
      → Follows r
      → r.subscribed ≡ (r.started && r.cfg.enabled)
      → Settles false r.cfg (stop env r)
  unfolding stop
  stop-Settles r bus f flag =
      stopped_with r (cancelled r) r.subscribed bus f flag (halted r r.cancel r.watch_cancel)
