-- ===== src/Runtime/Sync/Named.antt =====
-- New and Start give the runtime the node, instance and configuration that it was asked for.
use mathlib.Core.Path.{subst}
use myflowhub_clipboardnode.Base.{
  ◌≡◌, refl, sym, ap, ◌∙◌, inl, inr, true, false, not, ◌&&◌, ◌||◌, none, some, List, Text, Error,
  ok, ◌==◌, is_empty, Bool-cases, Option-cases, if_elim, >>=-eq-ok, fail_if-eq-ok, ok_inj,
}
use myflowhub_clipboardnode.Config.{normalize_config}
use myflowhub_clipboardnode.Runtime.{Runtime, Env, perform, watch_text, new_runtime}
use myflowhub_clipboardnode.Runtime
use myflowhub_clipboardnode.Runtime.Bus.{subscription_topics, subscribe_topics}
use myflowhub_clipboardnode.Runtime.Lifecycle.{
  Done, start, start_enabled, start_watching, mark_started, abort_start,
}
use myflowhub_clipboardnode.Runtime.Sync.{Subscribes, refused, taken, subscribe_topics-Subscribes}
use myflowhub_clipboardnode.Runtime.Sync.Follows.{Follows}

-- The runtime fails, or runs as the same node and instance.
pub data Keeps (r : Runtime) (o : Done) : Type 0 where
  failed : (e : Error) → o.1 ≡ some e → Keeps r o
  kept : o.1 ≡ none → o.0.node_id ≡ r.node_id → o.0.instance_id ≡ r.instance_id → Keeps r o

module _ (env : Env) where
  start_watching-Keeps :
      (r s : Runtime) (ts : List Text)
      → s.node_id ≡ r.node_id
      → s.instance_id ≡ r.instance_id
      → Keeps r (start_watching env s ts)
  unfolding start_watching mark_started abort_start perform
  start_watching-Keeps r s ts node instance_same = elim (Bool-cases s.cfg.auto_watch) [
    | inr manual ↦ simp manual (kept refl node instance_same)
    | inl automatic ↦ elim (Option-cases (env.answer s.log (watch_text s.watchers))) [
      | inl fine ↦ simp automatic (rw (fine, start_watching) (kept refl node instance_same))
      | inr (e, bad) ↦ simp automatic (rw (bad, start_watching) (failed _ refl))
    ]
  ]

  start_enabled-Keeps :
      (r : Runtime)
      → Subscribes env r
          (subscription_topics r.cfg)
          (subscribe_topics env r (subscription_topics r.cfg))
      → Keeps r (start_enabled env r)
  unfolding start_enabled abort_start
  start_enabled-Keeps r (refused e h) = rw (h, start_enabled) (failed _ refl)
  start_enabled-Keeps r (taken h frame now) =
      rw (h, start_enabled)
        (start_watching-Keeps r (subscribe_topics env r (subscription_topics r.cfg)).0
          (subscribe_topics env r (subscription_topics r.cfg)).1
          (ap (λ (x : Runtime). x.node_id) frame) (ap (λ (x : Runtime). x.instance_id) frame))

  pub start-Keeps : (r : Runtime) → Keeps r (start env r)
  unfolding start
  start-Keeps r =
      if_elim (Keeps r) r.started (λ on. kept refl refl refl)
        (λ fresh.
          if_elim (Keeps r) (not r.cfg.enabled) (λ off. kept refl refl refl)
            (λ on.
              if_elim (Keeps r) (not r.has_topic_bus) (λ alone. failed _ refl)
                (λ bus.
                  if_elim (Keeps r) ((r.cfg.auto_watch || r.cfg.auto_apply) && not r.has_clipboard)
                    (λ missing. failed _ refl)
                    (λ there. renamed r (
                      start_enabled-Keeps (record r { run_ctx = true; cancel = true })
                        (subscribe_topics-Subscribes env
                          (record r { run_ctx = true; cancel = true })
                          (subscription_topics r.cfg)))))))
    where
      renamed :
          (r : Runtime) {o : Done}
          → Keeps (record r { run_ctx = true; cancel = true }) o
          → Keeps r o
      renamed r (failed e h) = failed e h
      renamed r (kept h n i) = kept h n i

  -- What New returns.
  pub record Made (opts : Runtime.Options) (r : Runtime) : Type 0 where
    pub node : r.node_id ≡ opts.node_id
    pub node_positive : (opts.node_id == 0) ≡ false
    pub instance_same : r.instance_id ≡ opts.instance_id
    pub config : normalize_config opts.config ≡ ok r.cfg
    pub follows : Follows r

  pub new_runtime-Made :
      (opts : Runtime.Options) (r : Runtime) → new_runtime env opts ≡ ok r → Made opts r
  unfolding new_runtime
  new_runtime-Made opts r h =
      let (cfg, normal, h₁) = >>=-eq-ok (normalize_config opts.config) _ h in
      let (node, h₂) = fail_if-eq-ok (opts.node_id == 0) _ _ h₁ in
      let (_, h₃) = fail_if-eq-ok (is_empty opts.instance_id) _ _ h₂ in
      let same = sym (ok_inj h₃) in
      record {
        node = ap (λ (x : Runtime). x.node_id) same;
        node_positive = node;
        instance_same = ap (λ (x : Runtime). x.instance_id) same;
        config = normal ∙ ap (λ (x : Runtime). ok x.cfg) (sym same);
        follows = subst Follows (ok_inj h₃) (λ t. refl);
      }
