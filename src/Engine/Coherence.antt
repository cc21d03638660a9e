-- ===== src/Engine/Coherence.antt =====
-- In every run of the engine its parts agree on whether it runs, and its queue of decisions is bounded.
use mathlib.Core.Path.{subst}
use myflowhub_clipboardnode.Base.{
  >>=-eq-ok, fail_if-eq-ok, ok_inj, is_empty, trim_space, ℕ, ◌≤◌, ◌≡◌, refl, sym, ap, ◌∙◌, false,
  not, Option, none, some, List, [], ◌∷◌, Text, Result, ok, err, Error, ltb, length, length-append,
  is_some, arith, if_elim, Option-cases, Result-cases, inl, inr, text_eq,
}
use myflowhub_clipboardnode.Config.{Config, normalize_config}
use myflowhub_clipboardnode.Event.{Platform}
use myflowhub_clipboardnode.Runtime.{Runtime, Env, Decision, Outcome}
use myflowhub_clipboardnode.Runtime.Lifecycle.{update_config}
use myflowhub_clipboardnode.Runtime.Local.{handle_local_text}
use myflowhub_clipboardnode.Runtime.Remote.{Message, handle_topic_bus_message, apply_pending}
use myflowhub_clipboardnode.Client.{AuthState}
use myflowhub_clipboardnode.Engine.{
  stop_error, stop_runtime, Engine, Done, Decided, Transport, decision_limit, record_if,
  emit_decision, is_unset, abandon, started_with, run_runtime, start_made, start_identified,
  start_connected, start_engine, stop_engine, forget, change_identity, update_runtime,
  update_normalized, update_engine, heard, Options, new_engine, or_make, or_draw,
}
use myflowhub_clipboardnode.Engine.Steps.{
  settle, move_decision, send_text, read_clipboard, apply_event, consume_message, consume_decision,
}
use myflowhub_clipboardnode.Engine.Traces.{
  Event, starts, stops, serves_decision, takes_decision, updates, sends, reads, applies,
  serves_message, drifts, tail, step, run,
}

-- The engine runs exactly when it has a runtime, a cancel function and a serving goroutine, and at
-- most 64 decisions wait.
pub record IsCoherent {T : Type 0} (e : Engine T) : Type 0 where
  pub runtime : is_some e.runtime ≡ e.started
  pub cancel : e.cancel ≡ e.started
  pub done : e.done ≡ e.started
  pub bounded : length e.decisions ≤ decision_limit

module _ {T : Type 0} where
  coherent_as :
      (e s : Engine T)
      → is_some s.runtime ≡ is_some e.runtime
      → s.cancel ≡ e.cancel
      → s.done ≡ e.done
      → s.started ≡ e.started
      → length s.decisions ≤ decision_limit
      → IsCoherent e
      → IsCoherent s
  coherent_as e s r c d on bound inv = record {
    runtime = r ∙ inv.runtime ∙ sym on;
    cancel = c ∙ inv.cancel ∙ sym on;
    done = d ∙ inv.done ∙ sym on;
    bounded = bound;
  }

  recorded : (e : Engine T) (m : Option Error) → IsCoherent e → IsCoherent (record_if e m)
  recorded e none inv = inv
  recorded e (some failure) inv = coherent_as e _ refl refl refl refl inv.bounded inv

  emitted : (e : Engine T) (d : Decision) → IsCoherent e → IsCoherent (emit_decision e d)
  unfolding emit_decision
  emitted e d inv =
      if_elim IsCoherent (is_unset d.action) (λ _. inv)
        (λ _.
          if_elim IsCoherent (ltb (length e.decisions) decision_limit)
            (λ room.
              coherent_as e _ refl refl refl refl
                (ground (arith, length-append e.decisions (d ∷ []))) inv)
            (λ full. coherent_as e _ refl refl refl refl inv.bounded inv))

  moved :
      (e : Engine T) (rt : Runtime) (ds : List Decision)
      → e.runtime ≡ some rt
      → IsCoherent e
      → IsCoherent (move_decision e rt ds)
  unfolding move_decision
  moved e rt [] there inv = inv
  moved e rt (d ∷ ds) there inv = emitted _ d (
      coherent_as e _ (ap (λ (x : Option Runtime). is_some x) (sym there)) refl refl refl
        inv.bounded inv)

module _ {T : Type 0} (transport : Transport T) (envs : ℕ → Env) (p : Platform) where
  settled :
      (e : Engine T) (rt : Runtime) (o : Outcome)
      → e.runtime ≡ some rt
      → IsCoherent e
      → IsCoherent (settle transport e rt.log o).0
  settled e rt (s, d, m) there inv =
      recorded (record e { runtime = some s; transport = heard transport e rt.log s.log }) m
        (coherent_as e _ (ap (λ (x : Option Runtime). is_some x) (sym there)) refl refl refl
          inv.bounded inv)

  on_transport : (e : Engine T) (t : T) → IsCoherent e → IsCoherent (record e { transport = t })
  on_transport e t inv = coherent_as e _ refl refl refl refl inv.bounded inv

  with_error :
      (e : Engine T) (t : T) (m : Option Error)
      → IsCoherent e
      → IsCoherent (record e { transport = t; last_error = m })
  with_error e t m inv = coherent_as e _ refl refl refl refl inv.bounded inv

  ran :
      (e : Engine T) (o : Runtime × Option Error)
      → IsCoherent e
      → IsCoherent (run_runtime transport envs e o).0
  unfolding run_runtime abandon started_with
  ran e (rt, none) inv = record {
    runtime = refl;
    cancel = refl;
    done = refl;
    bounded = inv.bounded;
  }
  ran e (rt, some failure) inv = with_error e _ _ inv

  made :
      (e : Engine T) (r : Result Runtime)
      → IsCoherent e
      → IsCoherent (start_made transport envs e r).0
  unfolding start_made abandon
  made e (ok rt) inv = ran _ _ (on_transport e _ inv)
  made e (err failure) inv = with_error e _ _ inv

  identified :
      (e : Engine T) (r : Result AuthState)
      → IsCoherent e
      → IsCoherent (start_identified transport envs e r).0
  unfolding start_identified abandon
  identified e (ok st) inv = made e _ inv
  identified e (err failure) inv = with_error e _ _ inv

  connected :
      (e : Engine T) (o : T × Option Error)
      → IsCoherent e
      → IsCoherent (start_connected transport envs e o).0
  unfolding start_connected
  connected e (t, none) inv = identified _ _ (on_transport e _ inv)
  connected e (t, some failure) inv = with_error e _ _ inv

  stopped : (e : Engine T) → IsCoherent e → IsCoherent (stop_engine transport envs e).0
  unfolding stop_engine
  stopped e inv =
      recorded
        (record e {
          transport = (transport.close (stop_runtime transport envs e e.runtime).0).0;
          runtime = none;
          cancel = false;
          done = false;
          started = false;
        })
        (stop_error transport envs (stop_runtime transport envs e e.runtime).1
          (transport.close (stop_runtime transport envs e e.runtime).0).1)
        (record { runtime = refl; cancel = refl; done = refl; bounded = inv.bounded })

  forgotten :
      (e : Engine T) (cfg : Config) (m : Option Error)
      → IsCoherent e
      → IsCoherent (forget transport envs cfg (e, m)).0
  forgotten e cfg none inv = coherent_as e _ refl refl refl refl inv.bounded inv
  forgotten e cfg (some failure) inv = coherent_as e _ refl refl refl refl inv.bounded inv

  changed :
      (cfg : Config) (o : Done T)
      → IsCoherent o.0
      → IsCoherent (change_identity transport envs cfg o).0
  unfolding change_identity
  changed cfg (e, none) inv =
      forgotten (record e { transport = (transport.clear_auth e.transport).0 }) cfg
        (transport.clear_auth e.transport).1 (on_transport e _ inv)
  changed cfg (e, some failure) inv = coherent_as e _ refl refl refl refl inv.bounded inv

  updated :
      (e : Engine T) (cfg : Config) (r : Option Runtime)
      → r ≡ e.runtime
      → IsCoherent e
      → IsCoherent (update_runtime transport envs (record e { cfg = cfg }) cfg r).0
  unfolding update_runtime
  updated e cfg none there inv = coherent_as e _ refl refl refl refl inv.bounded inv
  updated e cfg (some rt) there inv =
      let o = update_config (envs e.run) rt cfg in
      recorded
        (record e { cfg = cfg; runtime = some o.0; transport = heard transport e rt.log o.0.log })
        o.1
        (coherent_as e _ (ap (λ (x : Option Runtime). is_some x) there) refl refl refl inv.bounded
          inv)

  normalized :
      (e : Engine T) (cfg : Config)
      → IsCoherent e
      → IsCoherent (update_normalized transport envs e cfg).0
  unfolding update_normalized
  normalized e cfg inv =
      if_elim (λ (o : Done T). IsCoherent o.0) (not (text_eq e.cfg.device_id cfg.device_id))
        (λ _. changed cfg _ (stopped e inv)) (λ _. updated e cfg e.runtime refl inv)

  sent :
      (e : Engine T) (text : Text) → IsCoherent e → IsCoherent (send_text transport envs p e text).0
  unfolding send_text
  sent e text inv = elim (Option-cases e.runtime) [
    | inl h ↦ rw (h, send_text) inv
    | inr (rt, h) ↦
        rw (h, send_text) (settled e rt (handle_local_text (envs e.run) p rt text) h inv)
  ]

  read :
      (e : Engine T) (answer : Result Text)
      → IsCoherent e
      → IsCoherent (read_clipboard transport envs p e answer).0
  unfolding read_clipboard
  read e (ok text) inv =
      if_elim (λ (o : Decided T). IsCoherent o.0) (not e.has_clipboard) (λ _. inv)
        (λ _. sent e text inv)
  read e (err failure) inv =
      if_elim (λ (o : Decided T). IsCoherent o.0) (not e.has_clipboard) (λ _. inv)
        (λ _. coherent_as e _ refl refl refl refl inv.bounded inv)

  applied :
      (e : Engine T) (id : Text) → IsCoherent e → IsCoherent (apply_event transport envs p e id).0
  unfolding apply_event
  applied e id inv = elim (Option-cases e.runtime) [
    | inl h ↦ rw (h, apply_event) inv
    | inr (rt, h) ↦ rw (h, apply_event) (settled e rt (apply_pending (envs e.run) rt id) h inv)
  ]

  message_served :
      (e : Engine T) (msg : Message)
      → IsCoherent e
      → IsCoherent (consume_message transport envs p e msg)
  unfolding consume_message
  message_served e msg inv = elim (Option-cases e.runtime) [
    | inl h ↦ rw (h, consume_message) inv
    | inr (rt, h) ↦
        rw (h, consume_message)
          (settled e rt (handle_topic_bus_message (envs e.run) p rt msg) h inv)
  ]

  decision_served : (e : Engine T) → IsCoherent e → IsCoherent (consume_decision transport envs p e)
  unfolding consume_decision
  decision_served e inv = elim (Option-cases e.runtime) [
    | inl h ↦ rw (h, consume_decision) inv
    | inr (rt, h) ↦ rw (h, consume_decision) (moved e rt rt.decisions h inv)
  ]

  taken : (ds : List Decision) → length (tail ds) ≤ length ds
  taken [] = omega arith
  taken (d ∷ ds) = omega arith

  reconfigured :
      (e : Engine T) (given : Config)
      → IsCoherent e
      → IsCoherent (update_engine transport envs e given).0
  unfolding update_engine
  reconfigured e given inv = elim (Result-cases (normalize_config given)) [
    | inr (failure, h) ↦ rw (h, update_engine) inv
    | inl (cfg, h) ↦ rw (h, update_engine) (normalized e cfg inv)
  ]

  step-IsCoherent :
      (e : Engine T) (x : Event T) → IsCoherent e → IsCoherent (step transport envs p e x)
  unfolding start_engine
  step-IsCoherent e starts inv =
      if_elim (λ (o : Done T). IsCoherent o.0) e.started (λ _. inv) (λ _. connected e _ inv)
  step-IsCoherent e stops inv = stopped e inv
  step-IsCoherent e (updates given) inv = reconfigured e given inv
  step-IsCoherent e (sends text) inv = sent e text inv
  step-IsCoherent e (reads answer) inv = read e answer inv
  step-IsCoherent e (applies id) inv = applied e id inv
  step-IsCoherent e (serves_message msg) inv = message_served e msg inv
  step-IsCoherent e serves_decision inv = decision_served e inv
  step-IsCoherent e takes_decision inv =
      coherent_as e _ refl refl refl refl (omega (arith, taken e.decisions, inv.bounded)) inv
  step-IsCoherent e (drifts t) inv = on_transport e t inv

  run-IsCoherent :
      (e : Engine T) (xs : List (Event T)) → IsCoherent e → IsCoherent (run transport envs p e xs)
  unfolding run
  run-IsCoherent e [] inv = inv
  run-IsCoherent e (x ∷ xs) inv =
      run-IsCoherent (step transport envs p e x) xs (step-IsCoherent e x inv)

  fresh :
      (opts : Options T) (at_make : Result T) (drawn : Result Text) (e : Engine T)
      → new_engine opts at_make drawn ≡ ok e
      → IsCoherent e
  unfolding new_engine
  fresh opts at_make drawn e h =
      let (cfg, _, h₁) = >>=-eq-ok (normalize_config opts.config) _ h in
      let (_, h₂) = fail_if-eq-ok (is_empty (trim_space opts.work_dir)) _ _ h₁ in
      let (t, _, h₃) = >>=-eq-ok (or_make opts.transport at_make) _ h₂ in
      let (id, _, h₄) = >>=-eq-ok (or_draw (trim_space opts.instance_id) drawn) _ h₃ in
      subst IsCoherent (ok_inj h₄)
        (record { runtime = refl; cancel = refl; done = refl; bounded = omega arith })

  -- From a new engine, after any sequence of events, the engine runs exactly when it has a runtime, a
  -- cancel function and a serving goroutine, and at most 64 decisions wait to be read.
  pub new_engine-IsCoherent :
      (opts : Options T) (at_make : Result T) (drawn : Result Text) (e : Engine T)
      (xs : List (Event T))
      → new_engine opts at_make drawn ≡ ok e
      → IsCoherent (run transport envs p e xs)
  new_engine-IsCoherent opts at_make drawn e xs h =
      run-IsCoherent e xs (fresh opts at_make drawn e h)
