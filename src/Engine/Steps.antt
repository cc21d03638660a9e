-- ===== src/Engine/Steps.antt =====
-- SendText, ReadClipboard, ApplyPending, and the goroutine that serves the runtime.
use myflowhub_clipboardnode.Base.{
  ℕ, not, none, some, List, [], ◌∷◌, Text, codes, if◌then◌else◌, Result, ok, err, wrapped,
  engine_not_started, engine_clipboard_required,
}
use myflowhub_clipboardnode.Event.{Platform}
use myflowhub_clipboardnode.Runtime.{Runtime, Env, Decision, decision, unset, Outcome, Log}
use myflowhub_clipboardnode.Runtime.Local.{handle_local_text}
use myflowhub_clipboardnode.Runtime.Remote.{Message, handle_topic_bus_message, apply_pending}
use myflowhub_clipboardnode.Engine.{
  Engine, Transport, heard, after_calls, Decided, record_error, record_if, emit_decision,
}

module _ {T : Type 0} where
  abbrev pub not_started : Engine T → Decided T
  not_started e = (e, decision unset, some engine_not_started)

  -- The next decision of the runtime goes to the engine's own queue.
  unfoldable pub move_decision : Engine T → Runtime → List Decision → Engine T
  unfolding emit_decision
  move_decision e rt [] = e
  move_decision e rt (d ∷ ds) =
      emit_decision (record e { runtime = some (record rt { decisions = ds }) }) d

module _ {T : Type 0} (transport : Transport T) where
  -- A decision of the runtime, whose log was `before`; its error is recorded.
  abbrev pub settle : Engine T → Log → Outcome → Decided T
  settle e before (rt, d, failure) = (
    record_if (record e { runtime = some rt; transport = heard transport e before rt.log }) failure,
    d,
    failure,
  )

module _ {T : Type 0} (transport : Transport T) (envs : ℕ → Env) (p : Platform) where
  -- SendText
  unfoldable pub send_text : Engine T → Text → Decided T
  unfolding after_calls
  send_text e text = elim e.runtime [
    | none ↦ not_started e
    | some rt ↦ settle transport e rt.log (handle_local_text (envs e.run) p rt text)
  ]

  -- ReadClipboard, where the adapter reads `answer`
  unfoldable pub read_clipboard : Engine T → Result Text → Decided T
  unfolding send_text
  read_clipboard e answer =
      if not e.has_clipboard
      then (e, decision unset, some engine_clipboard_required)
      else elim answer [
        | err failure ↦ (
          record_error e failure,
          decision unset,
          some (wrapped (codes "read clipboard text") [] failure),
        )
        | ok text ↦ send_text e text
      ]

  -- ApplyPending
  unfoldable pub apply_event : Engine T → Text → Decided T
  unfolding after_calls
  apply_event e event_id = elim e.runtime [
    | none ↦ not_started e
    | some rt ↦ settle transport e rt.log (apply_pending (envs e.run) rt event_id)
  ]

  -- consumeRuntime on a message of the hub
  unfoldable pub consume_message : Engine T → Message → Engine T
  unfolding after_calls
  consume_message e msg = elim e.runtime [
    | none ↦ e
    | some rt ↦ (settle transport e rt.log (handle_topic_bus_message (envs e.run) p rt msg)).0
  ]

  -- consumeRuntime on a decision of the runtime
  unfoldable pub consume_decision : Engine T → Engine T
  unfolding move_decision
  consume_decision e = elim e.runtime [ none ↦ e | some rt ↦ move_decision e rt rt.decisions ]
