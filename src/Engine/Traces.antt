-- ===== src/Engine/Traces.antt =====
-- Runs of the engine: sequences of calls of its methods and of what its goroutine receives.
use myflowhub_clipboardnode.Base.{ℕ, List, [], ◌∷◌, Text, Result}
use myflowhub_clipboardnode.Config.{Config}
use myflowhub_clipboardnode.Event.{Platform}
use myflowhub_clipboardnode.Runtime.{Env, Decision}
use myflowhub_clipboardnode.Runtime.Remote.{Message}
use myflowhub_clipboardnode.Engine.{Engine, Transport, start_engine, stop_engine, update_engine}
use myflowhub_clipboardnode.Engine.Steps.{
  send_text, read_clipboard, apply_event, consume_message, consume_decision,
}

-- What happens to an engine: its methods, a value that the serving goroutine receives, a change of the
-- transport by the runtime's own calls or by the session, and a reader that takes a decision.
pub data Event (T : Type 0) : Type 0 where
  starts stops serves_decision takes_decision : Event T
  updates : Config → Event T
  sends : Text → Event T
  reads : Result Text → Event T
  applies : Text → Event T
  serves_message : Message → Event T
  drifts : T → Event T

abbrev pub tail : List Decision → List Decision
tail [] = []
tail (d ∷ ds) = ds

module _ {T : Type 0} (transport : Transport T) (envs : ℕ → Env) (p : Platform) where
  abbrev pub step : Engine T → Event T → Engine T
  step e starts = (start_engine transport envs e).0
  step e stops = (stop_engine transport envs e).0
  step e (updates cfg) = (update_engine transport envs e cfg).0
  step e (sends text) = (send_text transport envs p e text).0
  step e (reads answer) = (read_clipboard transport envs p e answer).0
  step e (applies id) = (apply_event transport envs p e id).0
  step e (serves_message msg) = consume_message transport envs p e msg
  step e serves_decision = consume_decision transport envs p e
  step e takes_decision = record e { decisions = tail e.decisions }
  step e (drifts t) = record e { transport = t }

  unfoldable pub run : Engine T → List (Event T) → Engine T
  run e [] = e
  run e (x ∷ xs) = run (step e x) xs
