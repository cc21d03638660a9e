-- ===== src/Runtime/Handlers/Retries.antt =====
-- What a message leaves when its write fails, and when a write succeeds.
use myflowhub_clipboardnode.Runtime.Handlers.Duplicates.{
  Applies, held_back, no_adapter, write_failed, written, handled-Applies, applied_kept,
}
use myflowhub_clipboardnode.Base.{◌≡◌, ◌≢◌, ap, none}
use myflowhub_clipboardnode.Event.{Platform, TextEvent}
use myflowhub_clipboardnode.Runtime.{
  Runtime, Env, Outcome, write_text, clipboard_write_failed, remote_applied,
}
use myflowhub_clipboardnode.Runtime.Remote.{Message, handle_topic_bus_message}
use myflowhub_clipboardnode.Runtime.Handlers.Recorded.{kept}
use myflowhub_clipboardnode.Runtime.Handlers.Writes.{IsAdmitted, IsApplicable}

module _ (env : Env) (p : Platform) where
  pub data Unmarked (r : Runtime) (o : Outcome) : Type 0 where
    unmarked :
        o.0.recent_events ≡ r.recent_events
        → o.0.suppress_hashes ≡ r.suppress_hashes
        → o.0.pending_remote ≡ r.pending_remote
        → Unmarked r o

  Unmarked-failure :
      (r : Runtime) (e : TextEvent) (o : Outcome)
      → Applies env r e o
      → o.1.action ≡ clipboard_write_failed
      → Unmarked r o
  Unmarked-failure r e o (held_back _ n) h = absurd (n h)
  Unmarked-failure r e o (no_adapter _ k) h =
      unmarked (ap (λ x. x.recent_events) k) (ap (λ x. x.suppress_hashes) k)
        (ap (λ x. x.pending_remote) k)
  Unmarked-failure r e o (write_failed _ k) h =
      unmarked (ap (λ x. x.recent_events) k) (ap (λ x. x.suppress_hashes) k)
        (ap (λ x. x.pending_remote) k)
  Unmarked-failure r e o (written f _ _ _) h = absurd cc

  -- A message whose write to the clipboard fails, for want of an adapter too, leaves the recent
  -- events, the suppressed hashes and the pending events as they were, so that it can be retried.
  pub failed_write-Unmarked :
      (r : Runtime) (m : Message) (e : TextEvent)
      → IsAdmitted env p r m e
      → (handle_topic_bus_message env p r m).1.action ≡ clipboard_write_failed
      → Unmarked r (handle_topic_bus_message env p r m)
  failed_write-Unmarked r m e a failed =
      Unmarked-failure r e _ (handled-Applies env p r m e a) failed

  -- How an admitted event e ends: it is applied, or something was against it.
  pub data Decides (r : Runtime) (e : TextEvent) (o : Outcome) : Type 0 where
    applied :
        IsApplicable env r e
        → env.answer r.log (write_text e.text) ≡ none
        → o.1.action ≡ remote_applied
        → o.1.event_id ≡ e.event_id
        → o.1.text ≡ e.text
        → o.2 ≡ none
        → kept o.0 ≡ applied_kept env r e
        → Decides r e o
    not_applied :
        ¬ (IsApplicable env r e × (env.answer r.log (write_text e.text) ≡ none))
        → o.1.action ≢ remote_applied
        → Decides r e o
