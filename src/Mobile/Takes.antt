-- ===== src/Mobile/Takes.antt =====
-- TakeLastAppliedText after a text was applied.
use myflowhub_clipboardnode.Base.{
  ◌≡◌, ◌≢◌, refl, ap, ◌∙◌, true, false, not, ◌&&◌, Option, some, List, [], ◌∷◌, ◌++◌, Text,
  is_empty, ltb, length, if◌then◌else◌, Error,
}
use myflowhub_clipboardnode.Runtime.{Decision, remote_applied}
use myflowhub_clipboardnode.Engine.{Engine, emit_decision, decision_limit, is_unset}
use myflowhub_clipboardnode.Mobile.{
  ManualClipboard, write_text, take_last_applied, take_from_decisions, take_remote_applied_text,
  Mobile, take_last_applied_text, is_applied,
}

filled : (t : Text) → t ≢ [] → is_empty t ≡ false
filled [] n = absurd (n refl)
filled (x ∷ xs) n = refl

-- A drained queue whose last decision applied a text gives this text.
pub take_from_decisions-last :
    (latest : Text) (ds : List Decision) (d : Decision)
    → is_applied d.action ≡ true
    → d.text ≢ []
    → take_from_decisions latest (ds ++ d ∷ []) ≡ d.text
unfolding take_from_decisions
take_from_decisions-last latest [] d a n = rw (a, filled d.text n) refl
take_from_decisions-last latest (c ∷ cs) d a n =
    take_from_decisions-last
      (if is_applied c.action && not (is_empty c.text) then c.text else latest) cs d a n

module _ {T : Type 0} where
  -- The package after the engine applied the decision's text: it wrote the text to the manual clipboard
  -- and put the decision into its queue.
  abbrev pub handed_over : Engine T → ManualClipboard → Decision → Option Error → Mobile T
  handed_over e m d failure = record {
    current = some (emit_decision e d);
    clip = some (write_text m d.text);
    last_err = failure;
  }

  -- The package with these decisions in the queue and this text to be handed over.
  abbrev pub waiting : Engine T → List Decision → Text → Text → Option Error → Mobile T
  waiting e queue text last failure = record {
    current = some (record e { decisions = queue });
    clip = some (record { text = text; last_applied = last });
    last_err = failure;
  }

  handed_over-waiting :
      (e : Engine T) (m : ManualClipboard) (d : Decision) (failure : Option Error)
      → ltb (length e.decisions) decision_limit ≡ true
      → d.action ≡ remote_applied
      → handed_over e m d failure ≡ waiting e (e.decisions ++ d ∷ []) d.text d.text failure
  unfolding emit_decision write_text
  handed_over-waiting e m d failure room a = rw (ap is_unset a, room) refl

  take-written :
      (e : Engine T) (queue : List Decision) (text last : Text) (failure : Option Error)
      → last ≢ []
      → take_last_applied_text (waiting e queue text last failure)
        ≡ (waiting e queue text [] failure, last)
  unfolding take_last_applied_text take_last_applied
  take-written e queue text [] failure n = absurd (n refl)
  take-written e queue text (x ∷ xs) failure n = refl

  take-queued :
      (e : Engine T) (queue : List Decision) (text : Text) (failure : Option Error)
      → take_last_applied_text (waiting e queue text [] failure)
        ≡ (waiting e [] text [] failure, take_from_decisions [] queue)
  unfolding take_last_applied_text take_last_applied take_remote_applied_text
  take-queued e queue text failure = refl

  -- When an engine whose queue has room applied a text that is not empty, the next call of
  -- TakeLastAppliedText returns it and leaves the queue as it is, the call after it drains the queue
  -- and returns the same text again, and the third returns nothing.
  pub take_last_applied_text-twice :
      (e : Engine T) (m : ManualClipboard) (d : Decision) (failure : Option Error)
      → ltb (length e.decisions) decision_limit ≡ true
      → d.action ≡ remote_applied
      → d.text ≢ []
      → (take_last_applied_text (handed_over e m d failure)
          ≡ (waiting e (e.decisions ++ d ∷ []) d.text [] failure, d.text))
        × (take_last_applied_text (waiting e (e.decisions ++ d ∷ []) d.text [] failure)
            ≡ (waiting e [] d.text [] failure, d.text))
        × (take_last_applied_text (waiting e [] d.text [] failure)
            ≡ (waiting e [] d.text [] failure, []))
  unfolding take_from_decisions
  take_last_applied_text-twice e m d failure room a n =
      let queue = e.decisions ++ d ∷ [] in
      (
        ap take_last_applied_text (handed_over-waiting e m d failure room a)
            ∙ take-written e queue d.text d.text failure n,
        take-queued e queue d.text failure
            ∙ ap (λ text. (waiting e [] d.text [] failure, text))
                (take_from_decisions-last [] e.decisions d (ap is_applied a) n),
        take-queued e [] d.text failure,
      )
