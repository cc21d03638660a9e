-- ===== src/Mobile/Tests.antt =====
-- The theorem on TakeLastAppliedText at an engine that applied a text.
use myflowhub_clipboardnode.Base.{◌≡◌, ◌≢◌, refl, none, [], ◌∷◌, codes}
use myflowhub_clipboardnode.Runtime.{Decision, decision, remote_applied}
use myflowhub_clipboardnode.Engine.Tests.{sample_engine}
use myflowhub_clipboardnode.Mobile.{empty_clipboard, take_last_applied_text}
use myflowhub_clipboardnode.Mobile.Takes.{handed_over, waiting, take_last_applied_text-twice}

abbrev pub applied_decision : Decision
applied_decision = record (decision remote_applied) { text = codes "hi" }

filled : codes "hi" ≢ []
filled e = cc

take_last_applied_text-twice_example :
    (take_last_applied_text (handed_over sample_engine empty_clipboard applied_decision none)
      ≡ (waiting sample_engine (applied_decision ∷ []) (codes "hi") [] none, codes "hi"))
    × (take_last_applied_text (waiting sample_engine (applied_decision ∷ []) (codes "hi") [] none)
        ≡ (waiting sample_engine [] (codes "hi") [] none, codes "hi"))
    × (take_last_applied_text (waiting sample_engine [] (codes "hi") [] none)
        ≡ (waiting sample_engine [] (codes "hi") [] none, []))
take_last_applied_text-twice_example =
    take_last_applied_text-twice sample_engine empty_clipboard applied_decision none refl refl
      filled
