-- ===== src/Clipboard/Watching.antt =====
-- The polling watcher sends what a description of its readings, without any state, says.
use myflowhub_clipboardnode.Base.{
  ◌≡◌, ◌≢◌, refl, sym, ◌∙◌, inl, inr, true, false, Option, none, some, List, [], ◌∷◌, Text, text_eq,
  All, is_some, if◌then◌else◌,
}
use myflowhub_clipboardnode.Base.Strings.Laws.{text_eq-cases}
use myflowhub_clipboardnode.Clipboard.{
  Reading, no_text, unreadable, text, Sent, sent_text, sent_error, Watch, new_watch, watch_tick,
  watch_all,
}

-- The last text among the readings, the newest of which stands first.
abbrev pub latest_text : List Reading → Option Text
latest_text [] = none
latest_text (text t ∷ rs) = some t
latest_text (r ∷ rs) = latest_text rs

-- The error of the last reading that was not ErrNoText, if it was one.
abbrev pub latest_error : List Reading → Option Text
latest_error [] = none
latest_error (no_text ∷ rs) = latest_error rs
latest_error (unreadable m ∷ rs) = some m
latest_error (text t ∷ rs) = none

abbrev changed : Option Text → Text → Option Sent
changed none t = none
changed (some before) t = if text_eq t before then none else some (sent_text t)

abbrev fresh : Option Text → Text → Option Sent
fresh none m = some (sent_error m)
fresh (some before) m = if text_eq m before then none else some (sent_error m)

-- What is due after the readings `past`: a text that differs from the last text, if there was one, and
-- an error that is not the one last met.
abbrev pub due : List Reading → Reading → Option Sent
due past no_text = none
due past (unreadable m) = fresh (latest_error past) m
due past (text t) = changed (latest_text past) t

abbrev pub due_all : List Reading → List Reading → List (Option Sent)
due_all past [] = []
due_all past (r ∷ rs) = due past r ∷ due_all (r ∷ past) rs

-- The message of an error is not empty.
abbrev pub IsSpoken : Reading → Type 0
IsSpoken (unreadable m) = m ≢ []
IsSpoken _ = Unit

abbrev or_empty : Option Text → Text
or_empty none = []
or_empty (some t) = t

data Tracks (past : List Reading) (w : Watch) : Type 0 where
  tracks :
      w.have_baseline ≡ is_some (latest_text past)
      → w.last_text ≡ or_empty (latest_text past)
      → w.last_err ≡ or_empty (latest_error past)
      → Tracks past w

eq-true : (t u : Text) → t ≡ u → text_eq t u ≡ true
eq-true t u e = elim (text_eq-cases t u) [ inl (h, _) ↦ h | inr (_, n) ↦ absurd (n e) ]

eq-false : (t u : Text) → ¬ (t ≡ u) → text_eq t u ≡ false
eq-false t u n = elim (text_eq-cases t u) [ inl (_, e) ↦ absurd (n e) | inr (h, _) ↦ h ]

fresh-same :
    (before : Option Text) (m : Text) → m ≢ [] → m ≡ or_empty before → fresh before m ≡ none
fresh-same none m spoken e = absurd (spoken e)
fresh-same (some b) m spoken e = rw (eq-true m b e) refl

fresh-other :
    (before : Option Text) (m : Text)
    → ¬ (m ≡ or_empty before)
    → fresh before m ≡ some (sent_error m)
fresh-other none m n = refl
fresh-other (some b) m n = rw (eq-false m b n) refl

changed-same : (before t : Text) → t ≡ before → changed (some before) t ≡ none
changed-same before t e = rw (eq-true t before e) refl

changed-other : (before t : Text) → ¬ (t ≡ before) → changed (some before) t ≡ some (sent_text t)
changed-other before t n = rw (eq-false t before n) refl

error_due :
    (past : List Reading) (w : Watch) (m : Text)
    → Tracks past w
    → m ≢ []
    → ((watch_tick w (unreadable m)).1 ≡ due past (unreadable m))
      × Tracks (unreadable m ∷ past) (watch_tick w (unreadable m)).0
unfolding watch_tick
error_due past w m (tracks a b c) spoken = elim (text_eq-cases m w.last_err) [
  | inl (e, same) ↦
      rw (e, watch_tick)
        (sym (fresh-same (latest_error past) m spoken (same ∙ c)), tracks a b (sym same))
  | inr (e, differ) ↦
      rw (e, watch_tick)
        (sym (fresh-other (latest_error past) m (λ x. differ (x ∙ sym c))), tracks a b refl)
]

text_tick :
    (past : List Reading) (before : Option Text) (w : Watch) (t : Text)
    → w.have_baseline ≡ is_some before
    → w.last_text ≡ or_empty before
    → ((watch_tick w (text t)).1 ≡ changed before t)
      × Tracks (text t ∷ past) (watch_tick w (text t)).0
unfolding watch_tick
text_tick past none w t a b = rw (a, watch_tick) (refl, tracks refl refl refl)
text_tick past (some before) w t a b = elim (text_eq-cases t w.last_text) [
  | inl (e, same) ↦
      rw (a, e, watch_tick) (sym (changed-same before t (same ∙ b)), tracks refl (sym same) refl)
  | inr (e, differ) ↦
      rw (a, e, watch_tick)
        (sym (changed-other before t (λ x. differ (x ∙ sym b))), tracks refl refl refl)
]

tick_due :
    (past : List Reading) (w : Watch) (r : Reading)
    → Tracks past w
    → IsSpoken r
    → ((watch_tick w r).1 ≡ due past r) × Tracks (r ∷ past) (watch_tick w r).0
unfolding watch_tick
tick_due past w no_text (tracks a b c) spoken = (refl, tracks a b c)
tick_due past w (unreadable m) h spoken = error_due past w m h spoken
tick_due past w (text t) (tracks a b c) spoken = text_tick past (latest_text past) w t a b

watch_due :
    (past : List Reading) (w : Watch) (rs : List Reading)
    → Tracks past w
    → All IsSpoken rs
    → watch_all w rs ≡ due_all past rs
unfolding watch_all
watch_due past w [] h spoken = refl
watch_due past w (r ∷ rs) h (spoken, rest) =
    let (now, next) = tick_due past w r h spoken in
    λ i. now i ∷ watch_due (r ∷ past) (watch_tick w r).0 rs next rest i

-- For any readings whose errors have messages, the watcher sends just what is due: a text when it
-- differs from the last text read before, the first text being the baseline, and an error unless the
-- same error was the last reading before, readings without a text set aside.
pub watch_all-due : (rs : List Reading) → All IsSpoken rs → watch_all new_watch rs ≡ due_all [] rs
watch_all-due rs spoken = watch_due [] new_watch rs (tracks refl refl refl) spoken
