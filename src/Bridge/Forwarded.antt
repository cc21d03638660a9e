-- ===== src/Bridge/Forwarded.antt =====
-- What a forwarded decision does to the history: texts are kept only where the settings allow it.
use mathlib.Core.Path.{subst}
use myflowhub_clipboardnode.Base.{
  suc, ◌≡◌, refl, sym, ap, ◌∙◌, inl, inr, Bool, true, false, not, ◌&&◌, none, some, List, [], ◌∷◌,
  text_eq, is_empty, ℤ, Result, ok, err, Bool-cases, Option-cases, if_elim, Result-cases, Error,
  arith,
}
use myflowhub_clipboardnode.Config.{Config, normalize_config, retention_body}
use myflowhub_clipboardnode.Config.Normal.{normalize_config-body}
use myflowhub_clipboardnode.Runtime.{Decision, Action, unset}
use myflowhub_clipboardnode.History.{
  append_activity, HistoryEntry, Moment, history_kind_can_persist,
}
use myflowhub_clipboardnode.History
use myflowhub_clipboardnode.History.Files.{
  Appended, no_bodies_kept, not_kept, bad_config, put_first, taken, in_front,
  append_activity-Appended,
}
use myflowhub_clipboardnode.History.Files
use myflowhub_clipboardnode.History.Prepending.{first_then}
use myflowhub_clipboardnode.Engine.{Engine, is_unset}
use myflowhub_clipboardnode.Bridge.{
  Host, Outside, Activity, activity_from_decision, activity_kind, entry_of,
  decision_can_enter_body_history, emit_status,
}
use myflowhub_clipboardnode.Bridge.Forward.{
  activity_of, activity_appended, emit_activity, emit_transfer_if_needed, transfer_state, forward,
  forward_decision,
}

-- The settings cfg, normalised to c, keep bodies, and the decision has a text of its own to keep.
pub data MayKeep (cfg c : Config) (d : Decision) : Type 0 where
  may_keep :
      normalize_config cfg ≡ ok c
      → text_eq cfg.history_retention retention_body ≡ true
      → decision_can_enter_body_history d.action ≡ true
      → is_empty d.text ≡ false
      → MayKeep cfg c d

-- Why a decision leaves no text.
pub data Dropped (cfg : Config) (d : Decision) : Type 0 where
  no_bodies : text_eq cfg.history_retention retention_body ≡ false → Dropped cfg d
  other_action : decision_can_enter_body_history d.action ≡ false → Dropped cfg d
  no_text : is_empty d.text ≡ true → Dropped cfg d
  not_normal : (e : Error) → normalize_config cfg ≡ err e → Dropped cfg d

unset_kept : (a : Action) → is_unset a ≡ true → decision_can_enter_body_history a ≡ false
unset_kept unset h = refl
unset_kept _ h = absurd (cc h)

-- The kind of an activity that may be kept is one that the history keeps.
kind_kept :
    (a : Action)
    → decision_can_enter_body_history a ≡ true
    → history_kind_can_persist (activity_kind a) ≡ true
unfolding history_kind_can_persist activity_kind text_eq
kind_kept Action.local_published h = refl
kind_kept Action.remote_applied h = refl
kind_kept _ h = absurd (cc h)

-- What a decision d, forwarded under the configuration cfg, does to the history s: nothing, for a
-- reason, or its text is put in front in memory, and in the file unless the save fails.
pub data Records (disk : History.Disk) (cfg : Config) (s : History.Store) (d : Decision)
    (s' : History.Store) : Type 0 where
  left : Dropped cfg d → s' ≡ s → Records disk cfg s d s'
  kept :
      (c : Config) (e : HistoryEntry)
      → MayKeep cfg c d
      → e.text ≡ d.text
      → s'.entries ≡ first_then e d.text c s.entries
      → disk.save s.saves s'.entries ≡ none
      → s'.file ≡ some s'.entries
      → Records disk cfg s d s'
  not_saved :
      (c : Config) (e : HistoryEntry) (failure : Error)
      → MayKeep cfg c d
      → e.text ≡ d.text
      → s'.entries ≡ first_then e d.text c s.entries
      → disk.save s.saves s'.entries ≡ some failure
      → s'.file ≡ s.file
      → Records disk cfg s d s'

module _ {T : Type 0} (outside : Outside T) where
  -- One round of forwardDecisions: nothing waits, or the oldest decision is taken and recorded.
  pub data Forwards (h : Host T) (o : Host T) : Type 0 where
    none_waiting : h.eng.decisions ≡ [] → o ≡ h → Forwards h o
    forwards :
        (d : Decision) (ds : List Decision)
        → h.eng.decisions ≡ d ∷ ds
        → o.eng.decisions ≡ ds
        → o.cfg ≡ h.cfg
        → Records outside.history_disk h.cfg h.history d o.history
        → Forwards h o

  append-empty :
      (s : History.Store) (a : HistoryEntry) (cfg : Config) (now : Moment)
      → is_empty a.text ≡ true
      → (append_activity outside.platform outside.history_disk s a cfg now).0 ≡ s
  unfolding append_activity
  append-empty s a cfg now h = elim (Result-cases (normalize_config cfg)) [
    | inr (e, bad) ↦ rw (bad, append_activity) refl
    | inl (normal, good) ↦
        rw (good, append_activity)
          (if_elim (λ (o : History.Store × Result Bool). o.0 ≡ s)
            (not (text_eq normal.history_retention retention_body)) (λ _. refl) (λ _. rw h refl))
  ]

  abbrev appends : History.Store → Activity → Config → Moment → History.Store × Result Bool
  appends s a cfg now = append_activity outside.platform outside.history_disk s (entry_of a) cfg now

  -- The activity has the decision's text, which is not empty, and its kind.
  appended-Records :
      (s : History.Store) (d : Decision) (cfg : Config) (a : HistoryEntry)
      (o : History.Store × Result Bool)
      → text_eq cfg.history_retention retention_body ≡ true
      → decision_can_enter_body_history d.action ≡ true
      → is_empty d.text ≡ false
      → a.text ≡ d.text
      → a.kind ≡ activity_kind d.action
      → Appended outside.platform outside.history_disk s a cfg o
      → Records outside.history_disk cfg s d o.0
  appended-Records s d cfg a o body can filled same kind (no_bodies_kept c good other e) =
      absurd (cc (normalize_config-body cfg c good body))
  appended-Records s d cfg a o body can filled same kind (not_kept h e) =
      let keeps : history_kind_can_persist a.kind ≡ true = rw kind (kind_kept d.action can) in
      let full : is_empty a.text ≡ false = rw same filled in absurd (ground (arith, h, keeps, full))
  appended-Records s d cfg a o body can filled same kind (bad_config x h e) =
      left (not_normal x h) (ap (λ (x : History.Store × Result Bool). x.0) e)
  appended-Records s d cfg a o body can filled same kind
        (Files.not_saved c x (taken good _ _ _) (in_front e t there) failed _ f) =
      not_saved c e x (may_keep good body can filled) (t ∙ same)
        (there ∙ ap (λ t. first_then e t c s.entries) same) failed f
  appended-Records s d cfg a o body can filled same kind
        (put_first c (taken good _ _ _) (in_front e t there) fine _ f) =
      kept c e (may_keep good body can filled) (t ∙ same)
        (there ∙ ap (λ t. first_then e t c s.entries) same) fine f

  kept_text :
      (d : Decision) (cfg : Config) (ms : ℤ)
      → text_eq cfg.history_retention retention_body ≡ true
      → decision_can_enter_body_history d.action ≡ true
      → (activity_from_decision d cfg ms).text ≡ d.text
  unfolding activity_from_decision
  kept_text d cfg ms body can = simp (body, can) refl

  kept_kind :
      (d : Decision) (cfg : Config) (ms : ℤ)
      → (activity_from_decision d cfg ms).kind ≡ activity_kind d.action
  unfolding activity_from_decision
  kept_kind d cfg ms = refl

  dropped_text :
      (d : Decision) (cfg : Config) (ms : ℤ)
      → (text_eq cfg.history_retention retention_body && decision_can_enter_body_history d.action)
        ≡ false
      → is_empty (activity_from_decision d cfg ms).text ≡ true
  unfolding activity_from_decision
  dropped_text d cfg ms h = simp h refl

  append-Records :
      (s : History.Store) (d : Decision) (cfg : Config) (ms : ℤ) (now : Moment)
      → Records outside.history_disk cfg s d (appends s (activity_from_decision d cfg ms) cfg now).0
  append-Records s d cfg ms now =
      let a = activity_from_decision d cfg ms in
      let empty : is_empty a.text ≡ true → (appends s a cfg now).0 ≡ s =
        append-empty s (entry_of a) cfg now in
      elim (Bool-cases (text_eq cfg.history_retention retention_body)) [
        | inr other ↦ left (no_bodies other) (empty (dropped_text d cfg ms (simp other refl)))
        | inl body ↦ elim (Bool-cases (decision_can_enter_body_history d.action)) [
          | inr never ↦
              left (other_action never) (empty (dropped_text d cfg ms (simp (body, never) refl)))
          | inl can ↦ elim (Bool-cases (is_empty d.text)) [
            | inl nothing ↦
                left (no_text nothing) (empty (rw (kept_text d cfg ms body can) nothing))
            | inr filled ↦
                appended-Records s d cfg (entry_of a) _ body can filled
                  (kept_text d cfg ms body can) (kept_kind d cfg ms)
                  (append_activity-Appended outside.platform outside.history_disk s (entry_of a) cfg
                    now)
          ]
        ]
      ]

  -- What emitting keeps.
  data Emits (s : History.Store) (h o : Host T) : Type 0 where
    emits : o.history ≡ s → o.eng ≡ h.eng → o.cfg ≡ h.cfg → Emits s h o

  activity-Emits :
      (h : Host T) (a : Activity) (r : History.Store × Result Bool)
      → Emits r.0 h (activity_appended outside h a r)
  unfolding activity_appended
  activity-Emits h a (s, err e) = emits refl refl refl
  activity-Emits h a (s, ok true) = emits refl refl refl
  activity-Emits h a (s, ok false) = emits refl refl refl

  transfer-Emits :
      (s : History.Store) (h o : Host T) (d : Decision)
      → Emits s h o
      → Emits s h (emit_transfer_if_needed outside o d)
  unfolding emit_transfer_if_needed
  transfer-Emits s h o d (emits a b c) = elim (Option-cases (transfer_state d.action)) [
    | inl e ↦ rw (e, emit_transfer_if_needed) (emits a b c)
    | inr (t, e) ↦ rw (e, emit_transfer_if_needed) (emits a b c)
  ]

  emit_activity-Emits :
      (g : Host T) (d : Decision)
      → (s : History.Store) × Emits s g (emit_activity outside g d)
        × Records outside.history_disk g.cfg g.history d s
  unfolding emit_activity activity_of
  emit_activity-Emits g d =
      if_elim
        (λ (o : Host T).
          (s : History.Store) × Emits s g o × Records outside.history_disk g.cfg g.history d s)
        (is_unset d.action)
        (λ h. (g.history, emits refl refl refl, left (other_action (unset_kept d.action h)) refl))
        (λ _.
          let a = activity_of outside g d in
          let r =
            append_activity outside.platform outside.history_disk g.history (entry_of a) g.cfg
              (outside.moment g.moments) in
          (
            r.0,
            relocated (activity-Emits (record g { moments = suc g.moments }) a r),
            append-Records g.history d g.cfg _ (outside.moment g.moments),
          ))
    where
      relocated :
          {s : History.Store} {o : Host T}
          → Emits s (record g { moments = suc g.moments }) o
          → Emits s g o
      relocated (emits a b c) = emits a b c

  forwarded :
      (h : Host T) (ds : List Decision) → h.eng.decisions ≡ ds → Forwards h (forward outside h ds)
  unfolding forward
  forwarded h [] there = none_waiting there refl
  forwarded h (d ∷ ds) there =
      let g = record h { eng = record h.eng { decisions = ds } } in
      let (s, emitted, recorded) = emit_activity-Emits g d in
      ends g s (emit_transfer_if_needed outside (emit_activity outside g d) d) there recorded
        (transfer-Emits s g (emit_activity outside g d) d emitted) refl
    where
      ends :
          (g : Host T) (s : History.Store) (o : Host T)
          → h.eng.decisions ≡ d ∷ g.eng.decisions
          → Records outside.history_disk h.cfg h.history d s
          → Emits s g o
          → g.cfg ≡ h.cfg
          → Forwards h (emit_status outside o [] none)
      ends g s o there recorded (emits a b c) same =
          forwards d g.eng.decisions there (ap (λ (x : Engine T). x.decisions) b) (c ∙ same)
            (subst (λ x. Records outside.history_disk h.cfg h.history d x) (sym a) recorded)

  -- forwardDecisions takes the oldest decision that waits, if there is one. It leaves the history as
  -- it was if bodies are not kept, the decision reports neither a local text published nor a remote
  -- text applied, its text is empty, or the configuration does not normalise. Otherwise its text is
  -- put in front in memory, before the older entries of other texts, up to the limit but always with one if there is one; when the save
  -- succeeds the file holds the same entries, and when it fails the file is as it was.
  pub forward_decision-Forwards : (h : Host T) → Forwards h (forward_decision outside h)
  unfolding forward_decision
  forward_decision-Forwards h = forwarded h h.eng.decisions refl
