-- ===== src/Runtime/Handlers/Held.antt =====
-- What ApplyPending does, and that it applies an event once.
use myflowhub_clipboardnode.Base.{
  ◌≡◌, refl, sym, ap, ◌∙◌, inl, inr, true, false, none, some, List, [], ◌∷◌, Text, text_eq,
  trim_space, is_empty, clipboard_required, event_id_required, pending_not_found, Bool-cases,
  Option-cases, Error, wrapped, codes,
}
use myflowhub_clipboardnode.Dedupe.{add}
use myflowhub_clipboardnode.Runtime.{
  Runtime, Env, Outcome, PendingText, Log, find_pending, drop_pending, perform, write_text,
  remote_applied, clipboard_write_failed, unset, decision,
}
use myflowhub_clipboardnode.Runtime.Pending.{erase_first, delete_pending}
use myflowhub_clipboardnode.Runtime.Remote.{apply_pending, apply_found, apply_found_there}
use myflowhub_clipboardnode.Runtime.Handlers.Recorded.{
  Kept, kept, kept-record_decision, kept-record_failure,
}

never : ¬ (unset ≡ remote_applied)
never h = cc

find_pending-drop_pending :
    (id : Text) (m : List (Text × PendingText)) → find_pending id (drop_pending id m) ≡ none
unfolding find_pending drop_pending
find_pending-drop_pending id [] = refl
find_pending-drop_pending id ((k, v) ∷ m) = elim (Bool-cases (text_eq k id)) [
  | inl same ↦ rw same (find_pending-drop_pending id m)
  | inr other ↦ rw (other, other) (find_pending-drop_pending id m)
]

module _ (env : Env) where
  abbrev pub written_log : Runtime → PendingText → Log
  written_log r v = (write_text v.event.text, env.answer r.log (write_text v.event.text)) ∷ r.log

  -- The state after a held event was written.
  abbrev pub held_kept : Runtime → Text → PendingText → Kept
  held_kept r id v = record (kept r) {
    pending_remote = drop_pending id r.pending_remote;
    pending_order = erase_first id r.pending_order;
    recent_events = add r.recent_events v.event.event_id;
    suppress_hashes = add r.suppress_hashes v.event.sha256;
    log = written_log r v;
  }

  -- The identifier is not blank, and v is pending under it.
  pub record IsFound (r : Runtime) (id : Text) (v : PendingText) : Type 0 where
    pub filled : is_empty id ≡ false
    pub found : find_pending id r.pending_remote ≡ some v

  -- What ApplyPending does with the trimmed identifier.
  pub data Releases (r : Runtime) (id : Text) (o : Outcome) : Type 0 where
    blank : is_empty id ≡ true → o ≡ (r, decision unset, some event_id_required) → Releases r id o
    unknown :
        find_pending id r.pending_remote ≡ none
        → o ≡ (r, decision unset, some (pending_not_found id))
        → Releases r id o
    no_adapter :
        (v : PendingText)
        → IsFound r id v
        → r.has_clipboard ≡ false
        → o.1.action ≡ clipboard_write_failed
        → o.2 ≡ some clipboard_required
        → kept o.0 ≡ kept r
        → Releases r id o
    write_failed :
        (v : PendingText) (e : Error)
        → IsFound r id v
        → r.has_clipboard ≡ true
        → env.answer r.log (write_text v.event.text) ≡ some e
        → o.1.action ≡ clipboard_write_failed
        → o.2 ≡ some (wrapped (codes "write clipboard text") [] e)
        → kept o.0 ≡ record (kept r) { log = written_log r v }
        → Releases r id o
    released :
        (v : PendingText)
        → IsFound r id v
        → r.has_clipboard ≡ true
        → env.answer r.log (write_text v.event.text) ≡ none
        → o.1.action ≡ remote_applied
        → o.1.text ≡ v.event.text
        → o.2 ≡ none
        → kept o.0 ≡ held_kept r id v
        → Releases r id o

  apply_found_there-Releases :
      (r : Runtime) (id : Text) (v : PendingText)
      → IsFound r id v
      → r.has_clipboard ≡ true
      → Releases r id (apply_found_there env r id v)
  unfolding apply_found_there perform delete_pending
  apply_found_there-Releases r id v there adapter =
      elim (Option-cases (env.answer r.log (write_text v.event.text))) [
        | inl fine ↦
            rw (fine, apply_found_there)
              (released v there adapter fine refl refl refl (kept-record_decision env _ _))
        | inr (e, failed) ↦
            rw (failed, apply_found_there)
              (write_failed v e there adapter failed refl refl (kept-record_failure env _ _ e))
      ]

  apply_found-Releases :
      (r : Runtime) (id : Text) (v : PendingText)
      → IsFound r id v
      → Releases r id (apply_found env r id v)
  unfolding apply_found
  apply_found-Releases r id v there = elim (Bool-cases r.has_clipboard) [
    | inl adapter ↦ simp adapter (apply_found_there-Releases r id v there adapter)
    | inr missing ↦
        simp missing
          (no_adapter v there missing refl refl (kept-record_failure env r _ clipboard_required))
  ]

  -- ApplyPending refuses a blank or unknown identifier without any change. Without an adapter, or with
  -- one whose write fails, it returns that error, the event stays pending and nothing is marked. When
  -- the write succeeds, it reports the text as applied, the event leaves the pending events, its
  -- identifier becomes recent and its hash suppressed.
  pub apply_pending-Releases :
      (r : Runtime) (event_id : Text)
      → Releases r (trim_space event_id) (apply_pending env r event_id)
  unfolding apply_pending
  apply_pending-Releases r event_id = elim (Bool-cases (is_empty (trim_space event_id))) [
    | inl nothing ↦ simp nothing (blank nothing refl)
    | inr filled ↦ elim (Option-cases (find_pending (trim_space event_id) r.pending_remote)) [
      | inl absent ↦ simp (filled, absent) (unknown absent refl)
      | inr (v, found) ↦
          simp (filled, found)
            (apply_found-Releases r (trim_space event_id) v
              (record { filled = filled; found = found }))
    ]
  ]

  unknown_lem :
      (r : Runtime) (event_id : Text)
      → is_empty (trim_space event_id) ≡ false
      → find_pending (trim_space event_id) r.pending_remote ≡ none
      → apply_pending env r event_id
        ≡ (r, decision unset, some (pending_not_found (trim_space event_id)))
  unfolding apply_pending
  unknown_lem r event_id filled absent = simp (filled, absent) refl

  twice :
      (r : Runtime) (event_id : Text) (o : Outcome)
      → Releases r (trim_space event_id) o
      → o.1.action ≡ remote_applied
      → apply_pending env o.0 event_id
        ≡ (o.0, decision unset, some (pending_not_found (trim_space event_id)))
  twice r event_id o (blank _ same) h = absurd (never (sym (ap (λ x. x.1.action) same) ∙ h))
  twice r event_id o (unknown _ same) h = absurd (never (sym (ap (λ x. x.1.action) same) ∙ h))
  twice r event_id o (no_adapter _ _ _ failed _ _) h = absurd cc
  twice r event_id o (write_failed _ _ _ _ _ failed _ _) h = absurd cc
  twice r event_id o (released v there _ _ _ _ _ state) h = unknown_lem o.0 event_id there.filled (
      ap (λ k. find_pending (trim_space event_id) k.pending_remote) state
      ∙ find_pending-drop_pending (trim_space event_id) r.pending_remote)

  -- Once ApplyPending applied an event, it cannot be applied again: the identifier is not found, and
  -- nothing changes.
  pub apply_pending-once :
      (r : Runtime) (event_id : Text)
      → (apply_pending env r event_id).1.action ≡ remote_applied
      → apply_pending env (apply_pending env r event_id).0 event_id ≡ (
        (apply_pending env r event_id).0,
        decision unset,
        some (pending_not_found (trim_space event_id)),
      )
  apply_pending-once r event_id applied =
      twice r event_id _ (apply_pending-Releases r event_id) applied
