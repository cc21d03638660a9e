-- ===== src/Bridge/Commands.antt =====
-- handle: the commands of the user interface.
use myflowhub_clipboardnode.Base.{
  suc, Bool, true, false, Option, none, some, List, [], ◌∷◌, Text, codes, text_eq, if◌then◌else◌,
  Result, ok, err, Error, wrapped, unsupported_command,
}
use myflowhub_clipboardnode.Config.{Config, normalize_config}
use myflowhub_clipboardnode.History.{apply_settings, promote, clear}
use myflowhub_clipboardnode.History
use myflowhub_clipboardnode.Store.{ConfigStore, save}
use myflowhub_clipboardnode.Engine.{start_engine, stop_engine, update_engine, Decided, Done}
use myflowhub_clipboardnode.Engine.Steps.{send_text, read_clipboard, apply_event}
use myflowhub_clipboardnode.Bridge.{
  Host, Outside, Command, Settings, config_from_settings, emit, emit_status, emit_command_ok,
  emit_error, emit_history, activity_updated, no_data,
}

-- The host after a command, whether it was a shutdown, and the error.
abbrev pub Handled : Type 0 → Type 0
Handled T = Host T × Bool × Option Error

module _ {T : Type 0} (outside : Outside T) where
  -- `h.emitError(id, err); return false, err`
  abbrev pub refuse : Host T → Text → Error → Error → Handled T
  refuse h id shown e = (emit_error outside h id shown, false, some e)

  -- The ends of send_text, read_clipboard and apply_event.
  unfoldable pub after_decision : Host T → Text → Decided T → Handled T
  after_decision h id (eng, d, some e) = refuse (record h { eng = eng }) id e e
  after_decision h id (eng, d, none) = (
    emit_status outside (emit_command_ok outside (record h { eng = eng }) id) [] none,
    false,
    none,
  )

  -- The end of connect and of shutdown.
  abbrev after_lifecycle : Host T → Text → Bool → Done T → Handled T
  after_lifecycle h id shutdown (eng, failure) =
      (emit_status outside (record h { eng = eng }) id failure, shutdown, failure)

  unfoldable pub settings_updated : Host T → Text → Config → Done T → Handled T
  settings_updated h id cfg (eng, some e) = refuse (record h { eng = eng }) id e e
  settings_updated h id cfg (eng, none) = (
    emit_history outside (emit_status outside (record h { eng = eng; cfg = cfg }) id none) [],
    false,
    none,
  )

  unfoldable pub settings_saved : Host T → Text → Config → ConfigStore × Option Error → Handled T
  unfolding settings_updated
  settings_saved h id cfg (store, some e) =
      refuse (record h { store = store; writes = suc h.writes }) id e e
  settings_saved h id cfg (store, none) =
      settings_updated (record h { store = store; writes = suc h.writes }) id cfg
        (update_engine outside.transport outside.envs h.eng cfg)

  unfoldable pub settings_applied : Host T → Text → Config → History.Store × Result Bool → Handled T
  unfolding settings_saved
  settings_applied h id cfg (history, err e) = refuse (record h { history = history }) id e e
  settings_applied h id cfg (history, ok _) =
      settings_saved (record h { history = history }) id cfg
        (save outside.codec (outside.disk h.writes) h.store cfg)

  -- set_config once its data is decoded
  unfoldable pub set_settings : Host T → Text → Result Config → Handled T
  unfolding settings_applied
  set_settings h id (err e) = refuse h id e e
  set_settings h id (ok cfg) =
      settings_applied h id cfg (apply_settings outside.platform outside.history_disk h.history cfg)

  -- set_config
  unfoldable pub set_config : Host T → Text → Result Settings → Handled T
  unfolding set_settings
  set_config h id (err e) = refuse h id (wrapped (codes "decode settings") [] e) e
  set_config h id (ok settings) =
      set_settings h id (normalize_config (config_from_settings settings))

  -- send_text
  unfoldable pub send_command : Host T → Text → Result Text → Handled T
  unfolding after_decision
  send_command h id (err e) = refuse h id (wrapped (codes "decode send_text") [] e) e
  send_command h id (ok text) =
      after_decision h id (send_text outside.transport outside.envs outside.platform h.eng text)

  -- apply_event
  unfoldable pub apply_command : Host T → Text → Result Text → Handled T
  unfolding after_decision
  apply_command h id (err e) = refuse h id (wrapped (codes "decode apply_event") [] e) e
  apply_command h id (ok event_id) =
      after_decision h id
        (apply_event outside.transport outside.envs outside.platform h.eng event_id)

  abbrev after_clear : Host T → Text → History.Store × Option Error → Handled T
  after_clear h id (history, some e) = refuse (record h { history = history }) id e e
  after_clear h id (history, none) = (
    emit_history outside
        (emit outside (record h { history = history })
          (record {
            id = id;
            name = activity_updated;
            payload = no_data;
            good = true;
            error = none;
          }))
        [],
    false,
    none,
  )

  abbrev after_promote : Host T → Text → History.Store × Result Bool → Handled T
  after_promote h id (history, err e) = refuse (record h { history = history }) id e e
  after_promote h id (history, ok _) =
      (emit_history outside (record h { history = history }) id, false, none)

  -- restore_history
  unfoldable pub restore_command : Host T → Text → Result History.HistoryEntry → Handled T
  restore_command h id (err e) = refuse h id (wrapped (codes "decode restore_history") [] e) e
  restore_command h id (ok entry) =
      after_promote (record h { moments = suc (suc h.moments) }) id
        (promote outside.platform outside.history_disk h.history entry h.cfg
          (outside.moment h.moments) (outside.moment (suc h.moments)))

  -- handle
  unfoldable pub handle : Host T → Command → Handled T
  unfolding set_config send_command apply_command restore_command after_decision
  handle h cmd =
      if text_eq cmd.action (codes "connect")
      then after_lifecycle h cmd.id false (start_engine outside.transport outside.envs h.eng)
      else if text_eq cmd.action (codes "set_config")
      then set_config h cmd.id (outside.decode_settings cmd.payload)
      else if text_eq cmd.action (codes "send_text")
      then send_command h cmd.id (outside.decode_send_text cmd.payload)
      else if text_eq cmd.action (codes "read_clipboard")
      then after_decision (record h { moments = suc h.moments }) cmd.id
          (read_clipboard outside.transport outside.envs outside.platform h.eng
            (outside.read_text h.moments))
      else if text_eq cmd.action (codes "apply_event")
      then apply_command h cmd.id (outside.decode_apply_event cmd.payload)
      else if text_eq cmd.action (codes "clear_recent")
      then after_clear h cmd.id (clear outside.platform outside.history_disk h.history)
      else if text_eq cmd.action (codes "restore_history")
      then restore_command h cmd.id (outside.decode_entry cmd.payload)
      else if text_eq cmd.action (codes "shutdown")
      then after_lifecycle h cmd.id true (stop_engine outside.transport outside.envs h.eng)
      else refuse h cmd.id (unsupported_command cmd.action) (unsupported_command cmd.action)

  -- A line of serve: blank, not a command, or a command.
  pub data Line : Type 0 where
    blank : Line
    garbled : Error → Line
    command : Command → Line

  -- The loop of serve, until the input ends or a shutdown.
  unfoldable pub serve : Host T → List Line → Host T
  unfolding handle
  serve h [] = h
  serve h (blank ∷ ls) = serve h ls
  serve h (garbled e ∷ ls) =
      serve (emit_error outside h [] (wrapped (codes "decode command") [] e)) ls
  serve h (command cmd ∷ ls) =
      let handled = handle h cmd in
      let rest = serve handled.0 ls in if handled.1 then handled.0 else rest

  -- serve: the status and the history first, then the input.
  unfoldable pub serve_input : Host T → List Line → Host T
  unfolding serve
  serve_input h ls = serve (emit_history outside (emit_status outside h [] none) []) ls
