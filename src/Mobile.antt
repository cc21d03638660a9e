-- ===== src/Mobile.antt =====
-- nodemobile/nodemobile.go: what the mobile applications read and set, and the clipboard that they
-- exchange with the engine by hand.
--
-- The package's variables are one state. A returned JSON text is kept as the value that it encodes, and
-- decoding a configuration is a parameter. An error is kept instead of its message.
pub mod Takes
mod Tests
use myflowhub_clipboardnode.Base.{
  ℕ, Bool, true, false, not, ◌&&◌, ◌||◌, Option, none, some, List, [], ◌∷◌, Text, is_empty,
  trim_space, ℤ, if◌then◌else◌, Result, ok, err, Error, no_clipboard_text, ◌>>=◌,
}
use myflowhub_clipboardnode.Config.{Config, default_config, normalize_config}
use myflowhub_clipboardnode.Runtime.{Action, Decision, Env, local_published, remote_applied}
use myflowhub_clipboardnode.Engine.{Engine, Transport, status_of}
use myflowhub_clipboardnode.Engine

pub record ManualClipboard : Type 0 where
  pub text : Text
  pub last_applied : Text

abbrev pub empty_clipboard : ManualClipboard
empty_clipboard = record { text = []; last_applied = [] }

unfoldable pub read_text : ManualClipboard → Result Text
read_text m = if is_empty (trim_space m.text) then err no_clipboard_text else ok m.text

unfoldable pub write_text : ManualClipboard → Text → ManualClipboard
write_text m text = record { text = text; last_applied = text }

abbrev pub or_new : Option ManualClipboard → ManualClipboard
or_new none = empty_clipboard
or_new (some m) = m

abbrev pub set_local_text : ManualClipboard → Text → ManualClipboard
set_local_text m text = record m { text = text }

-- TakeLastAppliedText of the manual clipboard
unfoldable pub take_last_applied : ManualClipboard → ManualClipboard × Text
take_last_applied m = (record m { last_applied = [] }, m.last_applied)

abbrev pub is_applied : Action → Bool
is_applied remote_applied = true
is_applied _ = false

abbrev pub is_published : Action → Bool
is_published local_published = true
is_published _ = false

-- The loop of takeRemoteAppliedTextFromDecisions, with `latest` so far.
unfoldable pub take_from_decisions : Text → List Decision → Text
take_from_decisions latest [] = latest
take_from_decisions latest (d ∷ ds) =
    take_from_decisions (if is_applied d.action && not (is_empty d.text) then d.text else latest) ds

pub record Marshalled : Type 0 where
  pub action : Action
  pub event_id : Text
  pub topic : Text
  pub size : ℤ
  pub hash_prefix : Text
  pub text : Text

-- marshalDecision
unfoldable pub marshal_decision : Decision → Marshalled
marshal_decision d = record {
  action = d.action;
  event_id = d.event_id;
  topic = d.topic;
  size = d.size;
  hash_prefix = d.hash_prefix;
  text = if is_published d.action || is_applied d.action then d.text else [];
}

-- parseConfig; `decode` is encoding/json on a Config.
unfoldable pub parse_config : (Text → Result Config) → Text → Result Config
parse_config decode raw =
    if is_empty (trim_space raw)
    then ok default_config
    else do cfg ← decode (trim_space raw); normalize_config cfg

pub record Mobile (T : Type 0) : Type 0 where
  pub current : Option (Engine T)
  pub clip : Option ManualClipboard
  pub last_err : Option Error

-- What statusJSON encodes: without an engine, the last error.
pub data MobileStatus : Type 0 where
  not_running : Option Error → MobileStatus
  of_engine : Engine.Status → MobileStatus

module _ {T : Type 0} where
  -- takeRemoteAppliedText
  unfoldable pub take_remote_applied_text : Option (Engine T) → Option (Engine T) × Text
  unfolding take_from_decisions
  take_remote_applied_text none = (none, [])
  take_remote_applied_text (some e) =
      (some (record e { decisions = [] }), take_from_decisions [] e.decisions)

  abbrev from_decisions : Mobile T → Mobile T × Text
  from_decisions s =
      let taken = take_remote_applied_text s.current in (record s { current = taken.0 }, taken.1)

  abbrev from_clipboard : Mobile T → ManualClipboard × Text → Mobile T × Text
  from_clipboard s (m, text) =
      if is_empty text
      then from_decisions (record s { clip = some m })
      else (record s { clip = some m }, text)

  -- TakeLastAppliedText
  unfoldable pub take_last_applied_text : Mobile T → Mobile T × Text
  unfolding take_last_applied take_remote_applied_text
  take_last_applied_text s = elim s.clip [
    | none ↦ from_decisions s
    | some m ↦ from_clipboard s (take_last_applied m)
  ]

module _ {T : Type 0} (transport : Transport T) (envs : ℕ → Env) where
  -- statusJSON
  unfoldable pub mobile_status : Mobile T → MobileStatus
  mobile_status s = elim s.current [
    | none ↦ not_running s.last_err
    | some e ↦ of_engine (status_of transport envs e)
  ]

  -- SetClipboardText
  unfoldable pub set_clipboard_text : Mobile T → Text → Mobile T × MobileStatus
  unfolding mobile_status
  set_clipboard_text s text =
      let next = record s { clip = some (set_local_text (or_new s.clip) text) } in
      (next, mobile_status next)
