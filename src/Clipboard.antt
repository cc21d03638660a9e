-- ===== src/Clipboard.antt =====
-- platform/clipboard_unix.go and core/clipboard/clipboard.go: the clipboard of darwin and linux, read
-- and written by external commands and watched by polling.
--
-- How a command ends is a parameter: the bytes that it prints, or its error and what it printed as an
-- error. `decode` is the text of valid UTF-8 bytes.
pub mod Watching
mod Tests
use myflowhub_clipboardnode.Base.{
  ℕ, Bool, true, false, not, ◌&&◌, ◌||◌, Option, none, some, List, [], ◌∷◌, ◌++◌, Text, codes,
  text_eq, is_empty, trim_space, valid_string, ltb, length, ℤ, pos, ltb_ℤ, leb_ℤ, if◌then◌else◌,
  Result, ok, err, Error, wrapped, no_clipboard_text, clipboard_unsupported,
  read_limit_not_positive, clipboard_text_exceeds, text_not_utf8, command_failed,
}

pub record CommandAdapter : Type 0 where
  pub read_cmd : List Text
  pub write_cmd : List Text
  pub max_read_bytes : ℤ

-- One of the commands that linux may have.
pub record Candidate : Type 0 where
  pub read : Text × List Text
  pub write : Text × List Text

abbrev pub candidates : List Candidate
candidates =
    record { read = (codes "wl-paste", codes "--no-newline" ∷ []); write = (codes "wl-copy", []) }
    ∷ record {
      read = (codes "xclip", codes "-selection" ∷ codes "clipboard" ∷ codes "-out" ∷ []);
      write = (codes "xclip", codes "-selection" ∷ codes "clipboard" ∷ codes "-in" ∷ []);
    }
    ∷ record {
      read = (codes "xsel", codes "--clipboard" ∷ codes "--output" ∷ []);
      write = (codes "xsel", codes "--clipboard" ∷ codes "--input" ∷ []);
    }
    ∷ []

-- The loop of newLinuxClipboardAdapter; `found` is exec.LookPath.
unfoldable pub choose_commands : (Text → Bool) → ℤ → List Candidate → Result CommandAdapter
choose_commands found limit [] =
    err (wrapped (codes "install wl-clipboard, xclip, or xsel") [] clipboard_unsupported)
choose_commands found limit (c ∷ cs) =
    let rest = choose_commands found limit cs in
    if not (found c.read.0)
    then rest
    else if not (found c.write.0)
    then rest
    else ok (record {
      read_cmd = c.read.0 ∷ c.read.1;
      write_cmd = c.write.0 ∷ c.write.1;
      max_read_bytes = limit;
    })

-- newClipboardAdapter
unfoldable pub new_clipboard_adapter : (Text → Bool) → Text → ℤ → Result CommandAdapter
unfolding choose_commands
new_clipboard_adapter found goos limit =
    if leb_ℤ limit (pos 0)
    then err read_limit_not_positive
    else if text_eq goos (codes "darwin")
    then ok (record {
      read_cmd = codes "pbpaste" ∷ [];
      write_cmd = codes "pbcopy" ∷ [];
      max_read_bytes = limit;
    })
    else if text_eq goos (codes "linux")
    then choose_commands found limit candidates
    else err clipboard_unsupported

-- How a command ended.
pub data Ran : Type 0 where
  printed : List ℕ → Ran
  ran_failed : Text → Text → Ran

-- commandError
unfoldable pub command_error : Text → Text → Text → Error
command_error name failure stderr = command_failed name failure (trim_space stderr)

abbrev pub of_decoded : Option Text → Result Text
of_decoded none = err text_not_utf8
of_decoded (some text) = ok text

unfoldable pub read_output : (List ℕ → Option Text) → ℤ → Text → Ran → Result Text
unfolding command_error
read_output decode limit name (ran_failed failure stderr) = err (command_error name failure stderr)
read_output decode limit name (printed []) = err no_clipboard_text
read_output decode limit name (printed (b ∷ bs)) =
    if ltb_ℤ limit (pos (length (b ∷ bs)))
    then err (clipboard_text_exceeds (length (b ∷ bs)) limit)
    else of_decoded (decode (b ∷ bs))

-- ReadText, with what running a command gives
unfoldable pub read_text : (List ℕ → Option Text) → CommandAdapter → (List Text → Ran) → Result Text
unfolding read_output
read_text decode a run = elim a.read_cmd [
  | [] ↦ err clipboard_unsupported
  | name ∷ arguments ↦ read_output decode a.max_read_bytes name (run (name ∷ arguments))
]

abbrev pub write_result : Text → Ran → Option Error
unfolding command_error
write_result name (printed bytes) = none
write_result name (ran_failed failure stderr) = some (command_error name failure stderr)

-- WriteText, with what running a command on a text gives
unfoldable pub write_text : CommandAdapter → (List Text → Text → Ran) → Text → Option Error
write_text a run text = elim a.write_cmd [
  | [] ↦ some clipboard_unsupported
  | name ∷ arguments ↦
      if not (valid_string text)
      then some text_not_utf8
      else write_result name (run (name ∷ arguments) text)
]

-- A reading of the watcher: ErrNoText, another error by its message, or a text.
pub data Reading : Type 0 where
  no_text : Reading
  unreadable : Text → Reading
  text : Text → Reading

abbrev pub is_no_text : Error → Bool
is_no_text no_clipboard_text = true
is_no_text _ = false

-- What ReadText returned, with the message of its error.
unfoldable pub reading_of : (Error → Text) → Result Text → Reading
reading_of describe (ok t) = text t
reading_of describe (err e) = if is_no_text e then no_text else unreadable (describe e)

-- What is sent to the channel.
pub data Sent : Type 0 where
  sent_text : Text → Sent
  sent_error : Text → Sent

pub record Watch : Type 0 where
  pub last_text : Text
  pub have_baseline : Bool
  pub last_err : Text

abbrev pub new_watch : Watch
new_watch = record { last_text = []; have_baseline = false; last_err = [] }

-- One tick of WatchText's loop.
unfoldable pub watch_tick : Watch → Reading → Watch × Option Sent
watch_tick w no_text = (w, none)
watch_tick w (unreadable m) =
    if text_eq m w.last_err then (w, none) else (record w { last_err = m }, some (sent_error m))
watch_tick w (text t) =
    if not w.have_baseline
    then (record { last_text = t; have_baseline = true; last_err = [] }, none)
    else if text_eq t w.last_text
    then (record w { last_err = [] }, none)
    else (record w { last_text = t; last_err = [] }, some (sent_text t))

-- The loop, as long as the readings last.
unfoldable pub watch_all : Watch → List Reading → List (Option Sent)
unfolding watch_tick
watch_all w [] = []
watch_all w (r ∷ rs) = let ticked = watch_tick w r in ticked.1 ∷ watch_all ticked.0 rs
