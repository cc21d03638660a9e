-- ===== src/Clipboard/Tests.antt =====
-- The theorem on the watcher at five readings, and a choice of commands.
use myflowhub_clipboardnode.Base.{
  ◌≡◌, ◌≢◌, refl, Bool, List, [], ◌∷◌, Text, codes, text_eq, ok, pos,
}
use myflowhub_clipboardnode.Clipboard.{
  Reading, no_text, unreadable, text, new_watch, watch_all, new_clipboard_adapter,
}
use myflowhub_clipboardnode.Clipboard.Watching.{due_all, watch_all-due}

abbrev pub sample_readings : List Reading
sample_readings =
    text (codes "a")
    ∷ no_text
    ∷ text (codes "b")
    ∷ unreadable (codes "x")
    ∷ unreadable (codes "x")
    ∷ []

filled : codes "x" ≢ []
filled e = cc

watch_all-due_example : watch_all new_watch sample_readings ≡ due_all [] sample_readings
watch_all-due_example = watch_all-due sample_readings (tt, (tt, (tt, (filled, (filled, tt)))))

abbrev pub has_xsel : Text → Bool
has_xsel name = text_eq name (codes "xsel")

xsel_test :
    new_clipboard_adapter has_xsel (codes "linux") (pos 100)
    ≡ ok (record {
      read_cmd = codes "xsel" ∷ codes "--clipboard" ∷ codes "--output" ∷ [];
      write_cmd = codes "xsel" ∷ codes "--clipboard" ∷ codes "--input" ∷ [];
      max_read_bytes = pos 100;
    })
unfolding new_clipboard_adapter text_eq
xsel_test = refl
