-- ===== src/Event/Expansion.antt =====
-- encoding/json writes `<` as a six-byte escape, and the envelope limit does not allow for it.
use myflowhub_clipboardnode.Base.{
  ℕ, suc, ◌≤◌, ◌<◌, ◌+◌, ◌*◌, ◌≡◌, ap, List, [], ◌∷◌, Text, arith, ◌==◌, length, if◌then◌else◌, ok,
  err, >>=-eq-ok, pos, payload_too_large,
}
use myflowhub_clipboardnode.Event.{
  Platform, TextEvent, normalize_text_event, marshal_text_event, parse_text_event,
}
use myflowhub_clipboardnode.Event.TextEvents.{normalize_text_event_iff}

abbrev pub angle_count : Text → ℕ
angle_count [] = 0
angle_count (c ∷ t) = if c == b'<' then suc (angle_count t) else angle_count t

-- encoding/json's HTML escaping, which json.Marshal always does.
pub record IsEscaping (p : Platform) : Type 0 where
  pub escapes :
      (e : TextEvent) (b : List ℕ) → p.encode_event e ≡ ok b → 6 * angle_count e.text ≤ length b

-- A text event whose text is accepted inline and is marshalled without error is refused by every
-- receiver with the same limit n, as too large, once its text holds more than (n + 4096) / 6 `<`.
pub parse-marshal_fails :
    (p : Platform) (e : TextEvent) (n : ℕ) (b : List ℕ)
    → IsEscaping p
    → n + 4096 < 6 * angle_count e.text
    → marshal_text_event p e (pos n) ≡ ok b
    → parse_text_event p b (pos n) ≡ err payload_too_large
unfolding marshal_text_event parse_text_event
parse-marshal_fails p e n b json many marshalled =
    let (out, normal, encoded) = >>=-eq-ok (normalize_text_event p e (pos n)) _ marshalled in
    let (_, made) = (normalize_text_event_iff p e (pos n) out).0 normal in
    let long : 6 * angle_count e.text ≤ length b =
      rw (ap (λ x. angle_count x.text) made) at (json.escapes out b encoded) in
    ground arith
