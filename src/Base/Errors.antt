-- ===== src/Base/Errors.antt =====
-- The errors of the source, one constructor for each message, and the results that carry them.
use Prim.Native.Nat.{ℕ}
use mathlib.Core.Path.{◌≡◌, refl}
use mathlib.Core.Logic.{◌⊎◌, inl, inr}
use mathlib.Core.Bool.{Bool, true, false}
use mathlib.Core.Option.{Option, none, some}
use mathlib.Core.List.{[]}
use myflowhub_clipboardnode.Base.Int.{ℤ}
use myflowhub_clipboardnode.Base.Strings.{Text}

pub data Error : Type 0 where
  max_inline_bytes_not_positive history_limit_not_positive history_limit_too_large : Error
  no_topic_when_enabled no_topic_route too_many_topics : Error
  topic_required : ℕ → Error
  duplicate_topic unsupported_history_retention : Text → Error
  transfer_provider_required transfer_ref_required : Error
  text_too_large : ℕ → ℤ → Error
  text_empty text_not_utf8 text_has_null : Error
  unsupported_version : ℤ → Error
  event_id_required event_id_too_long origin_node_required origin_instance_id_required : Error
  payload_required payload_too_large : Error
  unsupported_content_type unsupported_encoding : Text → Error
  size_not_positive bad_sha256_length bad_sha256_hex no_reference : Error
  reference_provider_required reference_target_required : ℕ → Error
  ts_required : Error
  node_id_required instance_id_required : Error
  topicbus_required clipboard_required : Error
  pending_not_found : Text → Error
  history_text_required : Error
  -- core/myflowhub
  work_dir_required endpoint_required device_id_required login_node_required : Error
  not_connected login_nonce_failed register_without_node login_required : Error
  bus_topic_required bus_name_required event_queue_full : Error
  hub_refused unexpected_action : Text → Error
  -- core/engine
  engine_not_started engine_clipboard_required decision_queue_full : Error
  -- core/auth
  nonce_required key_path_required public_key_empty private_key_not_p256 : Error
  -- core/configstore
  config_path_required : Error
  -- core/clipboard and platform
  no_clipboard_text clipboard_unsupported read_limit_not_positive : Error
  clipboard_text_exceeds : ℕ → ℤ → Error
  command_failed : Text → Text → Text → Error
  -- cmd/clipboardnode-bridge
  unsupported_command : Text → Error
  web_port_required web_host_required : Error
  web_not_loopback : Text → Error
  -- an error of the platform, the hub or the file system
  external : Text → Error
  -- an error wrapped in a message, with the topic or name that the message shows
  wrapped : Text → Text → Error → Error
  -- errors.Join of an error and those after it
  joined : Error → Error → Error

pub data Result {ℓ} (X : Type ℓ) : Type ℓ where
  err : Error → Result X
  ok : X → Result X

infixl 5 ◌>>=◌ ◌>>◌
-- `if err != nil { return ..., err }` after a call.
abbrev pub ◌>>=◌ {ℓ κ} : {X : Type ℓ} {Y : Type κ} → Result X → (X → Result Y) → Result Y
err failure >>= next = err failure
ok value >>= next = next value

abbrev pub ◌>>◌ {ℓ} : {Y : Type ℓ} → Result (Unit {0}) → Result Y → Result Y
check >> next = check >>= λ _. next

-- `if test { return err }`
abbrev pub fail_if : Bool → Error → Result (Unit {0})
fail_if true e = err e
fail_if false e = ok tt

-- The error that a Go function returns beside its value; `none` is nil.
abbrev pub error_of {ℓ} : {A : Type ℓ} → Result A → Option Error
error_of (ok a) = none
error_of (err e) = some e

-- `fmt.Errorf("...: %w", err)`
abbrev pub wrap_with {ℓ} : {A : Type ℓ} → Text → Result A → Result A
wrap_with m (ok a) = ok a
wrap_with m (err e) = err (wrapped m [] e)

pub Result-cases {ℓ} :
    {A : Type ℓ} (r : Result A) → ((a : A) × (r ≡ ok a)) ⊎ ((e : Error) × (r ≡ err e))
Result-cases (ok a) = inl (a, refl)
Result-cases (err e) = inr (e, refl)

-- Inversion of a successful bind.
pub >>=-eq-ok {ℓ κ} :
    {X : Type ℓ} {Y : Type κ} (call : Result X) (next : X → Result Y) {y : Y}
    → (call >>= next) ≡ ok y
    → (x : X) × (call ≡ ok x) × (next x ≡ ok y)
>>=-eq-ok (err failure) next h = cc
>>=-eq-ok (ok x) next h = (x, refl, h)

-- Inversion of a guard that passed.
pub fail_if-eq-ok {ℓ} :
    {B : Type ℓ} (test : Bool) (e : Error) (k : Result B) {b : B}
    → (fail_if test e >> k) ≡ ok b
    → (test ≡ false) × (k ≡ ok b)
fail_if-eq-ok true e k h = cc
fail_if-eq-ok false e k h = (refl, h)

pub ok_inj {ℓ} : {X : Type ℓ} {x y : X} → Result.ok x ≡ ok y → x ≡ y
ok_inj h = cc
