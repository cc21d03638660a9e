-- ===== src/Runtime/Tests.antt =====
-- The theorems on the runtime at concrete inputs.
use myflowhub_clipboardnode.Base.{
  ℕ, ◌≡◌, refl, List, [], ◌∷◌, Option, some, none, Text, codes, ℤ, pos, true, false, Bool, arith,
  Result, ok, text_eq,
}
use myflowhub_clipboardnode.Config.{
  Config, TopicRoute, default_config, default_topic_route, default_topic, normalize_config,
}
use myflowhub_clipboardnode.Dedupe.{BoundedSet, new_bounded_set}
use myflowhub_clipboardnode.Dedupe.Bounds.{new-IsBounded}
use myflowhub_clipboardnode.Dedupe.Window.{new-IsFresh}
use myflowhub_clipboardnode.Event.{TextEvent, Platform, parse_text_event, text_event_name}
use myflowhub_clipboardnode.Event.TextEvents.{normalized}
use myflowhub_clipboardnode.Event.Samples.{sample_platform, sample_event, event_payload}
use myflowhub_clipboardnode.Runtime.{
  Runtime, Env, Status, Decision, Action, Call, write_text, unset, decide, ignored_duplicate,
  remote_applied, clipboard_write_failed,
}
use myflowhub_clipboardnode.Base.{trim_space, pending_not_found}
use myflowhub_clipboardnode.Runtime.{PendingText, decision}
use myflowhub_clipboardnode.Runtime.Remote.{apply_pending}
use myflowhub_clipboardnode.Runtime.Handlers.Held.{Releases, apply_pending-Releases}
use myflowhub_clipboardnode.Runtime.Sync.Stops.{stop-Settles}
use myflowhub_clipboardnode.Dedupe.{consume}
use myflowhub_clipboardnode.Event.{
  TextDigest, inspect_text, new_text_event_with_digest, marshal_text_event,
}
use myflowhub_clipboardnode.Runtime.{local_published}
use myflowhub_clipboardnode.Runtime.Bus.{publish_topics}
use myflowhub_clipboardnode.Runtime.Handlers.Publication.{
  handle_local_text-publishes, IsPublishable, IsPublished, event_of,
}
use myflowhub_clipboardnode.Runtime.Handlers.Writes.{IsApplicable}
use myflowhub_clipboardnode.Runtime.Handlers.Duplicates.{redelivery-ignored}
use myflowhub_clipboardnode.Runtime.Handlers.Retries.{failed_write-Unmarked, Unmarked}
use myflowhub_clipboardnode.Runtime.Lifecycle.{stop, start, update_config}
use myflowhub_clipboardnode.Runtime.Local.{handle_local_text}
use myflowhub_clipboardnode.Runtime.Remote.{Message, of_event, handle_topic_bus_message}
use myflowhub_clipboardnode.Runtime.Handlers.Writes.{
  IsAdmitted, WritesOnce, handle_topic_bus_message-WritesOnce,
}
use myflowhub_clipboardnode.Runtime.Handlers.Loops.{applied-IsSuppressed, IsSuppressed}
use myflowhub_clipboardnode.Runtime.Handlers.FanOut.{FansOut, handle_local_text-FansOut}
use myflowhub_clipboardnode.Runtime.Sync.Follows.{Settles, start-Settles}
use myflowhub_clipboardnode.Runtime.Sync.Updates.{update_config-Settles}

abbrev quiet_env : Env
quiet_env = record { answer = λ l c. none; now = λ n. pos n; new_event_id = λ n. ok (codes "id") }

abbrev on_config : Config
on_config = record default_config { enabled = true; auto_apply = true }

abbrev blank_status : Status
blank_status = record {
  enabled = true;
  topic = default_topic;
  topics = none;
  auto_watch = false;
  auto_apply = true;
  started = false;
  subscribed = false;
  watching = false;
  pending_event_id = [];
  pending_topic = [];
  pending_size = pos 0;
  pending_hash_prefix = [];
  last_action = unset;
  last_event_id = [];
  last_size = pos 0;
  last_hash = [];
  last_error = none;
  last_updated = pos 0;
}

abbrev idle : Runtime
idle = record {
  cfg = on_config;
  node_id = 4;
  instance_id = codes "phone";
  has_clipboard = true;
  has_topic_bus = true;
  recent_events = new_bounded_set (pos 3);
  suppress_hashes = new_bounded_set (pos 2);
  last_local_hash = [];
  pending_remote = [];
  pending_order = [];
  pending_limit = pos 3;
  decisions = [];
  decision_buffer = 2;
  started = false;
  subscribed = false;
  watching = false;
  run_ctx = false;
  cancel = false;
  watch_cancel = none;
  status = blank_status;
  log = [];
  clock_reads = 1;
  ids_drawn = 0;
  watchers = 0;
}

abbrev remote_event : TextEvent
remote_event = normalized sample_platform sample_event

abbrev remote_message : Message
remote_message = record {
  topic = default_topic;
  name = text_event_name;
  payload = event_payload remote_event;
}

handle_topic_bus_message-WritesOnce_example :
    WritesOnce quiet_env sample_platform idle remote_message
      (handle_topic_bus_message quiet_env sample_platform idle remote_message)
handle_topic_bus_message-WritesOnce_example =
    handle_topic_bus_message-WritesOnce quiet_env sample_platform idle remote_message

parsed_there :
    parse_text_event sample_platform (event_payload remote_event) (pos 65536) ≡ ok remote_event
unfolding parse_text_event sample_platform event_payload myflowhub_clipboardnode.Base.trim_space
    myflowhub_clipboardnode.Event.normalize_text_event myflowhub_clipboardnode.Base.byte_len
    myflowhub_clipboardnode.Event.inspect_text myflowhub_clipboardnode.Base.valid_string
    myflowhub_clipboardnode.Base.contains_rune
parsed_there = refl

admitted : IsAdmitted quiet_env sample_platform idle remote_message remote_event
unfolding text_eq myflowhub_clipboardnode.Runtime.Bus.find_route
    myflowhub_clipboardnode.Base.trim_space
admitted = record {
  enabled = refl;
  route = (default_topic_route, refl, refl);
  name = refl;
  parsed = parsed_there;
}

applied_there :
    (handle_topic_bus_message quiet_env sample_platform idle remote_message).1.action
    ≡ remote_applied
unfolding handle_topic_bus_message parse_text_event sample_platform event_payload
    myflowhub_clipboardnode.Runtime.Bus.find_route text_eq myflowhub_clipboardnode.Base.trim_space
    myflowhub_clipboardnode.Event.normalize_text_event myflowhub_clipboardnode.Base.byte_len
    myflowhub_clipboardnode.Event.inspect_text myflowhub_clipboardnode.Base.valid_string
    myflowhub_clipboardnode.Base.contains_rune myflowhub_clipboardnode.Event.is_local_origin
    myflowhub_clipboardnode.Dedupe.contains new_bounded_set
    myflowhub_clipboardnode.Runtime.find_pending myflowhub_clipboardnode.Runtime.perform
applied_there = refl

redelivery-ignored_example :
    handle_topic_bus_message quiet_env sample_platform
      (handle_topic_bus_message quiet_env sample_platform idle remote_message).0
      remote_message
    ≡ decide quiet_env
        (handle_topic_bus_message quiet_env sample_platform idle remote_message).0
        (of_event ignored_duplicate remote_event default_topic)
redelivery-ignored_example =
    redelivery-ignored quiet_env sample_platform idle remote_message remote_event admitted
      (new-IsFresh (pos 3)) applied_there

applied-IsSuppressed_example :
    IsSuppressed quiet_env sample_platform
      (handle_topic_bus_message quiet_env sample_platform idle remote_message).0
      (handle_local_text quiet_env sample_platform
        (handle_topic_bus_message quiet_env sample_platform idle remote_message).0
        (codes "hi"))
unfolding new_bounded_set myflowhub_clipboardnode.Dedupe.member
    myflowhub_clipboardnode.Event.hash_text myflowhub_clipboardnode.Event.hex_encode sample_platform
applied-IsSuppressed_example =
    applied-IsSuppressed quiet_env sample_platform idle remote_message remote_event admitted refl
      (new-IsBounded (pos 2)) refl refl applied_there

abbrev bare : Runtime
bare = record idle { has_clipboard = false }

IsAdmitted-bare : IsAdmitted quiet_env sample_platform bare remote_message remote_event
unfolding text_eq myflowhub_clipboardnode.Runtime.Bus.find_route
    myflowhub_clipboardnode.Base.trim_space
IsAdmitted-bare = record {
  enabled = refl;
  route = (default_topic_route, refl, refl);
  name = refl;
  parsed = parsed_there;
}

failed_there :
    (handle_topic_bus_message quiet_env sample_platform bare remote_message).1.action
    ≡ clipboard_write_failed
unfolding handle_topic_bus_message parse_text_event sample_platform event_payload
    myflowhub_clipboardnode.Runtime.Bus.find_route text_eq myflowhub_clipboardnode.Base.trim_space
    myflowhub_clipboardnode.Event.normalize_text_event myflowhub_clipboardnode.Base.byte_len
    myflowhub_clipboardnode.Event.inspect_text myflowhub_clipboardnode.Base.valid_string
    myflowhub_clipboardnode.Base.contains_rune myflowhub_clipboardnode.Event.is_local_origin
    myflowhub_clipboardnode.Dedupe.contains new_bounded_set
    myflowhub_clipboardnode.Runtime.find_pending
failed_there = refl

failed_write-Unmarked_example :
    Unmarked quiet_env sample_platform bare
      (handle_topic_bus_message quiet_env sample_platform bare remote_message)
failed_write-Unmarked_example =
    failed_write-Unmarked quiet_env sample_platform bare remote_message remote_event IsAdmitted-bare
      failed_there

handle_local_text-FansOut_example :
    FansOut quiet_env sample_platform idle
      (codes "hi")
      (handle_local_text quiet_env sample_platform idle (codes "hi"))
handle_local_text-FansOut_example =
    handle_local_text-FansOut quiet_env sample_platform idle (codes "hi")

start-Settles_example : Settles true on_config (start quiet_env idle)
start-Settles_example = start-Settles quiet_env idle (λ t. refl)

normal_default : normalize_config default_config ≡ ok default_config
unfolding normalize_config myflowhub_clipboardnode.Config.normalize_topic_routes
    myflowhub_clipboardnode.Base.trim_space myflowhub_clipboardnode.Config.check_config
    myflowhub_clipboardnode.Config.fill_defaults text_eq
normal_default = refl

update_config-Settles_example :
    Settles false default_config (update_config quiet_env idle default_config)
update_config-Settles_example =
    update_config-Settles quiet_env idle default_config default_config normal_default refl
      (λ t. refl)

stop-Settles_example : Settles false on_config (stop quiet_env idle)
stop-Settles_example = stop-Settles quiet_env idle refl (λ t. refl) refl

abbrev held_text : PendingText
held_text = record {
  event = remote_event;
  topic = default_topic;
  hash_prefix = [];
  received_at = pos 5;
}

abbrev holding : Runtime
holding = record idle {
  pending_remote = (codes "e1", held_text) ∷ [];
  pending_order = codes "e1" ∷ [];
}

apply_pending-Releases_example :
    Releases quiet_env holding
      (trim_space (codes " e1 "))
      (apply_pending quiet_env holding (codes " e1 "))
apply_pending-Releases_example = apply_pending-Releases quiet_env holding (codes " e1 ")

released_there : (apply_pending quiet_env holding (codes " e1 ")).1.action ≡ remote_applied
unfolding apply_pending trim_space myflowhub_clipboardnode.Runtime.find_pending text_eq
    myflowhub_clipboardnode.Runtime.perform
released_there = refl

IsApplicable-there : IsApplicable quiet_env idle remote_event
unfolding new_bounded_set myflowhub_clipboardnode.Event.is_local_origin trim_space text_eq
    myflowhub_clipboardnode.Dedupe.contains myflowhub_clipboardnode.Runtime.find_pending
IsApplicable-there = record {
  remote = refl;
  unseen = refl;
  not_pending = refl;
  automatic = refl;
  adapter = refl;
}

-- The sample event passes every check, and the adapter accepts the write.
admitted_test :
    IsApplicable quiet_env idle remote_event
    × (quiet_env.answer idle.log (write_text remote_event.text) ≡ none)
admitted_test = (IsApplicable-there, refl)

abbrev local_event : TextEvent
local_event = event_of quiet_env sample_platform idle (codes "hi") (codes "id")

topics_there : publish_topics on_config ≡ default_topic ∷ []
unfolding text_eq myflowhub_clipboardnode.Runtime.Bus.publishing
topics_there = refl

IsPublishable-there :
    IsPublishable quiet_env sample_platform idle
      (codes "hi")
      (codes "id")
      (event_payload local_event)
unfolding text_eq trim_space new_bounded_set sample_platform event_payload
    myflowhub_clipboardnode.Base.valid_string myflowhub_clipboardnode.Base.contains_rune
    myflowhub_clipboardnode.Base.byte_len myflowhub_clipboardnode.Event.hash_text
    myflowhub_clipboardnode.Event.hex_encode myflowhub_clipboardnode.Dedupe.contains
IsPublishable-there = record {
  enabled = refl;
  bus = refl;
  inline = record { filled = refl; utf8 = refl; no_null = refl; fits = (65536, refl, omega arith) };
  unsuppressed = refl;
  changed = refl;
  node = omega arith;
  instance_id = refl;
  drawn_id = refl;
  id_filled = refl;
  id_short = omega arith;
  encoded = refl;
}

handle_local_text-publishes_example :
    IsPublished quiet_env sample_platform idle
      (codes "hi")
      local_event
      (event_payload local_event)
      (handle_local_text quiet_env sample_platform idle (codes "hi"))
handle_local_text-publishes_example =
    handle_local_text-publishes quiet_env sample_platform idle (codes "hi") (codes "id")
      (event_payload local_event) default_topic [] (λ l c. refl) IsPublishable-there topics_there
