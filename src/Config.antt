-- ===== src/Config.antt =====
-- core/runtime/config.go: the configuration and its normalisation. `topics` is `none` for a nil slice.
pub mod Tests
pub mod Routes
pub mod Normal
use myflowhub_clipboardnode.Base.{
  ℕ, suc, ◌+◌, Bool, true, false, not, ◌&&◌, ◌||◌, Option, none, some, List, [], ◌∷◌, ◌++◌, Text,
  codes, text_eq, is_empty, trim_space, ltb, ℤ, pos, ltb_ℤ, eq_ℤ, length, if◌then◌else◌, Result, ok,
  err, ◌>>=◌, ◌>>◌, fail_if, max_inline_bytes_not_positive, history_limit_not_positive,
  history_limit_too_large, no_topic_when_enabled, no_topic_route, too_many_topics, topic_required,
  duplicate_topic, unsupported_history_retention, transfer_provider_required, transfer_ref_required,
}
use myflowhub_clipboardnode.Dedupe.{member}

abbrev pub default_parent_endpoint : Text
default_parent_endpoint = codes "127.0.0.1:9000"

abbrev pub default_topic : Text
default_topic = codes "clipboard.text"

abbrev pub default_max_inline_bytes : ℤ
default_max_inline_bytes = pos 65536

abbrev pub default_device_id : Text
default_device_id = codes "local-device"

abbrev pub default_history_limit : ℤ
default_history_limit = pos 256

abbrev pub max_topic_routes : ℕ
max_topic_routes = 32

abbrev pub max_history_limit : ℤ
max_history_limit = pos 5000

abbrev pub retention_none : Text
retention_none = codes "none"

abbrev pub retention_metadata : Text
retention_metadata = codes "metadata"

abbrev pub retention_body : Text
retention_body = codes "body"

pub record TopicRoute : Type 0 where
  pub topic : Text
  pub sync_to_local : Bool
  pub sync_from_local : Bool

pub record Config : Type 0 where
  pub enabled : Bool
  pub parent_endpoint : Text
  pub topic : Text
  pub topics : Option (List TopicRoute)
  pub max_inline_bytes : ℤ
  pub device_id : Text
  pub display_name : Text
  pub device_label : Text
  pub auto_watch : Bool
  pub auto_apply : Bool
  pub history_retention : Text
  pub history_limit : ℤ
  pub transfer_provider : Text
  pub transfer_ref : Text

abbrev pub default_topic_route : TopicRoute
default_topic_route = record { topic = default_topic; sync_to_local = true; sync_from_local = true }

abbrev pub default_config : Config
default_config = record {
  enabled = false;
  parent_endpoint = default_parent_endpoint;
  topic = default_topic;
  topics = some (default_topic_route ∷ []);
  max_inline_bytes = default_max_inline_bytes;
  device_id = default_device_id;
  display_name = default_device_id;
  device_label = default_device_id;
  auto_watch = false;
  auto_apply = false;
  history_retention = retention_body;
  history_limit = default_history_limit;
  transfer_provider = [];
  transfer_ref = [];
}

-- `if s == "" { s = d }`
abbrev pub or_default : Text → Text → Text
or_default [] d = d
or_default (c ∷ s) d = c ∷ s

abbrev pub or_default_int : ℤ → ℤ → ℤ
or_default_int n d = if eq_ℤ n (pos 0) then d else n

-- The loop over the routes, from index i, with the topics seen so far.
unfoldable pub check_routes : ℕ → List Text → List TopicRoute → Result (List TopicRoute)
unfolding member
check_routes i seen [] = ok []
check_routes i seen (route ∷ routes) = do
  let t = trim_space route.topic
  let rest = check_routes (i + 1) (seen ++ t ∷ []) routes
  fail_if (is_empty t) (topic_required i)
  fail_if (member t seen) (duplicate_topic t)
  out ← rest
  ok (record route { topic = t } ∷ out)

unfoldable pub normalize_topic_routes : Text → Option (List TopicRoute) → Result (List TopicRoute)
unfolding check_routes
normalize_topic_routes legacy_topic none = ok (
    record {
      topic = or_default (trim_space legacy_topic) default_topic;
      sync_to_local = true;
      sync_from_local = true;
    }
    ∷ [])
normalize_topic_routes legacy_topic (some routes) = do
  fail_if (ltb (length routes) 1) no_topic_route
  fail_if (ltb max_topic_routes (length routes)) too_many_topics
  check_routes 0 [] routes

-- routes[0].Topic; `normalize_topic_routes` never returns an empty list.
abbrev pub first_topic : List TopicRoute → Text
first_topic [] = []
first_topic (route ∷ routes) = route.topic

-- The defaults that NormalizeConfig fills in, once the texts are trimmed and the routes are known.
unfoldable pub fill_defaults : Config → List TopicRoute → Config
fill_defaults c routes =
    let label = trim_space c.device_label in
    let device_id = or_default (or_default (trim_space c.device_id) label) default_device_id in
    let display_name = or_default (or_default (trim_space c.display_name) label) device_id in
    record {
      enabled = c.enabled;
      parent_endpoint = or_default (trim_space c.parent_endpoint) default_parent_endpoint;
      topic = first_topic routes;
      topics = some routes;
      max_inline_bytes = or_default_int c.max_inline_bytes default_max_inline_bytes;
      device_id = device_id;
      display_name = display_name;
      device_label = display_name;
      auto_watch = c.auto_watch;
      auto_apply = c.auto_apply;
      history_retention = or_default (trim_space c.history_retention) retention_body;
      history_limit = or_default_int c.history_limit default_history_limit;
      transfer_provider = trim_space c.transfer_provider;
      transfer_ref = trim_space c.transfer_ref;
    }

abbrev pub is_retention : Text → Bool
is_retention r =
    text_eq r retention_none || text_eq r retention_metadata || text_eq r retention_body

-- The checks at the end of NormalizeConfig.
unfoldable pub check_config : Config → List TopicRoute → Result Config
check_config c routes = do
  fail_if (ltb_ℤ c.max_inline_bytes (pos 0)) max_inline_bytes_not_positive
  fail_if (ltb_ℤ c.history_limit (pos 0)) history_limit_not_positive
  fail_if (ltb_ℤ max_history_limit c.history_limit) history_limit_too_large
  fail_if (c.enabled && ltb (length routes) 1) no_topic_when_enabled
  fail_if (not (is_retention c.history_retention))
      (unsupported_history_retention c.history_retention)
  fail_if (is_empty c.transfer_provider && not (is_empty c.transfer_ref)) transfer_provider_required
  fail_if (not (is_empty c.transfer_provider) && is_empty c.transfer_ref) transfer_ref_required
  ok c

unfoldable pub normalize_config : Config → Result Config
normalize_config c = do
  routes ← normalize_topic_routes (trim_space c.topic) c.topics
  check_config (fill_defaults c routes) routes

-- CloneTopicRoutes: an empty slice becomes nil.
unfoldable pub clone_topic_routes : Option (List TopicRoute) → Option (List TopicRoute)
clone_topic_routes none = none
clone_topic_routes (some []) = none
clone_topic_routes (some (r ∷ rs)) = some (r ∷ rs)
