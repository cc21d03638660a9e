-- ===== src/Config/Tests.antt =====
-- The theorems on the configuration at concrete inputs.
use myflowhub_clipboardnode.Base.{
  ℕ, ◌≡◌, ◌↔◌, refl, List, [], ◌∷◌, map, Option, some, none, Text, codes, ℤ, pos, true, false,
  arith, Result, ok,
}
use myflowhub_clipboardnode.Config.{
  Config, TopicRoute, default_config, normalize_config, normalize_topic_routes, first_topic,
}
use myflowhub_clipboardnode.Config.Routes.{IsAccepted, trim_route, normalize_topic_routes_iff}
use myflowhub_clipboardnode.Config.Normal.{IsNormal, normalize_config-IsNormal}

abbrev two_routes : List TopicRoute
two_routes =
    record { topic = codes " a "; sync_to_local = true; sync_from_local = false }
    ∷ record { topic = codes "b"; sync_to_local = false; sync_from_local = true }
    ∷ []

abbrev raw_config : Config
raw_config = record default_config { topics = some two_routes; enabled = true }

abbrev cooked_config : Config
cooked_config = record raw_config { topics = some (map trim_route two_routes); topic = codes "a" }

normalize_topic_routes_iff_example :
    (normalize_topic_routes (codes "x") (some two_routes) ≡ ok (map trim_route two_routes))
    ↔ (IsAccepted two_routes × (map trim_route two_routes ≡ map trim_route two_routes))
normalize_topic_routes_iff_example =
    normalize_topic_routes_iff (codes "x") two_routes (map trim_route two_routes)

cooked : normalize_config raw_config ≡ ok cooked_config
unfolding normalize_config myflowhub_clipboardnode.Config.normalize_topic_routes
    myflowhub_clipboardnode.Base.trim_space myflowhub_clipboardnode.Base.text_eq
    myflowhub_clipboardnode.Config.check_config myflowhub_clipboardnode.Config.fill_defaults
cooked = refl

normalize_config-IsNormal_example :
    IsNormal cooked_config
    × ((rs : List TopicRoute) × (cooked_config.topics ≡ some rs)
        × IsAccepted rs
        × (cooked_config.topic ≡ first_topic rs))
normalize_config-IsNormal_example = normalize_config-IsNormal raw_config cooked_config cooked
