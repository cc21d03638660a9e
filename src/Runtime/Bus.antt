-- ===== src/Runtime/Bus.antt =====
-- The topic lists of a configuration, and the loops that subscribe, unsubscribe and publish.
use myflowhub_clipboardnode.Base.{
  ℕ, not, ◌&&◌, Option, none, some, List, [], ◌∷◌, ◌++◌, Text, codes, text_eq, is_empty, trim_space,
  if◌then◌else◌, Error, wrapped, joined, topicbus_required,
}
use myflowhub_clipboardnode.Dedupe.{member}
use myflowhub_clipboardnode.Config.{Config, TopicRoute}
use myflowhub_clipboardnode.Runtime.{Runtime, Env, perform, subscribe, unsubscribe, publish}

abbrev pub route_list : Option (List TopicRoute) → List TopicRoute
route_list none = []
route_list (some rs) = rs

unfoldable pub topics_of : List TopicRoute → List Text
topics_of [] = []
topics_of (r ∷ rs) = let rest = topics_of rs in if is_empty r.topic then rest else r.topic ∷ rest

abbrev pub subscription_topics : Config → List Text
subscription_topics c = topics_of (route_list c.topics)

unfoldable pub publishing : List TopicRoute → List Text
publishing [] = []
publishing (r ∷ rs) =
    let rest = publishing rs in
    if r.sync_from_local && not (is_empty r.topic) then r.topic ∷ rest else rest

abbrev pub publish_topics : Config → List Text
publish_topics c = publishing (route_list c.topics)

unfoldable pub find_route : Text → List TopicRoute → Option TopicRoute
find_route t [] = none
find_route t (r ∷ rs) = if text_eq r.topic t then some r else find_route t rs

abbrev pub topic_route_for : Config → Text → Option TopicRoute
topic_route_for c t = find_route (trim_space t) (route_list c.topics)

-- The topics of the first list that are not in the second.
unfoldable pub minus : List Text → List Text → List Text
unfolding member
minus [] us = []
minus (t ∷ ts) us = let rest = minus ts us in if member t us then rest else t ∷ rest

unfoldable pub topics_to_subscribe : Config → Config → List Text
topics_to_subscribe previous next =
    if not next.enabled
    then []
    else if not previous.enabled
    then subscription_topics next
    else minus (subscription_topics next) (subscription_topics previous)

unfoldable pub topics_to_unsubscribe : Config → Config → List Text
topics_to_unsubscribe previous next =
    if not previous.enabled
    then []
    else if not next.enabled
    then subscription_topics previous
    else minus (subscription_topics previous) (subscription_topics next)

-- strings.Join(topics, ", ")
unfoldable pub topic_list_label : List Text → Text
topic_list_label [] = []
topic_list_label (t ∷ []) = t
topic_list_label (t ∷ u ∷ ts) = t ++ codes ", " ++ topic_list_label (u ∷ ts)

-- errors.Join
unfoldable pub join_errors : List Error → Option Error
join_errors [] = none
join_errors (e ∷ es) = elim (join_errors es) [ none ↦ some e | some rest ↦ some (joined e rest) ]

module _ (env : Env) where
  -- The topics subscribed, and the error at which the loop stopped.
  unfoldable pub subscribe_loop : Runtime → List Text → Runtime × List Text × Option Error
  unfolding perform
  subscribe_loop r [] = (r, [], none)
  subscribe_loop r (t ∷ ts) =
      let done = perform env r (subscribe t) in
      elim done.1 [
        | some e ↦ (done.0, [], some (wrapped (codes "subscribe") t e))
        | none ↦ let rest = subscribe_loop done.0 ts in (rest.0, t ∷ rest.1, rest.2)
      ]

  unfoldable pub subscribe_topics : Runtime → List Text → Runtime × List Text × Option Error
  subscribe_topics r ts =
      if r.has_topic_bus then subscribe_loop r ts else (r, [], some topicbus_required)

  abbrev pub failed_with : Text → Option Error → List Error → List Error
  failed_with t none es = es
  failed_with t (some e) es = wrapped (codes "unsubscribe") t e ∷ es

  -- Every topic is tried, whatever fails.
  unfoldable pub unsubscribe_loop : Runtime → List Text → Runtime × List Error
  unfolding perform
  unsubscribe_loop r [] = (r, [])
  unsubscribe_loop r (t ∷ ts) =
      let done = perform env r (unsubscribe t) in
      let rest = unsubscribe_loop done.0 ts in (rest.0, failed_with t done.1 rest.1)

  unfoldable pub unsubscribe_topics : Runtime → List Text → Runtime × Option Error
  unsubscribe_topics r ts =
      let done = unsubscribe_loop r ts in
      if r.has_topic_bus then (done.0, join_errors done.1) else (r, none)

  -- The loops that publish: the first topic that fails ends them.
  unfoldable pub publish_all : Runtime → List Text → Text → List ℕ → Runtime × Option (Text × Error)
  unfolding perform
  publish_all r [] name payload = (r, none)
  publish_all r (t ∷ ts) name payload =
      let done = perform env r (publish t name payload) in
      elim done.1 [ some e ↦ (done.0, some (t, e)) | none ↦ publish_all done.0 ts name payload ]
