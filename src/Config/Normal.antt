-- ===== src/Config/Normal.antt =====
-- What a normalised configuration satisfies, and that normalising it again changes nothing.
use myflowhub_clipboardnode.Base.{
  ℕ, suc, ◌<◌, ◌≡◌, refl, sym, ap, ◌∙◌, true, false, Option, none, some, List, [], ◌∷◌, Text, arith,
  is_empty, trim_space, text_eq, ok, Bool-cases, inl, inr, ℤ, pos, negsuc, ltb_ℤ, eq_ℤ, >>=-eq-ok,
}
use myflowhub_clipboardnode.Base.Strings.Laws.{trim_space_idem, text_eq_iff, text_eq_refl}
use myflowhub_clipboardnode.Dedupe.{member}
use myflowhub_clipboardnode.Config.{
  Config, TopicRoute, normalize_topic_routes, or_default, check_config, fill_defaults,
  normalize_config, is_retention, first_topic, max_history_limit, or_default_int,
  default_history_limit, default_max_inline_bytes, default_topic, retention_body, default_device_id,
  default_parent_endpoint,
}
use myflowhub_clipboardnode.Config.Routes.{
  IsAccepted, normalize_topic_routes_iff, normalize_topic_routes-some_idem,
}

pub record IsNormal (c : Config) : Type 0 where
  pub inline_bytes : (n : ℕ) × (c.max_inline_bytes ≡ pos (suc n))
  pub history_limit : (n : ℕ) × (c.history_limit ≡ pos (suc n)) × (n < 5000)
  pub retention : is_retention c.history_retention ≡ true
  pub transfer : is_empty c.transfer_provider ≡ is_empty c.transfer_ref
  pub device_id : is_empty c.device_id ≡ false
  pub display_name : is_empty c.display_name ≡ false
  pub device_label : c.device_label ≡ c.display_name
  pub parent_endpoint : is_empty c.parent_endpoint ≡ false

check_config_lem :
    (c d : Config) (rs : List TopicRoute)
    → check_config c rs ≡ ok d
    → (d ≡ c)
      × (ltb_ℤ c.max_inline_bytes (pos 0) ≡ false)
      × (ltb_ℤ c.history_limit (pos 0) ≡ false)
      × (ltb_ℤ max_history_limit c.history_limit ≡ false)
      × (is_retention c.history_retention ≡ true)
      × (is_empty c.transfer_provider ≡ is_empty c.transfer_ref)
unfolding check_config
check_config_lem c d rs h = ground arith

or_default-ne : (s d : Text) → is_empty d ≡ false → is_empty (or_default s d) ≡ false
or_default-ne [] d h = h
or_default-ne (c ∷ s) d h = refl

at_least_one :
    (n : ℤ) → ltb_ℤ n (pos 0) ≡ false → eq_ℤ n (pos 0) ≡ false → (k : ℕ) × (n ≡ pos (suc k))
at_least_one (pos ℕ.zero) h e = absurd (ground arith)
at_least_one (pos (suc k)) h e = (k, refl)
at_least_one (negsuc k) h e = absurd (ground arith)

below_max : (n : ℕ) → ltb_ℤ max_history_limit (pos (suc n)) ≡ false → n < 5000
below_max n h = ground arith

or_default_of_ne : (s d : Text) → is_empty s ≡ false → or_default s d ≡ s
or_default_of_ne [] d h = cc
or_default_of_ne (c ∷ s) d h = refl

or_default-trimmed :
    (s d : Text)
    → trim_space s ≡ s
    → trim_space d ≡ d
    → trim_space (or_default s d) ≡ or_default s d
or_default-trimmed [] d h k = k
or_default-trimmed (c ∷ s) d h k = h

trim_default_topic : trim_space default_topic ≡ default_topic
unfolding trim_space
trim_default_topic = refl

trim_default_device_id : trim_space default_device_id ≡ default_device_id
unfolding trim_space
trim_default_device_id = refl

trim_default_endpoint : trim_space default_parent_endpoint ≡ default_parent_endpoint
unfolding trim_space
trim_default_endpoint = refl

trim_retention_body : trim_space retention_body ≡ retention_body
unfolding trim_space
trim_retention_body = refl

abbrev legacy_route : Text → TopicRoute
legacy_route t = record { topic = t; sync_to_local = true; sync_from_local = true }

-- One route with a trimmed, non-empty topic is accepted and stays as it is.
one_route :
    (t other : Text)
    → trim_space t ≡ t
    → is_empty t ≡ false
    → IsAccepted (legacy_route t ∷ [])
      × (normalize_topic_routes other (some (legacy_route t ∷ [])) ≡ ok (legacy_route t ∷ []))
unfolding member
one_route t other trimmed filled =
    let a : IsAccepted (legacy_route t ∷ []) = record {
      some_route = omega arith;
      not_too_many = omega arith;
      fresh = (rw trimmed filled, refl, tt);
    } in
    (
      a,
      (normalize_topic_routes_iff other (legacy_route t ∷ []) (legacy_route t ∷ [])).1
          (a, λ i. legacy_route (sym trimmed i) ∷ []),
    )

-- The routes that a configuration is given, accepted or made from the legacy topic.
routes-IsAccepted :
    (legacy : Text) (topics : Option (List TopicRoute)) (rs : List TopicRoute)
    → normalize_topic_routes legacy topics ≡ ok rs
    → IsAccepted rs × (normalize_topic_routes (trim_space (first_topic rs)) (some rs) ≡ ok rs)
unfolding normalize_topic_routes
routes-IsAccepted legacy none rs h =
    let t = or_default (trim_space legacy) default_topic in
    let made : rs ≡ legacy_route t ∷ [] = cc in
    rw made (
      one_route t (trim_space t)
        (or_default-trimmed (trim_space legacy) default_topic (trim_space_idem legacy)
          trim_default_topic)
        (or_default-ne (trim_space legacy) default_topic refl))
routes-IsAccepted legacy (some topics) rs h =
    let (a, e) = (normalize_topic_routes_iff legacy topics rs).0 h in
    let again = normalize_topic_routes-some_idem legacy (trim_space (first_topic rs)) topics h in
    (((normalize_topic_routes_iff (trim_space (first_topic rs)) rs rs).0 again).0, again)

record IsSettled (d : Config) (rs : List TopicRoute) : Type 0 where
  topic : first_topic rs ≡ d.topic
  topics : some rs ≡ d.topics
  endpoint :
      (trim_space d.parent_endpoint ≡ d.parent_endpoint) × (is_empty d.parent_endpoint ≡ false)
  device_id : (trim_space d.device_id ≡ d.device_id) × (is_empty d.device_id ≡ false)
  display_name : (trim_space d.display_name ≡ d.display_name) × (is_empty d.display_name ≡ false)
  label : d.display_name ≡ d.device_label
  retention :
      (trim_space d.history_retention ≡ d.history_retention)
      × (is_empty d.history_retention ≡ false)
  limit : eq_ℤ d.history_limit (pos 0) ≡ false
  inline_bytes : eq_ℤ d.max_inline_bytes (pos 0) ≡ false
  provider : trim_space d.transfer_provider ≡ d.transfer_provider
  reference : trim_space d.transfer_ref ≡ d.transfer_ref

-- A settled configuration is left as it is by the defaults.
fill_settled : (d : Config) (rs : List TopicRoute) → IsSettled d rs → fill_defaults d rs ≡ d
unfolding fill_defaults
fill_settled d rs s = λ i. record {
  enabled = d.enabled;
  parent_endpoint = endpoint i;
  topic = s.topic i;
  topics = s.topics i;
  max_inline_bytes = inline_bytes i;
  device_id = device_id i;
  display_name = display_name i;
  device_label = (display_name ∙ s.label) i;
  auto_watch = d.auto_watch;
  auto_apply = d.auto_apply;
  history_retention = retention i;
  history_limit = limit i;
  transfer_provider = s.provider i;
  transfer_ref = s.reference i;
}
  where
    kept : (t u : Text) → trim_space t ≡ t → is_empty t ≡ false → or_default (trim_space t) u ≡ t
    kept t u trimmed filled = rw trimmed (or_default_of_ne t u filled)

    endpoint : or_default (trim_space d.parent_endpoint) default_parent_endpoint ≡ d.parent_endpoint
    endpoint = kept d.parent_endpoint default_parent_endpoint s.endpoint.0 s.endpoint.1

    device_id :
        or_default
          (or_default (trim_space d.device_id) (trim_space d.device_label))
          default_device_id
        ≡ d.device_id
    device_id =
        rw (kept d.device_id (trim_space d.device_label) s.device_id.0 s.device_id.1)
          (or_default_of_ne d.device_id default_device_id s.device_id.1)

    display_name :
        or_default (or_default (trim_space d.display_name) (trim_space d.device_label)) (
          or_default
            (or_default (trim_space d.device_id) (trim_space d.device_label))
            default_device_id)
        ≡ d.display_name
    display_name =
        rw (kept d.display_name (trim_space d.device_label) s.display_name.0 s.display_name.1)
          (or_default_of_ne d.display_name _ s.display_name.1)

    retention : or_default (trim_space d.history_retention) retention_body ≡ d.history_retention
    retention = kept d.history_retention retention_body s.retention.0 s.retention.1

    limit : or_default_int d.history_limit default_history_limit ≡ d.history_limit
    limit = rw s.limit refl

    inline_bytes : or_default_int d.max_inline_bytes default_max_inline_bytes ≡ d.max_inline_bytes
    inline_bytes = rw s.inline_bytes refl

or_default_int-ne : (n d : ℤ) → eq_ℤ d (pos 0) ≡ false → eq_ℤ (or_default_int n d) (pos 0) ≡ false
or_default_int-ne n d h = elim (Bool-cases (eq_ℤ n (pos 0))) [ inl e ↦ rw e h | inr e ↦ rw e e ]

-- The defaults of any configuration are settled.
fill-IsSettled : (c : Config) (rs : List TopicRoute) → IsSettled (fill_defaults c rs) rs
unfolding fill_defaults
fill-IsSettled c rs = record {
  topic = refl;
  topics = refl;
  endpoint = (
    or_default-trimmed _ _ (trim_space_idem c.parent_endpoint) trim_default_endpoint,
    or_default-ne _ default_parent_endpoint refl,
  );
  device_id = (device_trimmed, device_filled);
  display_name = (
    or_default-trimmed _ _
        (or_default-trimmed _ _ (trim_space_idem c.display_name) (trim_space_idem c.device_label))
        device_trimmed,
    or_default-ne (or_default (trim_space c.display_name) (trim_space c.device_label)) _
        device_filled,
  );
  label = refl;
  retention = (
    or_default-trimmed _ _ (trim_space_idem c.history_retention) trim_retention_body,
    or_default-ne _ retention_body refl,
  );
  limit = or_default_int-ne c.history_limit default_history_limit refl;
  inline_bytes = or_default_int-ne c.max_inline_bytes default_max_inline_bytes refl;
  provider = trim_space_idem c.transfer_provider;
  reference = trim_space_idem c.transfer_ref;
}
  where
    device_id : Text
    device_id =
        or_default (or_default (trim_space c.device_id) (trim_space c.device_label))
          default_device_id

    device_trimmed : trim_space device_id ≡ device_id
    device_trimmed =
        or_default-trimmed _ _
          (or_default-trimmed _ _ (trim_space_idem c.device_id) (trim_space_idem c.device_label))
          trim_default_device_id

    device_filled : is_empty device_id ≡ false
    device_filled =
        or_default-ne (or_default (trim_space c.device_id) (trim_space c.device_label))
          default_device_id refl

normalize_config_parts :
    (c d : Config)
    → normalize_config c ≡ ok d
    → (rs : List TopicRoute) × (normalize_topic_routes (trim_space c.topic) c.topics ≡ ok rs)
      × (check_config (fill_defaults c rs) rs ≡ ok d)
      × (d ≡ fill_defaults c rs)
unfolding normalize_config
normalize_config_parts c d h =
    let (rs, routes, checked) =
      >>=-eq-ok (normalize_topic_routes (trim_space c.topic) c.topics)
        (λ rs. check_config (fill_defaults c rs) rs) h in
    (rs, routes, checked, (check_config_lem (fill_defaults c rs) d rs checked).0)

-- Normalising a configuration that came out of normalisation succeeds and changes nothing; the
-- engine, the runtime, the stores and the bridge each normalise what they are given.
pub normalize_config_idem : (c d : Config) → normalize_config c ≡ ok d → normalize_config d ≡ ok d
unfolding normalize_config
normalize_config_idem c d h =
    let (rs, routes, checked, e) = normalize_config_parts c d h in
    let settled = fill_settled (fill_defaults c rs) rs (fill-IsSettled c rs) in
    let again : normalize_topic_routes (trim_space (fill_defaults c rs).topic)
          (fill_defaults c rs).topics
        ≡ ok rs =
      unfold fill_defaults in (routes-IsAccepted (trim_space c.topic) c.topics rs routes).1 in
    rw e (rw again (ap (λ x. check_config x rs) settled ∙ checked ∙ ap ok e))

-- What normalisation guarantees: the inline limit is positive, the history limit is between 1 and
-- 5000, the retention mode is a known one, transfer provider and reference are both set or both
-- empty, the identity texts and the endpoint are not empty, the device label is the display name,
-- and the routes are between 1 and 32 with distinct non-empty topics, the first of which is `topic`.
pub normalize_config-IsNormal :
    (c d : Config)
    → normalize_config c ≡ ok d
    → IsNormal d
      × ((rs : List TopicRoute) × (d.topics ≡ some rs) × IsAccepted rs × (d.topic ≡ first_topic rs))
normalize_config-IsNormal c d h =
    let (rs, routes, checked, e) = normalize_config_parts c d h in
    let (_, inline, low, high, retention, transfer) =
      check_config_lem (fill_defaults c rs) d rs checked in
    let s = fill-IsSettled c rs in
    rw e (
      record {
        inline_bytes = at_least_one (fill_defaults c rs).max_inline_bytes inline s.inline_bytes;
        history_limit =
            let (n, k) = at_least_one (fill_defaults c rs).history_limit low s.limit in
            (n, k, below_max n (rw k at high));
        retention = retention;
        transfer = transfer;
        device_id = s.device_id.1;
        display_name = s.display_name.1;
        device_label = sym s.label;
        parent_endpoint = s.endpoint.1;
      },
      (
        rs,
        sym s.topics,
        (routes-IsAccepted (trim_space c.topic) c.topics rs routes).0,
        sym s.topic,
      ),
    )

-- Normalisation keeps the mode in which bodies are retained.
pub normalize_config-body :
    (c d : Config)
    → normalize_config c ≡ ok d
    → text_eq c.history_retention retention_body ≡ true
    → text_eq d.history_retention retention_body ≡ true
unfolding fill_defaults
normalize_config-body c d h body =
    let (rs, _, _, e) = normalize_config_parts c d h in
    let there : c.history_retention ≡ retention_body =
      (text_eq_iff c.history_retention retention_body).0 body in
    rw (e, there, trim_retention_body) (text_eq_refl retention_body)
