-- ===== src/Runtime/Pending.antt =====
-- The pending remote events: addPendingLocked, deletePendingLocked, Pending.
use myflowhub_clipboardnode.Base.{
  ℕ, Bool, List, [], ◌∷◌, ◌++◌, Text, text_eq, is_empty, ℤ, pos, ltb_ℤ, is_some, map, length,
  if◌then◌else◌,
}
use myflowhub_clipboardnode.Base.{pos_part, neg_part, ltb, ◌+◌, ◌*◌}
use myflowhub_clipboardnode.Dedupe.{BoundedSet, add}
use myflowhub_clipboardnode.Runtime.{Runtime, PendingText, find_pending, drop_pending, put_pending}

-- What the eviction loop changes.
pub record Window : Type 0 where
  pub remote : List (Text × PendingText)
  pub order : List Text
  pub recent : BoundedSet

-- One round of the loop, which takes the oldest entry off the order.
evict_oldest : Text → Window → Window
evict_oldest oldest w =
    if is_some (find_pending oldest w.remote)
    then record w { remote = drop_pending oldest w.remote; recent = add w.recent oldest }
    else w

-- `for len(r.pendingRemote) > r.pendingLimit && len(r.pendingOrder) > 0`
unfoldable pub evict_pending : ℤ → List Text → List (Text × PendingText) → BoundedSet → Window
unfolding evict_oldest
evict_pending limit [] remote recent = record { remote = remote; order = []; recent = recent }
evict_pending limit (oldest ∷ order) remote recent =
    let here : Window = record { remote = remote; order = oldest ∷ order; recent = recent } in
    let next = evict_oldest oldest here in
    let rest = evict_pending limit order next.remote next.recent in
    if ltb_ℤ limit (pos (length remote)) then rest else here

-- The entries of the order that are still pending.
unfoldable pub keep_pending : List (Text × PendingText) → List Text → List Text
keep_pending m [] = []
keep_pending m (id ∷ ids) =
    let rest = keep_pending m ids in if is_some (find_pending id m) then id ∷ rest else rest

-- `len(r.pendingOrder) > r.pendingLimit*2`
abbrev is_long : ℤ → List Text → Bool
is_long limit order = ltb (pos_part limit * 2) (length order + neg_part limit * 2)

-- addPendingLocked
unfoldable pub add_pending : Runtime → PendingText → Runtime
unfolding evict_pending keep_pending
add_pending r v =
    let id = v.event.event_id in
    let order =
      if is_some (find_pending id r.pending_remote)
      then r.pending_order
      else r.pending_order ++ id ∷ [] in
    let w =
      evict_pending r.pending_limit order (put_pending id v r.pending_remote) r.recent_events in
    if is_empty id then r else record r {
      pending_remote = w.remote;
      pending_order =
          if is_long r.pending_limit w.order then keep_pending w.remote w.order else w.order;
      recent_events = w.recent;
    }

-- The first entry of the order that is `id` is taken out.
unfoldable pub erase_first : Text → List Text → List Text
erase_first id [] = []
erase_first id (k ∷ ks) = let rest = erase_first id ks in if text_eq k id then ks else k ∷ rest

-- deletePendingLocked
unfoldable pub delete_pending : Runtime → Text → Runtime
delete_pending r id = record r {
  pending_remote = drop_pending id r.pending_remote;
  pending_order = erase_first id r.pending_order;
}

pub record PendingEvent : Type 0 where
  pub event_id : Text
  pub topic : Text
  pub size : ℤ
  pub hash_prefix : Text
  pub origin_node : ℕ
  pub origin_device : Text
  pub received_at : ℤ

abbrev pending_event : Text × PendingText → PendingEvent
pending_event (k, v) = record {
  event_id = v.event.event_id;
  topic = v.topic;
  size = v.event.size;
  hash_prefix = v.hash_prefix;
  origin_node = v.event.origin_node;
  origin_device = v.event.origin_device;
  received_at = v.received_at;
}

-- Pending; Go lists a map in no fixed order.
unfoldable pub pending_events : Runtime → List PendingEvent
pending_events r = map pending_event r.pending_remote
