-- ===== src/Subscription/Store.antt =====
-- `Update`, `Activate`, `SelectNode`, `Reorder`, the deletion in `Delete` and the insertion in
-- `Create` of internal/subscription/manager.go: what each does under the lock; and
-- `validateSubscriptionURL` of fetcher.go. The parsers of net/url, strconv and net/netip are the
-- record `Urls`.
pub mod Active
pub mod Selected
pub mod Orderly
use sing_box_webui.Prelude.{
  ℕ, ◌+◌, ◌*◌, String, Bool, true, false, not, ◌&&◌, ◌||◌, List, [], ◌∷◌, ◌++◌, map, Option, none,
  some, leb, ◌==◌, if◌then◌else◌, length, str_eq, trim_space, Result, ok, err, ◌>>=◌, ◌>>◌, refuse,
}
use sing_box_webui.Prelude.Int.{ℤ, pos, ltb_ℤ, eqb_ℤ, ◌+ℤ◌, ◌*ℤ◌}
use sing_box_webui.Storage.{
  Stored, Env, OrderError, incomplete, unknown_id, duplicate_id, commit, drop_last, find, replace,
  remove, reordered,
}
use sing_box_webui.Subscription.Model.{
  Node, Subscription, CreateInput, UpdateInput, SubscriptionError, not_found, node_not_found,
  bad_name, bad_url, bad_interval, url_exists, not_saved, order_incomplete, order_unknown,
  order_duplicate,
}
use sing_box_webui.Subscription.Lookup.{find_node}
use sing_box_webui.NodePool.Validate.{bad_length}
use sing_box_webui.Netsafety.{Addr, allowed_public_address}

abbrev pub Subs : Type 0
Subs = Stored Subscription

abbrev pub sub_id : Subscription → String
sub_id s = s.id

-- validateInterval
unfoldable pub outside_interval : ℤ → Bool
outside_interval minutes = ltb_ℤ minutes (pos 15) || ltb_ℤ (pos (7 * 24 * 60)) minutes

abbrev pub default_update_minutes : ℤ
default_update_minutes = pos 360

pub has_url : String → List Subscription → Bool
has_url url [] = false
has_url url (s ∷ ss) = str_eq s.url url || has_url url ss

-- The parts of a parsed URL that the check reads.
pub record UrlParts : Type 0 where
  pub scheme : String
  pub hostname : String
  pub has_user : Bool
  pub port : String

-- url.Parse; strconv.ParseUint(s, 10, 16); netip.ParseAddr after strings.Trim(host, "[]").
pub record Urls : Type 0 where
  pub parse : String → Option UrlParts
  pub parse_port : String → Option ℕ
  pub parse_addr : String → Option Addr

bad_port : Option ℕ → Bool
bad_port none = true
bad_port (some n) = n == 0

blocked : Option Addr → Bool
blocked none = false
blocked (some a) = not (allowed_public_address a)

-- validateSubscriptionURL
pub validate_subscription_url : Urls → UrlParts → Bool
unfolding bad_port blocked
validate_subscription_url urls u =
    (str_eq u.scheme "http" || str_eq u.scheme "https")
    && (not (str_eq u.hostname "")
        && (not u.has_user
            && ((str_eq u.port "" || not (bad_port (urls.parse_port u.port)))
                && not (blocked (urls.parse_addr u.hostname)))))

accepted : Urls → Option UrlParts → Bool
unfolding validate_subscription_url
accepted urls none = false
accepted urls (some u) = validate_subscription_url urls u

-- What `Create` takes from its input, if it accepts it.
pub checked_input : Urls → CreateInput → Result SubscriptionError CreateInput
unfolding accepted
checked_input urls i = do
  let name = trim_space i.name
  let url = trim_space i.url
  refuse (bad_length name) bad_name
  refuse (not (accepted urls (urls.parse url))) bad_url
  let minutes =
      if eqb_ℤ i.update_interval_minutes (pos 0)
      then default_update_minutes
      else i.update_interval_minutes
  refuse (outside_interval minutes) bad_interval
  ok (record {
    name = name;
    url = url;
    auto_update = i.auto_update;
    update_interval_minutes = minutes;
  })

unfoldable pub new_subscription : Env → CreateInput → Bool → Subscription
new_subscription env i active = record {
  id = env.id;
  name = i.name;
  url = i.url;
  auto_update = i.auto_update;
  update_interval_minutes = i.update_interval_minutes;
  active = active;
  selected_node_id = "";
  last_updated = none;
  last_error = "";
  last_fetch_path = "";
  etag = "";
  last_modified = "";
  manual_node_ids = [];
  nodes = [];
}

pub is_empty : List Subscription → Bool
is_empty [] = true
is_empty (_ ∷ _) = false

unfoldable pub insert_checked :
    Env → Subs → Result SubscriptionError CreateInput → Subs × Result SubscriptionError String
unfolding new_subscription is_empty has_url
insert_checked env s (err e) = (s, err e)
insert_checked env s (ok i) =
    if has_url i.url s.items
    then (s, err url_exists)
    else commit env.saved not_saved (s.items ++ new_subscription env i (is_empty s.items) ∷ [])
        drop_last env.id s

-- `Create` up to its call of `Refresh`; the result is the id
unfoldable pub insert : Urls → Env → CreateInput → Subs → Subs × Result SubscriptionError String
unfolding insert_checked checked_input
insert urls env i s = insert_checked env s (checked_input urls i)

-- The three fields of `Update`, which writes each to the stored item as it goes: what has been written
-- when it stops, and the error.
update_interval : Option ℤ → Subscription → Subscription × Option SubscriptionError
update_interval none s = (s, none)
update_interval (some minutes) s =
    if outside_interval minutes
    then (s, some bad_interval)
    else (record s { update_interval_minutes = minutes }, none)

update_auto : Option Bool → Subscription → Subscription
update_auto none s = s
update_auto (some auto) s = record s { auto_update = auto }

update_named : UpdateInput → Subscription → Option String → Subscription × Option SubscriptionError
unfolding update_interval update_auto
update_named i s none = update_interval i.update_interval_minutes (update_auto i.auto_update s)
update_named i s (some name) =
    if bad_length (trim_space name)
    then (s, some bad_name)
    else update_interval i.update_interval_minutes
        (update_auto i.auto_update (record s { name = trim_space name }))

pub update_fields : UpdateInput → Subscription → Subscription × Option SubscriptionError
unfolding update_named
update_fields i s = update_named i s i.name

-- An error leaves the fields that were written before it.
update_written :
    Env
    → String
    → Subscription
    → Subs
    → Subscription × Option SubscriptionError
    → Subs × Result SubscriptionError Subscription
update_written env id previous s (item, some e) =
    (record s { items = replace sub_id id item s.items }, err e)
update_written env id previous s (item, none) =
    commit env.saved not_saved (replace sub_id id item s.items) (replace sub_id id previous) item s

update_found :
    Env
    → UpdateInput
    → String
    → Subs
    → Option Subscription
    → Subs × Result SubscriptionError Subscription
unfolding update_written update_fields
update_found env i id s none = (s, err not_found)
update_found env i id s (some item) = update_written env id item s (update_fields i item)

-- Update
pub update : Env → String → UpdateInput → Subs → Subs × Result SubscriptionError Subscription
unfolding update_found
update env id i s = update_found env i id s (find sub_id id s.items)

-- The loop of `Activate`: the first item with the id is active, and no other.
pub activate_only : String → List Subscription → List Subscription
activate_only id [] = []
activate_only id (s ∷ ss) =
    let none_active = map (λ (t : Subscription). record t { active = false }) ss in
    let rest = activate_only id ss in
    if str_eq s.id id
    then record s { active = true } ∷ none_active
    else record s { active = false } ∷ rest

activate_found :
    Env → String → Subs → Option Subscription → Subs × Result SubscriptionError (Unit {0})
unfolding activate_only
activate_found env id s none = (s, err not_found)
activate_found env id s (some item) =
    commit env.saved not_saved (activate_only id s.items) (λ _. s.items) tt s

-- Activate
pub activate : Env → String → Subs → Subs × Result SubscriptionError (Unit {0})
unfolding activate_found
activate env id s = activate_found env id s (find sub_id id s.items)

select_found :
    Env
    → String
    → String
    → Subscription
    → Subs
    → Option Node
    → Subs × Result SubscriptionError (Unit {0})
select_found env id node_id item s none = (s, err node_not_found)
select_found env id node_id item s (some node) =
    commit env.saved not_saved
      (replace sub_id id (record item { selected_node_id = node_id }) s.items)
      (replace sub_id id item) tt s

select_in :
    Env → String → String → Subs → Option Subscription → Subs × Result SubscriptionError (Unit {0})
unfolding select_found
select_in env id node_id s none = (s, err not_found)
select_in env id node_id s (some item) =
    select_found env id node_id item s (find_node node_id item.nodes)

-- SelectNode
pub select_node : Env → String → String → Subs → Subs × Result SubscriptionError (Unit {0})
unfolding select_in
select_node env id node_id s = select_in env id node_id s (find sub_id id s.items)

order_error : OrderError → SubscriptionError
order_error incomplete = order_incomplete
order_error unknown_id = order_unknown
order_error duplicate_id = order_duplicate

reorder_to :
    Env → Subs → Result OrderError (List Subscription) → Subs × Result SubscriptionError (Unit {0})
unfolding order_error
reorder_to env s (err e) = (s, err (order_error e))
reorder_to env s (ok ordered) = commit env.saved not_saved ordered (λ _. s.items) tt s

-- Reorder
pub reorder : Env → List String → Subs → Subs × Result SubscriptionError (Unit {0})
unfolding reorder_to
reorder env ids s = reorder_to env s (reordered sub_id s.items ids)

-- `if wasActive && len(m.items) > 0 { m.items[0].Active = true }`
unfoldable pub pass_on : Bool → List Subscription → List Subscription
pass_on was_active [] = []
pass_on was_active (s ∷ ss) = if was_active then record s { active = true } ∷ ss else s ∷ ss

unfoldable pub delete_found :
    Env → String → Subs → Option Subscription → Subs × Result SubscriptionError (Unit {0})
unfolding pass_on
delete_found env id s none = (s, err not_found)
delete_found env id s (some item) =
    commit env.saved not_saved (pass_on item.active (remove sub_id id s.items)) (λ _. s.items) tt s

-- The part of `Delete` under the lock
unfoldable pub delete_item : Env → String → Subs → Subs × Result SubscriptionError (Unit {0})
unfolding delete_found
delete_item env id s = delete_found env id s (find sub_id id s.items)

abbrev pub minute : ℕ
minute = 60_000_000_000

is_due : ℤ → Subscription → Bool
is_due now s = elim s.last_updated [
  | none ↦ true
  | some t ↦ not (ltb_ℤ now (t +ℤ s.update_interval_minutes *ℤ pos minute))
]

-- dueForUpdate
pub due_for_update : ℤ → List Subscription → List String
unfolding is_due
due_for_update now [] = []
due_for_update now (s ∷ ss) =
    let rest = due_for_update now ss in if s.auto_update && is_due now s then s.id ∷ rest else rest
