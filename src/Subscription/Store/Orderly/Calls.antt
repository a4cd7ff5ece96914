-- ===== src/Subscription/Store/Orderly/Calls.antt =====
-- The operations on the stored subscriptions, one by one.
use sing_box_webui.Prelude.{
  String, ◌≡◌, refl, Bool, true, false, ◌&&◌, List, [], ◌∷◌, ◌++◌, map, Option, none, some, All,
  All-append, is_some, Bool-cases, inl, inr, str_eq, trim_space, Result, ok, err,
}
use sing_box_webui.Prelude.Int.{ℤ}
use sing_box_webui.Storage.{Env, OrderError, drop_last, find, replace, remove, reordered}
use sing_box_webui.Storage.Sync.{drop_last-append}
use sing_box_webui.Storage.Keeps.{remove-All}
use sing_box_webui.Storage.Reorder.{reordered-All, reordered-Rearranges}
use sing_box_webui.NodePool.Validate.{bad_length}
use sing_box_webui.Subscription.Model.{
  Node, Subscription, CreateInput, UpdateInput, SubscriptionError, bad_interval, not_saved,
}
use sing_box_webui.Subscription.Lookup.{find_node}
use sing_box_webui.Subscription.Import.Keeps.{Continues}
use sing_box_webui.Subscription.Store.Active.{
  replace-IsOneActive, activate_only-IsOneActive, delete-IsOneActive, insert-IsOneActive,
  Perm-IsOneActive,
}
use sing_box_webui.Subscription.Store.Selected.{HasSelection, empty_selected, found_selected}
use sing_box_webui.Subscription.Store.{
  Subs, Urls, sub_id, new_subscription, is_empty, insert_checked, checked_input, insert,
  outside_interval, update_interval, update_auto, update_named, update_fields, update_written,
  update_found, update, activate_only, activate_found, activate, select_found, select_in,
  select_node, reorder_to, reorder, pass_on, delete_found, delete_item, has_url,
}
use sing_box_webui.Subscription.Store.Orderly.{
  IsSyncedIf, IsOrderly, commit-IsOrderly, replaced-selected, replace-IsOrderly,
}

abbrev same_item : (x : Subscription) → Continues x x
same_item x = record { same_id = refl; same_active = refl; selection = λ h. h }

-- Update

interval-Continues : (o : Option ℤ) (x : Subscription) → Continues x (update_interval o x).0
unfolding update_interval
interval-Continues none x = same_item x
interval-Continues (some n) x = elim (Bool-cases (outside_interval n)) [
  | inl e ↦ rw e (same_item x)
  | inr e ↦ rw e (record { same_id = refl; same_active = refl; selection = λ h. h })
]

rest-Continues :
    (a : Option Bool) (o : Option ℤ) (x : Subscription)
    → Continues x (update_interval o (update_auto a x)).0
rest-Continues none o x = unfold update_auto in interval-Continues o x
rest-Continues (some b) o x =
    let c = interval-Continues o (record x { auto_update = b }) in
    unfold update_auto in
    record { same_id = c.same_id; same_active = c.same_active; selection = c.selection }

fields-Continues :
    (i : UpdateInput) (x : Subscription) (o : Option String) → Continues x (update_named i x o).0
unfolding update_named
fields-Continues i x none = rest-Continues i.auto_update i.update_interval_minutes x
fields-Continues i x (some name) = elim (Bool-cases (bad_length (trim_space name))) [
  | inl e ↦ rw e (same_item x)
  | inr e ↦
      let c =
        rest-Continues i.auto_update i.update_interval_minutes
          (record x { name = trim_space name }) in
      rw e (record { same_id = c.same_id; same_active = c.same_active; selection = c.selection })
]

abbrev pub is_clean : Option SubscriptionError → Bool
is_clean none = true
is_clean (some e) = false

unasked : (clean : Bool) (s : Subs) → IsSyncedIf (clean && false) s
unasked true s = tt
unasked false s = tt

pub still_asked : (clean : Bool) (s : Subs) → IsOrderly clean s → IsOrderly (clean && true) s
still_asked true s h = h
still_asked false s h = h

written-IsOrderly :
    (clean : Bool) (env : Env) (id : String) (x : Subscription) (s : Subs)
    (r : Subscription × Option SubscriptionError)
    → find sub_id id s.items ≡ some x
    → Continues x r.0
    → IsOrderly clean s
    → IsOrderly (clean && is_clean r.1) (update_written env id x s r).0
unfolding update_written
written-IsOrderly clean env id x s (y, some e) f c h = record {
  one = replace-IsOneActive id x y s.items f c.same_active h.one;
  selected = replaced-selected id x y s.items f c h.selected;
  synced = unasked clean (record s { items = replace sub_id id y s.items });
}
written-IsOrderly clean env id x s (y, none) f c h =
    still_asked clean _ (replace-IsOrderly clean env.saved not_saved id x y y s f c h)

-- Whether an update of what is found is accepted
accepts : UpdateInput → Option Subscription → Bool
accepts i none = true
accepts i (some x) = is_clean (update_fields i x).1

update_found-IsOrderly :
    (clean : Bool) (env : Env) (i : UpdateInput) (id : String) (s : Subs) (o : Option Subscription)
    → find sub_id id s.items ≡ o
    → IsOrderly clean s
    → IsOrderly (clean && accepts i o) (update_found env i id s o).0
unfolding update_found accepts update_fields
update_found-IsOrderly clean env i id s none f h = still_asked clean s h
update_found-IsOrderly clean env i id s (some x) f h =
    written-IsOrderly clean env id x s (update_fields i x) f (fields-Continues i x i.name) h

pub accepts_update : String → UpdateInput → Subs → Bool
unfolding accepts
accepts_update id i s = accepts i (find sub_id id s.items)

pub update-IsOrderly :
    (clean : Bool) (env : Env) (id : String) (i : UpdateInput) (s : Subs)
    → IsOrderly clean s
    → IsOrderly (clean && accepts_update id i s) (update env id i s).0
unfolding update accepts_update
update-IsOrderly clean env id i s h =
    update_found-IsOrderly clean env i id s (find sub_id id s.items) refl h

-- The other operations

fresh-HasSelection :
    (env : Env) (i : CreateInput) (b : Bool) → HasSelection (new_subscription env i b)
unfolding new_subscription
fresh-HasSelection env i b = empty_selected

insert_checked-IsOrderly :
    (clean : Bool) (env : Env) (s : Subs) (r : Result SubscriptionError CreateInput)
    → IsOrderly clean s
    → IsOrderly clean (insert_checked env s r).0
unfolding insert_checked
insert_checked-IsOrderly clean env s (err e) h = h
insert_checked-IsOrderly clean env s (ok i) h = elim (Bool-cases (has_url i.url s.items)) [
  | inl e ↦ rw e h
  | inr e ↦
      let x = new_subscription env i (is_empty s.items) in
      rw e (
        commit-IsOrderly clean env.saved not_saved (s.items ++ x ∷ []) drop_last env.id s h
          (insert-IsOneActive s.items x (unfold new_subscription in refl) h.one)
          (All-append HasSelection s.items (x ∷ []) h.selected
            (fresh-HasSelection env i (is_empty s.items), tt))
          (drop_last-append s.items x))
]

pub insert-IsOrderly :
    (clean : Bool) (urls : Urls) (env : Env) (i : CreateInput) (s : Subs)
    → IsOrderly clean s
    → IsOrderly clean (insert urls env i s).0
unfolding insert
insert-IsOrderly clean urls env i s h =
    insert_checked-IsOrderly clean env s (checked_input urls i) h

inactive-All :
    (ss : List Subscription)
    → All HasSelection ss
    → All HasSelection (map (λ (t : Subscription). record t { active = false }) ss)
inactive-All [] h = tt
inactive-All (s ∷ ss) h = (h.0, inactive-All ss h.1)

activate_only-All :
    (id : String) (ss : List Subscription)
    → All HasSelection ss
    → All HasSelection (activate_only id ss)
unfolding activate_only
activate_only-All id [] h = tt
activate_only-All id (s ∷ ss) h = elim (Bool-cases (str_eq s.id id)) [
  | inl e ↦ rw e (h.0, inactive-All ss h.1)
  | inr e ↦ rw e (h.0, activate_only-All id ss h.1)
]

activate_found-IsOrderly :
    (clean : Bool) (env : Env) (id : String) (s : Subs) (o : Option Subscription)
    → find sub_id id s.items ≡ o
    → IsOrderly clean s
    → IsOrderly clean (activate_found env id s o).0
unfolding activate_found
activate_found-IsOrderly clean env id s none f h = h
activate_found-IsOrderly clean env id s (some x) f h =
    commit-IsOrderly clean env.saved not_saved (activate_only id s.items) (λ _. s.items) tt s h
      (activate_only-IsOneActive id x s.items f) (activate_only-All id s.items h.selected) refl

pub activate-IsOrderly :
    (clean : Bool) (env : Env) (id : String) (s : Subs)
    → IsOrderly clean s
    → IsOrderly clean (activate env id s).0
unfolding activate
activate-IsOrderly clean env id s h =
    activate_found-IsOrderly clean env id s (find sub_id id s.items) refl h

select_found-IsOrderly :
    (clean : Bool) (env : Env) (id node_id : String) (x : Subscription) (s : Subs) (o : Option Node)
    → find sub_id id s.items ≡ some x
    → find_node node_id x.nodes ≡ o
    → IsOrderly clean s
    → IsOrderly clean (select_found env id node_id x s o).0
unfolding select_found
select_found-IsOrderly clean env id node_id x s none f g h = h
select_found-IsOrderly clean env id node_id x s (some n) f g h =
    replace-IsOrderly clean env.saved not_saved id x (record x { selected_node_id = node_id }) tt s
      f
      (record {
        same_id = refl;
        same_active = refl;
        selection = λ _. found_selected node_id x.nodes (rw g (unfold is_some in refl));
      })
      h

select_in-IsOrderly :
    (clean : Bool) (env : Env) (id node_id : String) (s : Subs) (o : Option Subscription)
    → find sub_id id s.items ≡ o
    → IsOrderly clean s
    → IsOrderly clean (select_in env id node_id s o).0
unfolding select_in
select_in-IsOrderly clean env id node_id s none f h = h
select_in-IsOrderly clean env id node_id s (some x) f h =
    select_found-IsOrderly clean env id node_id x s (find_node node_id x.nodes) f refl h

pub select_node-IsOrderly :
    (clean : Bool) (env : Env) (id node_id : String) (s : Subs)
    → IsOrderly clean s
    → IsOrderly clean (select_node env id node_id s).0
unfolding select_node
select_node-IsOrderly clean env id node_id s h =
    select_in-IsOrderly clean env id node_id s (find sub_id id s.items) refl h

reorder_to-IsOrderly :
    (clean : Bool) (env : Env) (ids : List String) (s : Subs)
    (r : Result OrderError (List Subscription))
    → reordered sub_id s.items ids ≡ r
    → IsOrderly clean s
    → IsOrderly clean (reorder_to env s r).0
unfolding reorder_to
reorder_to-IsOrderly clean env ids s (err e) f h = h
reorder_to-IsOrderly clean env ids s (ok out) f h =
    commit-IsOrderly clean env.saved not_saved out (λ _. s.items) tt s h
      (Perm-IsOneActive s.items out (reordered-Rearranges sub_id s.items ids out f).0 h.one)
      (reordered-All sub_id HasSelection s.items ids out h.selected f) refl

pub reorder-IsOrderly :
    (clean : Bool) (env : Env) (ids : List String) (s : Subs)
    → IsOrderly clean s
    → IsOrderly clean (reorder env ids s).0
unfolding reorder
reorder-IsOrderly clean env ids s h =
    reorder_to-IsOrderly clean env ids s (reordered sub_id s.items ids) refl h

pass_on-All :
    (b : Bool) (ss : List Subscription) → All HasSelection ss → All HasSelection (pass_on b ss)
unfolding pass_on
pass_on-All b [] h = tt
pass_on-All true (s ∷ ss) h = h
pass_on-All false (s ∷ ss) h = h

delete_found-IsOrderly :
    (clean : Bool) (env : Env) (id : String) (s : Subs) (o : Option Subscription)
    → find sub_id id s.items ≡ o
    → IsOrderly clean s
    → IsOrderly clean (delete_found env id s o).0
unfolding delete_found
delete_found-IsOrderly clean env id s none f h = h
delete_found-IsOrderly clean env id s (some x) f h =
    commit-IsOrderly clean env.saved not_saved (pass_on x.active (remove sub_id id s.items))
      (λ _. s.items) tt s h (delete-IsOneActive id x s.items f h.one)
      (pass_on-All x.active (remove sub_id id s.items)
        (remove-All HasSelection sub_id id s.items h.selected))
      refl

pub delete_item-IsOrderly :
    (clean : Bool) (env : Env) (id : String) (s : Subs)
    → IsOrderly clean s
    → IsOrderly clean (delete_item env id s).0
unfolding delete_item
delete_item-IsOrderly clean env id s h =
    delete_found-IsOrderly clean env id s (find sub_id id s.items) refl h

-- An update that gives an acceptable name and an interval out of range is refused, with the new name
-- left in memory and not in the file.
pub refused_update_renames :
    (env : Env) (id name : String) (minutes : ℤ) (x : Subscription) (s : Subs)
    → find sub_id id s.items ≡ some x
    → bad_length (trim_space name) ≡ false
    → outside_interval minutes ≡ true
    → update env id
        (record { name = some name; auto_update = none; update_interval_minutes = some minutes })
        s
      ≡ (
        record s { items = replace sub_id id (record x { name = trim_space name }) s.items },
        err bad_interval,
      )
unfolding update update_found update_written update_fields update_named update_auto update_interval
refused_update_renames env id name minutes x s f b o = rw (f, b, o) refl
