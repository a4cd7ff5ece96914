-- ===== src/Subscription/Refresh/Kept.antt =====
-- A refresh, a deletion and a creation keep what every operation keeps, whatever the pools and the
-- rules answer.
use Prim.Native.String.{◌++◌}
use sing_box_webui.Prelude.{
  String, ◌≡◌, refl, sym, subst, Bool, true, false, List, [], ◌∷◌, Option, none, some,
  if◌then◌else◌, Result, ok, err,
}
use sing_box_webui.Storage.{Env, persist, find}
use sing_box_webui.Subscription.Model.{
  Subscription, ImportedRule, ParseResult, FetchMetadata, CreateInput, SubscriptionError, not_saved,
}
use sing_box_webui.Subscription.Merge.{refreshed}
use sing_box_webui.Subscription.Merge.Unique.{refreshed-Continues}
use sing_box_webui.Subscription.Shown.{Redaction}
use sing_box_webui.Subscription.Store.{Subs, Urls, sub_id, insert, delete_item}
use sing_box_webui.Subscription.Store.Orderly.{IsOrderly, replace-IsOrderly, noted-IsOrderly}
use sing_box_webui.Subscription.Store.Orderly.Calls.{insert-IsOrderly, delete_item-IsOrderly}
use sing_box_webui.Subscription.Refresh.{
  Sinks, World, Fetch, fetch_with_fallback, RefreshInput, nothing_parsed, noted_in,
  record_refresh_error, after_reload, after_sync, after_pools, after_save, after_parse, after_fetch,
  refresh_found, refresh, cleaned_rules, cleaned_pools, cleanup_dependencies, missing_cleaned,
  deleted_cleaned, after_delete, delete_in, delete, rolled_back, after_refresh, after_insert,
  create,
}

persisted-IsOrderly :
    (clean noted : Bool) (s : Subs) → IsOrderly clean s → IsOrderly clean (persist noted s).0
unfolding persist
persisted-IsOrderly true true s h = record { one = h.one; selected = h.selected; synced = refl }
persisted-IsOrderly false true s h = record { one = h.one; selected = h.selected; synced = tt }
persisted-IsOrderly clean false s h = h

module _ {P R : Type 0} (redaction : Redaction) (sinks : Sinks P R) (clean : Bool) where
  noted_in-IsOrderly :
      (noted : Bool) (id e : String) (w : World P R) (o : Option Subscription)
      → find sub_id id w.subs.items ≡ o
      → IsOrderly clean w.subs
      → IsOrderly clean (noted_in redaction sinks noted id e w o).0.subs
  unfolding noted_in
  noted_in-IsOrderly noted id e w none f h = h
  noted_in-IsOrderly noted id e w (some x) f h = persisted-IsOrderly clean noted _ (
      noted-IsOrderly clean id x (record x { last_error = redaction.redact_text e x.url }) w.subs f
        refl h)

  record_error-IsOrderly :
      (noted : Bool) (id e : String) (w : World P R)
      → IsOrderly clean w.subs
      → IsOrderly clean (record_refresh_error redaction sinks noted id e w).0.subs
  unfolding record_refresh_error
  record_error-IsOrderly noted id e w h =
      noted_in-IsOrderly noted id e w (find sub_id id w.subs.items) refl h

  reload-IsOrderly :
      (noted : Bool) (id : String) (w : World P R) (r : R × Option String)
      → IsOrderly clean w.subs
      → IsOrderly clean (after_reload redaction sinks noted id w r).0.subs
  unfolding after_reload
  reload-IsOrderly noted id w (rules, none) h = h
  reload-IsOrderly noted id w (rules, some e) h =
      record_error-IsOrderly noted id e (record w { rules = rules }) h

  sync-IsOrderly :
      (noted : Bool) (id : String) (w : World P R) (r : R × Option String)
      → IsOrderly clean w.subs
      → IsOrderly clean (after_sync redaction sinks noted id w r).0.subs
  unfolding after_sync
  sync-IsOrderly noted id w (rules, none) h =
      reload-IsOrderly noted id w (sinks.reload_rules rules) h
  sync-IsOrderly noted id w (rules, some e) h =
      record_error-IsOrderly noted id ("subscription updated but rules sync failed: " ++ e)
        (record w { rules = rules }) h

  pools-IsOrderly :
      (noted : Bool) (id : String) (not_modified : Bool) (name : String) (rules : List ImportedRule)
      (w : World P R) (r : P × Option String)
      → IsOrderly clean w.subs
      → IsOrderly clean (after_pools redaction sinks noted id not_modified name rules w r).0.subs
  unfolding after_pools
  pools-IsOrderly noted id true name rules w (pools, none) h = h
  pools-IsOrderly noted id false name rules w (pools, none) h =
      sync-IsOrderly noted id (record w { pools = pools }) (sinks.sync_rules id name rules w.rules)
        h
  pools-IsOrderly noted id not_modified name rules w (pools, some e) h =
      record_error-IsOrderly noted id
        ("subscription updated but node pool reconciliation failed: " ++ e)
        (record w { pools = pools }) h

  save-IsOrderly :
      (noted : Bool) (id : String) (not_modified : Bool) (x : Subscription)
      (rules : List ImportedRule) (w : World P R) (r : Subs × Result SubscriptionError Subscription)
      → IsOrderly clean r.0
      → IsOrderly clean (after_save redaction sinks noted id not_modified x rules w r).0.subs
  unfolding after_save
  save-IsOrderly noted id not_modified x rules w (subs, err e) h = h
  save-IsOrderly noted id not_modified x rules w (subs, ok y) h =
      pools-IsOrderly noted id not_modified y.name rules (record w { subs = subs })
        (sinks.reconcile_nodes id x.nodes y.nodes w.pools) h

  parse-IsOrderly :
      (input : RefreshInput) (id : String) (x : Subscription) (w : World P R)
      (metadata : FetchMetadata) (r : Result String ParseResult)
      → find sub_id id w.subs.items ≡ some x
      → IsOrderly clean w.subs
      → IsOrderly clean (after_parse redaction sinks input id x w metadata r).0.subs
  unfolding after_parse
  parse-IsOrderly input id x w metadata (err e) f h = record_error-IsOrderly input.noted id e w h
  parse-IsOrderly input id x w metadata (ok result) f h =
      let y = refreshed result metadata input.now x in
      save-IsOrderly input.noted id metadata.not_modified x result.imported_rules w _ (
        replace-IsOrderly clean input.saved not_saved id x y y w.subs f
          (refreshed-Continues result metadata input.now x) h)

  fetch-IsOrderly :
      (input : RefreshInput) (id : String) (x : Subscription) (w : World P R) (r : Fetch)
      → find sub_id id w.subs.items ≡ some x
      → IsOrderly clean w.subs
      → IsOrderly clean (after_fetch redaction sinks input id x w r).0.subs
  unfolding after_fetch
  fetch-IsOrderly input id x w (err e) f h = record_error-IsOrderly input.noted id e w h
  fetch-IsOrderly input id x w (ok (content, metadata)) f h =
      parse-IsOrderly input id x w metadata
        (if metadata.not_modified then ok nothing_parsed else input.parse content) f h

  refresh_found-IsOrderly :
      (input : RefreshInput) (id : String) (w : World P R) (o : Option Subscription)
      → find sub_id id w.subs.items ≡ o
      → IsOrderly clean w.subs
      → IsOrderly clean (refresh_found redaction sinks input id w o).0.subs
  unfolding refresh_found
  refresh_found-IsOrderly input id w none f h = h
  refresh_found-IsOrderly input id w (some x) f h =
      fetch-IsOrderly input id x w (fetch_with_fallback input.direct input.proxy) f h

  pub refresh-IsOrderly :
      (input : RefreshInput) (id : String) (w : World P R)
      → IsOrderly clean w.subs
      → IsOrderly clean (refresh redaction sinks input id w).0.subs
  unfolding refresh
  refresh-IsOrderly input id w h =
      refresh_found-IsOrderly input id w (find sub_id id w.subs.items) refl h

  -- A cleanup leaves the subscriptions as they are.
  cleaned_rules-subs :
      (w : World P R) (r : R × Option String) → (cleaned_rules redaction sinks w r).0.subs ≡ w.subs
  unfolding cleaned_rules
  cleaned_rules-subs w (rules, none) = refl
  cleaned_rules-subs w (rules, some e) = refl

  cleaned_pools-subs :
      (id : String) (w : World P R) (r : P × Option String)
      → (cleaned_pools redaction sinks id w r).0.subs ≡ w.subs
  unfolding cleaned_pools
  cleaned_pools-subs id w (pools, none) =
      cleaned_rules-subs (record w { pools = pools }) (sinks.delete_rules id w.rules)
  cleaned_pools-subs id w (pools, some e) =
      cleaned_rules-subs (record w { pools = pools }) (sinks.delete_rules id w.rules)

  cleanup-subs :
      (id : String) (w : World P R) → (cleanup_dependencies redaction sinks id w).0.subs ≡ w.subs
  unfolding cleanup_dependencies
  cleanup-subs id w = cleaned_pools-subs id w (sinks.delete_members id w.pools)

  missing_cleaned-IsOrderly :
      (r : World P R × List String)
      → IsOrderly clean r.0.subs
      → IsOrderly clean (missing_cleaned redaction sinks r).0.subs
  unfolding missing_cleaned
  missing_cleaned-IsOrderly (w, []) h = h
  missing_cleaned-IsOrderly (w, e ∷ es) h = h

  deleted_cleaned-IsOrderly :
      (r : World P R × List String)
      → IsOrderly clean r.0.subs
      → IsOrderly clean (deleted_cleaned redaction sinks r).0.subs
  unfolding deleted_cleaned
  deleted_cleaned-IsOrderly (w, []) h = h
  deleted_cleaned-IsOrderly (w, e ∷ es) h = h

  cleanup-IsOrderly :
      (id : String) (w : World P R)
      → IsOrderly clean w.subs
      → IsOrderly clean (cleanup_dependencies redaction sinks id w).0.subs
  cleanup-IsOrderly id w h = subst (IsOrderly clean) (sym (cleanup-subs id w)) h

  after_delete-IsOrderly :
      (id : String) (w : World P R) (r : Subs × Result SubscriptionError (Unit {0}))
      → IsOrderly clean r.0
      → IsOrderly clean (after_delete redaction sinks id w r).0.subs
  unfolding after_delete
  after_delete-IsOrderly id w (subs, err e) h = h
  after_delete-IsOrderly id w (subs, ok u) h =
      deleted_cleaned-IsOrderly (cleanup_dependencies redaction sinks id (record w { subs = subs }))
        (cleanup-IsOrderly id (record w { subs = subs }) h)

  delete_in-IsOrderly :
      (env : Env) (id : String) (w : World P R) (o : Option Subscription)
      → IsOrderly clean w.subs
      → IsOrderly clean (delete_in redaction sinks env id w o).0.subs
  unfolding delete_in
  delete_in-IsOrderly env id w none h =
      missing_cleaned-IsOrderly (cleanup_dependencies redaction sinks id w)
        (cleanup-IsOrderly id w h)
  delete_in-IsOrderly env id w (some x) h =
      after_delete-IsOrderly id w (delete_item env id w.subs)
        (delete_item-IsOrderly clean env id w.subs h)

  pub delete-IsOrderly :
      (env : Env) (id : String) (w : World P R)
      → IsOrderly clean w.subs
      → IsOrderly clean (delete redaction sinks env id w).0.subs
  unfolding delete
  delete-IsOrderly env id w h = delete_in-IsOrderly env id w (find sub_id id w.subs.items) h

  rolled_back-IsOrderly :
      (e : SubscriptionError) (r : World P R × Result SubscriptionError (Unit {0}))
      → IsOrderly clean r.0.subs
      → IsOrderly clean (rolled_back redaction sinks e r).0.subs
  unfolding rolled_back
  rolled_back-IsOrderly e (w, ok u) h = h
  rolled_back-IsOrderly e (w, err x) h = h

  after_refresh-IsOrderly :
      (back : Env) (id : String) (r : World P R × Result SubscriptionError (Unit {0}))
      → IsOrderly clean r.0.subs
      → IsOrderly clean (after_refresh redaction sinks back id r).0.subs
  unfolding after_refresh
  after_refresh-IsOrderly back id (w, ok u) h = h
  after_refresh-IsOrderly back id (w, err e) h =
      rolled_back-IsOrderly e (delete redaction sinks back id w) (delete-IsOrderly back id w h)

  after_insert-IsOrderly :
      (back : Env) (input : RefreshInput) (w : World P R)
      (r : Subs × Result SubscriptionError String)
      → IsOrderly clean r.0
      → IsOrderly clean (after_insert redaction sinks back input w r).0.subs
  unfolding after_insert
  after_insert-IsOrderly back input w (subs, err e) h = h
  after_insert-IsOrderly back input w (subs, ok id) h =
      after_refresh-IsOrderly back id (refresh redaction sinks input id (record w { subs = subs }))
        (refresh-IsOrderly input id (record w { subs = subs }) h)

  pub create-IsOrderly :
      (urls : Urls) (env back : Env) (input : RefreshInput) (i : CreateInput) (w : World P R)
      → IsOrderly clean w.subs
      → IsOrderly clean (create redaction sinks urls env back input i w).0.subs
  unfolding create
  create-IsOrderly urls env back input i w h =
      after_insert-IsOrderly back input w (insert urls env i w.subs)
        (insert-IsOrderly clean urls env i w.subs h)
