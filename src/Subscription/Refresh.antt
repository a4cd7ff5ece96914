-- ===== src/Subscription/Refresh.antt =====
-- `refresh`, `fetchWithFallback`, `recordRefreshError`, `Delete`, `cleanupDependencies`, `Create`,
-- of internal/subscription/manager.go: the operations that reach the pools and the rules. What the
-- network and the parser answer are arguments. A sink that is not set is one that does nothing. A
-- refresh runs as one step: the lock of its id, `refreshLocks`, keeps another refresh, import or
-- deletion of the same subscription out.
pub mod Kept
pub mod Outcome
use Prim.Native.String.{◌++◌}
use sing_box_webui.Prelude.{
  String, Bool, true, false, not, ◌||◌, List, [], ◌∷◌, map, Option, none, some, if◌then◌else◌, has,
  str_eq, Result, ok, err,
}
use sing_box_webui.Prelude.Int.{ℤ}
use sing_box_webui.Storage.{Stored, Env, persist, commit, find, find_last, replace}
use sing_box_webui.Subscription.Model.{
  Node, Subscription, ImportedRule, ParseResult, FetchMetadata, CreateInput, SubscriptionError,
  not_found, not_saved, failed, cleanup_failed, missing_cleanup_failed, rollback_failed,
}
use sing_box_webui.Subscription.Merge.{refreshed}
use sing_box_webui.Subscription.Shown.{Redaction}
use sing_box_webui.Subscription.Store.{Subs, Urls, sub_id, insert, delete_item}

-- The interfaces `PoolSink` and `RuleSink`, over the states of the pools and of the rules; the text is
-- that of the error returned.
pub record Sinks (P R : Type 0) : Type 0 where
  pub reconcile_nodes : String → List Node → List Node → P → P × Option String
  pub delete_members : String → P → P × Option String
  pub sync_rules : String → String → List ImportedRule → R → R × Option String
  pub delete_rules : String → R → R × Option String
  pub reload_rules : R → R × Option String

pub record World (P R : Type 0) : Type 0 where
  pub subs : Subs
  pub pools : P
  pub rules : R

-- A fetch returns the content and its metadata, or the text of an error.
abbrev pub Fetch : Type 0
Fetch = Result String (String × FetchMetadata)

after_proxy : String → Fetch → Fetch
after_proxy direct_error (ok (content, metadata)) = ok (content, record metadata { path = "proxy" })
after_proxy direct_error (err proxy_error) =
    err ("direct: " ++ direct_error ++ "; proxy: " ++ proxy_error)

-- fetchWithFallback, from what the direct fetch answers, and what the one by the proxy does, if there
-- is a proxy
fetch_with_fallback : Fetch → Option Fetch → Fetch
unfolding after_proxy
fetch_with_fallback (ok fetched) proxy = ok fetched
fetch_with_fallback (err direct_error) none = err direct_error
fetch_with_fallback (err direct_error) (some proxy) = after_proxy direct_error proxy

-- What a refresh meets; `noted` says whether the save of a recorded error succeeds.
pub record RefreshInput : Type 0 where
  pub direct : Fetch
  pub proxy : Option Fetch
  pub parse : String → Result String ParseResult
  pub now : ℤ
  pub saved : Bool
  pub noted : Bool

abbrev nothing_parsed : ParseResult
nothing_parsed = record { nodes = []; imported_rules = []; warnings = [] }

join_error : Option String → List String → List String
join_error none es = es
join_error (some e) es = e ∷ es

-- A rollback that finds nothing to delete is no further error.
join_rollback : SubscriptionError → SubscriptionError → SubscriptionError
join_rollback e not_found = e
join_rollback e other = rollback_failed e other

module _ {P R : Type 0} (redaction : Redaction) (sinks : Sinks P R) where
  noted_in :
      Bool
      → String
      → String
      → World P R
      → Option Subscription
      → World P R × Result SubscriptionError (Unit {0})
  unfolding persist
  noted_in noted id e w none = (w, err (failed e))
  noted_in noted id e w (some item) =
      let message = redaction.redact_text e item.url in
      let items = replace sub_id id (record item { last_error = message }) w.subs.items in
      (
        record w { subs = (persist noted (record w.subs { items = items })).0 },
        err (failed message),
      )

  -- recordRefreshError; the outcome of its save is ignored.
  record_refresh_error :
      Bool → String → String → World P R → World P R × Result SubscriptionError (Unit {0})
  unfolding noted_in
  record_refresh_error noted id e w = noted_in noted id e w (find sub_id id w.subs.items)

  after_reload :
      Bool
      → String
      → World P R
      → R × Option String
      → World P R × Result SubscriptionError (Unit {0})
  unfolding record_refresh_error
  after_reload noted id w (rules, none) = (record w { rules = rules }, ok tt)
  after_reload noted id w (rules, some e) =
      record_refresh_error noted id e (record w { rules = rules })

  after_sync :
      Bool
      → String
      → World P R
      → R × Option String
      → World P R × Result SubscriptionError (Unit {0})
  unfolding record_refresh_error after_reload
  after_sync noted id w (rules, none) = after_reload noted id w (sinks.reload_rules rules)
  after_sync noted id w (rules, some e) =
      record_refresh_error noted id ("subscription updated but rules sync failed: " ++ e)
        (record w { rules = rules })

  after_pools :
      Bool
      → String
      → Bool
      → String
      → List ImportedRule
      → World P R
      → P × Option String
      → World P R × Result SubscriptionError (Unit {0})
  unfolding record_refresh_error after_sync
  after_pools noted id not_modified name rules w (pools, some e) =
      record_refresh_error noted id
        ("subscription updated but node pool reconciliation failed: " ++ e)
        (record w { pools = pools })
  after_pools noted id true name rules w (pools, none) = (record w { pools = pools }, ok tt)
  after_pools noted id false name rules w (pools, none) =
      after_sync noted id (record w { pools = pools }) (sinks.sync_rules id name rules w.rules)

  after_save :
      Bool
      → String
      → Bool
      → Subscription
      → List ImportedRule
      → World P R
      → Subs × Result SubscriptionError Subscription
      → World P R × Result SubscriptionError (Unit {0})
  unfolding after_pools
  after_save noted id not_modified previous rules w (subs, err e) =
      (record w { subs = subs }, err e)
  after_save noted id not_modified previous rules w (subs, ok item) =
      after_pools noted id not_modified item.name rules (record w { subs = subs })
        (sinks.reconcile_nodes id previous.nodes item.nodes w.pools)

  after_parse :
      RefreshInput
      → String
      → Subscription
      → World P R
      → FetchMetadata
      → Result String ParseResult
      → World P R × Result SubscriptionError (Unit {0})
  unfolding record_refresh_error after_save
  after_parse input id item w metadata (err e) = record_refresh_error input.noted id e w
  after_parse input id item w metadata (ok result) =
      let updated = refreshed result metadata input.now item in
      after_save input.noted id metadata.not_modified item result.imported_rules w (
        commit input.saved not_saved (replace sub_id id updated w.subs.items)
          (replace sub_id id item) updated w.subs)

  after_fetch :
      RefreshInput
      → String
      → Subscription
      → World P R
      → Fetch
      → World P R × Result SubscriptionError (Unit {0})
  unfolding record_refresh_error after_parse
  after_fetch input id item w (err e) = record_refresh_error input.noted id e w
  after_fetch input id item w (ok (content, metadata)) =
      after_parse input id item w metadata
        (if metadata.not_modified then ok nothing_parsed else input.parse content)

  refresh_found :
      RefreshInput
      → String
      → World P R
      → Option Subscription
      → World P R × Result SubscriptionError (Unit {0})
  unfolding after_fetch fetch_with_fallback
  refresh_found input id w none = (w, err not_found)
  refresh_found input id w (some item) =
      after_fetch input id item w (fetch_with_fallback input.direct input.proxy)

  -- refresh
  unfoldable pub refresh :
      RefreshInput → String → World P R → World P R × Result SubscriptionError (Unit {0})
  unfolding refresh_found
  refresh input id w = refresh_found input id w (find sub_id id w.subs.items)

  cleaned_rules : World P R → R × Option String → World P R × List String
  unfolding join_error
  cleaned_rules w (rules, some e) =
      (record w { rules = rules }, ("rules cleanup failed: " ++ e) ∷ [])
  cleaned_rules w (rules, none) =
      let (reloaded, e) = sinks.reload_rules rules in
      (record w { rules = reloaded }, join_error (map_error e) [])
    where
      map_error : Option String → Option String
      map_error none = none
      map_error (some e) = some ("rules reload failed: " ++ e)

  cleaned_pools : String → World P R → P × Option String → World P R × List String
  unfolding cleaned_rules
  cleaned_pools id w (pools, none) =
      cleaned_rules (record w { pools = pools }) (sinks.delete_rules id w.rules)
  cleaned_pools id w (pools, some e) =
      let (w', es) = cleaned_rules (record w { pools = pools }) (sinks.delete_rules id w.rules) in
      (w', ("node pool cleanup failed: " ++ e) ∷ es)

  -- cleanupDependencies: the errors joined
  unfoldable pub cleanup_dependencies : String → World P R → World P R × List String
  unfolding cleaned_pools
  cleanup_dependencies id w = cleaned_pools id w (sinks.delete_members id w.pools)

  missing_cleaned : World P R × List String → World P R × Result SubscriptionError (Unit {0})
  missing_cleaned (w, []) = (w, err not_found)
  missing_cleaned (w, e ∷ es) = (w, err (missing_cleanup_failed (e ∷ es)))

  deleted_cleaned : World P R × List String → World P R × Result SubscriptionError (Unit {0})
  deleted_cleaned (w, []) = (w, ok tt)
  deleted_cleaned (w, e ∷ es) = (w, err (cleanup_failed (e ∷ es)))

  after_delete :
      String
      → World P R
      → Subs × Result SubscriptionError (Unit {0})
      → World P R × Result SubscriptionError (Unit {0})
  unfolding deleted_cleaned
  after_delete id w (subs, err e) = (record w { subs = subs }, err e)
  after_delete id w (subs, ok _) =
      deleted_cleaned (cleanup_dependencies id (record w { subs = subs }))

  delete_in :
      Env
      → String
      → World P R
      → Option Subscription
      → World P R × Result SubscriptionError (Unit {0})
  unfolding missing_cleaned after_delete
  delete_in env id w none = missing_cleaned (cleanup_dependencies id w)
  delete_in env id w (some _) = after_delete id w (delete_item env id w.subs)

  -- Delete
  unfoldable pub delete : Env → String → World P R → World P R × Result SubscriptionError (Unit {0})
  unfolding delete_in
  delete env id w = delete_in env id w (find sub_id id w.subs.items)

  rolled_back :
      SubscriptionError
      → World P R × Result SubscriptionError (Unit {0})
      → World P R × Result SubscriptionError (Unit {0})
  unfolding join_rollback
  rolled_back e (w, ok _) = (w, err e)
  rolled_back e (w, err other) = (w, err (join_rollback e other))

  after_refresh :
      Env
      → String
      → World P R × Result SubscriptionError (Unit {0})
      → World P R × Result SubscriptionError (Unit {0})
  unfolding rolled_back delete
  after_refresh back id (w, ok _) = (w, ok tt)
  after_refresh back id (w, err e) = rolled_back e (delete back id w)

  after_insert :
      Env
      → RefreshInput
      → World P R
      → Subs × Result SubscriptionError String
      → World P R × Result SubscriptionError (Unit {0})
  unfolding after_refresh refresh
  after_insert back input w (subs, err e) = (record w { subs = subs }, err e)
  after_insert back input w (subs, ok id) =
      after_refresh back id (refresh input id (record w { subs = subs }))

  -- Create; `back` is what the rollback meets.
  unfoldable pub create :
      Urls
      → Env
      → Env
      → RefreshInput
      → CreateInput
      → World P R
      → World P R × Result SubscriptionError (Unit {0})
  unfolding after_insert
  create urls env back input i w = after_insert back input w (insert urls env i w.subs)
