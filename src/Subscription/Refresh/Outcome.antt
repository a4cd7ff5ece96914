-- ===== src/Subscription/Refresh/Outcome.antt =====
-- What a refresh and a deletion that report no error have done to the subscriptions and the
-- pools.
pub mod Created
use Prim.Native.String.{◌++◌}
use sing_box_webui.Prelude.{
  String, ◌≡◌, refl, Bool, true, false, List, [], ◌∷◌, Option, none, some, if◌then◌else◌, Result,
  ok, err, arith, Bool-cases, inl, inr,
}
use sing_box_webui.Storage.{Env, commit, find, replace, remove}
use sing_box_webui.Storage.Sync.{commit_saved, commit_failed}
use sing_box_webui.Subscription.Model.{
  Subscription, ImportedRule, ParseResult, FetchMetadata, SubscriptionError, not_saved, not_found,
}
use sing_box_webui.Subscription.Merge.{refreshed}
use sing_box_webui.Subscription.Merge.Unique.{refreshed-Continues}
use sing_box_webui.Subscription.Shown.{Redaction}
use sing_box_webui.Subscription.Store.{Subs, sub_id, pass_on, delete_found, delete_item}
use sing_box_webui.Subscription.Refresh.{
  Sinks, World, Fetch, fetch_with_fallback, RefreshInput, nothing_parsed, noted_in,
  record_refresh_error, after_reload, after_sync, after_pools, after_save, after_parse, after_fetch,
  refresh_found, refresh, join_error, cleaned_rules, cleaned_pools, cleanup_dependencies,
  missing_cleaned, deleted_cleaned, after_delete, delete_in, delete,
}

module _ {P R : Type 0} (redaction : Redaction) (sinks : Sinks P R) where
  -- `old` was stored; `new`, with its id, is, and the pools have been told of both.
  pub record Refreshes (id : String) (w v : World P R) : Type 0 where
    pub old : Subscription
    pub new : Subscription
    pub found : find sub_id id w.subs.items ≡ some old
    pub same_id : new.id ≡ old.id
    pub stored : v.subs.items ≡ replace sub_id id new w.subs.items
    pub pools : v.pools ≡ (sinks.reconcile_nodes id old.nodes new.nodes w.pools).0
    pub accepted : (sinks.reconcile_nodes id old.nodes new.nodes w.pools).1 ≡ none

  -- The subscription is gone, and the pools have been told.
  pub record Deletes (id : String) (w v : World P R) : Type 0 where
    pub was_active : Bool
    pub stored : v.subs.items ≡ pass_on was_active (remove sub_id id w.subs.items)
    pub pools : v.pools ≡ (sinks.delete_members id w.pools).0
    pub accepted : (sinks.delete_members id w.pools).1 ≡ none

  -- Two worlds with the same subscriptions and pools
  abbrev Agree : World P R → World P R → Type 0
  Agree w v = (v.subs ≡ w.subs) × (v.pools ≡ w.pools)

  noted_fails :
      {X : Type 0} (noted : Bool) (id e : String) (w : World P R) (o : Option Subscription)
      → (noted_in redaction sinks noted id e w o).1 ≡ ok tt
      → X
  unfolding noted_in
  noted_fails noted id e w none h = absurd (ground arith)
  noted_fails noted id e w (some x) h = absurd (ground arith)

  error_fails :
      {X : Type 0} (noted : Bool) (id e : String) (w : World P R)
      → (record_refresh_error redaction sinks noted id e w).1 ≡ ok tt
      → X
  unfolding record_refresh_error
  error_fails noted id e w h = noted_fails noted id e w (find sub_id id w.subs.items) h

  reload_ok :
      (noted : Bool) (id : String) (w : World P R) (r : R × Option String)
      → (after_reload redaction sinks noted id w r).1 ≡ ok tt
      → Agree w (after_reload redaction sinks noted id w r).0
  unfolding after_reload
  reload_ok noted id w (rules, none) h = (refl, refl)
  reload_ok noted id w (rules, some e) h = error_fails noted id e (record w { rules = rules }) h

  sync_ok :
      (noted : Bool) (id : String) (w : World P R) (r : R × Option String)
      → (after_sync redaction sinks noted id w r).1 ≡ ok tt
      → Agree w (after_sync redaction sinks noted id w r).0
  unfolding after_sync
  sync_ok noted id w (rules, none) h = reload_ok noted id w (sinks.reload_rules rules) h
  sync_ok noted id w (rules, some e) h =
      error_fails noted id ("subscription updated but rules sync failed: " ++ e)
        (record w { rules = rules }) h

  pools_ok :
      (noted : Bool) (id : String) (not_modified : Bool) (name : String) (rules : List ImportedRule)
      (w : World P R) (r : P × Option String)
      → (after_pools redaction sinks noted id not_modified name rules w r).1 ≡ ok tt
      → Agree
          (record w { pools = r.0 })
          (after_pools redaction sinks noted id not_modified name rules w r).0
        × (r.1 ≡ none)
  unfolding after_pools
  pools_ok noted id true name rules w (pools, none) h = ((refl, refl), refl)
  pools_ok noted id false name rules w (pools, none) h = (
    sync_ok noted id (record w { pools = pools }) (sinks.sync_rules id name rules w.rules) h,
    refl,
  )
  pools_ok noted id not_modified name rules w (pools, some e) h =
      error_fails noted id ("subscription updated but node pool reconciliation failed: " ++ e)
        (record w { pools = pools }) h

  save_ok :
      (saved noted : Bool) (id : String) (not_modified : Bool) (x y : Subscription)
      (rules : List ImportedRule) (w : World P R)
      → find sub_id id w.subs.items ≡ some x
      → y.id ≡ x.id
      → let r = after_save redaction sinks noted id not_modified x rules w (
          commit saved not_saved
            (replace sub_id id y w.subs.items)
            (replace sub_id id x)
            y
            w.subs) in
        r.1 ≡ ok tt → Refreshes id w r.0
  unfolding after_save commit
  save_ok true noted id not_modified x y rules w f s h =
      let subs : Subs = record {
        items = replace sub_id id y w.subs.items;
        disk = replace sub_id id y w.subs.items;
      } in
      let ((p, q), a) =
        pools_ok noted id not_modified y.name rules (record w { subs = subs })
          (sinks.reconcile_nodes id x.nodes y.nodes w.pools) h in
      record {
        old = x;
        new = y;
        found = f;
        same_id = s;
        stored = rw p refl;
        pools = q;
        accepted = a;
      }
  save_ok false noted id not_modified x y rules w f s h = absurd (ground arith)

  parse_ok :
      (input : RefreshInput) (id : String) (x : Subscription) (w : World P R)
      (metadata : FetchMetadata) (r : Result String ParseResult)
      → find sub_id id w.subs.items ≡ some x
      → (after_parse redaction sinks input id x w metadata r).1 ≡ ok tt
      → Refreshes id w (after_parse redaction sinks input id x w metadata r).0
  unfolding after_parse
  parse_ok input id x w metadata (err e) f h = error_fails input.noted id e w h
  parse_ok input id x w metadata (ok result) f h =
      let y = refreshed result metadata input.now x in
      save_ok input.saved input.noted id metadata.not_modified x y result.imported_rules w f
        (refreshed-Continues result metadata input.now x).same_id h

  fetch_ok :
      (input : RefreshInput) (id : String) (x : Subscription) (w : World P R) (r : Fetch)
      → find sub_id id w.subs.items ≡ some x
      → (after_fetch redaction sinks input id x w r).1 ≡ ok tt
      → Refreshes id w (after_fetch redaction sinks input id x w r).0
  unfolding after_fetch
  fetch_ok input id x w (err e) f h = error_fails input.noted id e w h
  fetch_ok input id x w (ok (content, metadata)) f h =
      parse_ok input id x w metadata
        (if metadata.not_modified then ok nothing_parsed else input.parse content) f h

  found_ok :
      (input : RefreshInput) (id : String) (w : World P R) (o : Option Subscription)
      → find sub_id id w.subs.items ≡ o
      → (refresh_found redaction sinks input id w o).1 ≡ ok tt
      → Refreshes id w (refresh_found redaction sinks input id w o).0
  unfolding refresh_found
  found_ok input id w none f h = absurd (ground arith)
  found_ok input id w (some x) f h =
      fetch_ok input id x w (fetch_with_fallback input.direct input.proxy) f h

  pub refresh-Refreshes :
      (input : RefreshInput) (id : String) (w : World P R)
      → (refresh redaction sinks input id w).1 ≡ ok tt
      → Refreshes id w (refresh redaction sinks input id w).0
  unfolding refresh
  refresh-Refreshes input id w h = found_ok input id w (find sub_id id w.subs.items) refl h

  rules_pools :
      (w : World P R) (r : R × Option String)
      → let v = (cleaned_rules redaction sinks w r).0 in (v.subs ≡ w.subs) × (v.pools ≡ w.pools)
  unfolding cleaned_rules
  rules_pools w (rules, none) = (refl, refl)
  rules_pools w (rules, some e) = (refl, refl)

  cleaned_ok :
      (id : String) (w : World P R) (r : P × Option String)
      → (cleaned_pools redaction sinks id w r).1 ≡ []
      → Agree (record w { pools = r.0 }) (cleaned_pools redaction sinks id w r).0 × (r.1 ≡ none)
  unfolding cleaned_pools
  cleaned_ok id w (pools, none) h =
      (rules_pools (record w { pools = pools }) (sinks.delete_rules id w.rules), refl)
  cleaned_ok id w (pools, some e) h = absurd (ground arith)

  deleted_ok :
      (r : World P R × List String)
      → (deleted_cleaned redaction sinks r).1 ≡ ok tt
      → ((deleted_cleaned redaction sinks r).0 ≡ r.0) × (r.1 ≡ [])
  unfolding deleted_cleaned
  deleted_ok (w, []) h = (refl, refl)
  deleted_ok (w, e ∷ es) h = absurd (ground arith)

  -- What the part of a deletion under the lock answers, where it succeeds.
  item_deleted :
      (env : Env) (id : String) (w : World P R) (x : Subscription)
      → let r = after_delete redaction sinks id w (delete_found env id w.subs (some x)) in
        r.1 ≡ ok tt → Deletes id w r.0
  unfolding delete_found
  item_deleted env id w x = elim (Bool-cases env.saved) [
    | inl f ↦
        let items = pass_on x.active (remove sub_id id w.subs.items) in
        let subs : Subs = record { items = items; disk = items } in
        rw (f, commit_saved not_saved items (λ _. w.subs.items) tt w.subs)
          (unfold after_delete cleanup_dependencies in
            λ h.
              let (e, n) =
                deleted_ok
                  (cleaned_pools redaction sinks id (record w { subs = subs })
                    (sinks.delete_members id w.pools))
                  h in
              let ((p, q), a) =
                cleaned_ok id (record w { subs = subs }) (sinks.delete_members id w.pools) n in
              record {
                was_active = x.active;
                stored = rw (e, p) refl;
                pools = rw (e, q) refl;
                accepted = a;
              })
    | inr f ↦
        rw
          (
            f,
            commit_failed not_saved (pass_on x.active (remove sub_id id w.subs.items))
                (λ _. w.subs.items) tt w.subs refl,
          )
          (unfold after_delete in λ h. absurd (ground arith))
  ]

  missing_fails :
      {X : Type 0} (r : World P R × List String) → (missing_cleaned redaction sinks r).1 ≡ ok tt → X
  unfolding missing_cleaned
  missing_fails (w, []) h = absurd (ground arith)
  missing_fails (w, e ∷ es) h = absurd (ground arith)

  delete_in-Deletes :
      (env : Env) (id : String) (w : World P R) (o : Option Subscription)
      → find sub_id id w.subs.items ≡ o
      → (delete_in redaction sinks env id w o).1 ≡ ok tt
      → Deletes id w (delete_in redaction sinks env id w o).0
  unfolding delete_in
  delete_in-Deletes env id w none f =
      λ h. missing_fails (cleanup_dependencies redaction sinks id w) h
  delete_in-Deletes env id w (some x) f = unfold delete_item in rw f (item_deleted env id w x)

  pub delete-Deletes :
      (env : Env) (id : String) (w : World P R)
      → (delete redaction sinks env id w).1 ≡ ok tt
      → Deletes id w (delete redaction sinks env id w).0
  unfolding delete
  delete-Deletes env id w h = delete_in-Deletes env id w (find sub_id id w.subs.items) refl h
