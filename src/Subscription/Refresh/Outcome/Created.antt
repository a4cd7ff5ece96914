-- ===== src/Subscription/Refresh/Outcome/Created.antt =====
-- What a creation that reports no error has done to the subscriptions and the pools.
use sing_box_webui.Prelude.{
  ◌≡◌, refl, sym, subst, Bool, true, false, String, [], ◌∷◌, ◌++◌, Result, ok, err, arith,
  Bool-cases, inl, inr,
}
use sing_box_webui.Storage.{Env, commit, drop_last}
use sing_box_webui.Subscription.Model.{Subscription, CreateInput, SubscriptionError, not_saved}
use sing_box_webui.Subscription.Shown.{Redaction}
use sing_box_webui.Subscription.Store.{
  Urls, has_url, new_subscription, is_empty, checked_input, insert_checked, insert,
}
use sing_box_webui.Subscription.Refresh.{
  Sinks, World, RefreshInput, refresh, delete, rolled_back, after_refresh, after_insert, create,
}
use sing_box_webui.Subscription.Refresh.Outcome.{Refreshes, refresh-Refreshes}

module _ {P R : Type 0} (redaction : Redaction) (sinks : Sinks P R) where
  -- A subscription without nodes was added, and then refreshed.
  pub record Creates (w v : World P R) : Type 0 where
    pub id : String
    pub between : World P R
    pub added : Subscription
    pub empty : added.nodes ≡ []
    pub appended : between.subs.items ≡ w.subs.items ++ added ∷ []
    pub same_pools : between.pools ≡ w.pools
    pub refreshes : Refreshes redaction sinks id between v

  rolled_fails :
      {X : Type 0} (e : SubscriptionError) (r : World P R × Result SubscriptionError (Unit {0}))
      → (rolled_back redaction sinks e r).1 ≡ ok tt
      → X
  unfolding rolled_back
  rolled_fails e (w, ok _) h = absurd (ground arith)
  rolled_fails e (w, err x) h = absurd (ground arith)

  refresh_kept :
      (back : Env) (id : String) (r : World P R × Result SubscriptionError (Unit {0}))
      → (after_refresh redaction sinks back id r).1 ≡ ok tt
      → ((after_refresh redaction sinks back id r).0 ≡ r.0) × (r.1 ≡ ok tt)
  unfolding after_refresh
  refresh_kept back id (w, ok _) h = (refl, refl)
  refresh_kept back id (w, err e) h = rolled_fails e (delete redaction sinks back id w) h

  inserted-Creates :
      (saved : Bool) (back : Env) (input : RefreshInput) (w : World P R) (id : String)
      (x : Subscription)
      → x.nodes ≡ []
      → let r =
          after_insert redaction sinks back input w
            (commit saved not_saved (w.subs.items ++ x ∷ []) drop_last id w.subs) in
        r.1 ≡ ok tt → Creates w r.0
  unfolding after_insert commit
  inserted-Creates false back input w id x n h = absurd (ground arith)
  inserted-Creates true back input w id x n h =
      let items = w.subs.items ++ x ∷ [] in
      let between : World P R = record w { subs = record { items = items; disk = items } } in
      let (p, e) = refresh_kept back id (refresh redaction sinks input id between) h in
      record {
        id = id;
        between = between;
        added = x;
        empty = n;
        appended = refl;
        same_pools = refl;
        refreshes =
            subst (Refreshes redaction sinks id between) (sym p)
              (refresh-Refreshes redaction sinks input id between e);
      }

  checked-Creates :
      (env back : Env) (input : RefreshInput) (w : World P R)
      (i : Result SubscriptionError CreateInput)
      → (after_insert redaction sinks back input w (insert_checked env w.subs i)).1 ≡ ok tt
      → Creates w (after_insert redaction sinks back input w (insert_checked env w.subs i)).0
  unfolding insert_checked
  checked-Creates env back input w (err e) = unfold after_insert in λ h. absurd (ground arith)
  checked-Creates env back input w (ok i) = elim (Bool-cases (has_url i.url w.subs.items)) [
    | inl f ↦ rw f (unfold after_insert in λ h. absurd (ground arith))
    | inr f ↦ rw f (
        inserted-Creates env.saved back input w env.id
          (new_subscription env i (is_empty w.subs.items)) (unfold new_subscription in refl))
  ]

  pub create-Creates :
      (urls : Urls) (env back : Env) (input : RefreshInput) (i : CreateInput) (w : World P R)
      → (create redaction sinks urls env back input i w).1 ≡ ok tt
      → Creates w (create redaction sinks urls env back input i w).0
  unfolding create insert
  create-Creates urls env back input i w = checked-Creates env back input w (checked_input urls i)
