-- ===== src/Subscription/Manager/Runs.antt =====
-- What holds of the stored subscriptions after any calls.
use sing_box_webui.Prelude.{refl, Bool, true, ◌&&◌, List, [], ◌∷◌}
use sing_box_webui.Storage.{Env}
use sing_box_webui.Subscription.Store.{Subs}
use sing_box_webui.Subscription.Store.Active.{none_is_one}
use sing_box_webui.Subscription.Store.Orderly.{IsOrderly}
use sing_box_webui.Subscription.Store.Orderly.Calls.{
  update-IsOrderly, activate-IsOrderly, select_node-IsOrderly, reorder-IsOrderly, still_asked,
}
use sing_box_webui.Subscription.Import.Orderly.{import_nodes-IsOrderly}
use sing_box_webui.Subscription.Refresh.{World}
use sing_box_webui.Subscription.Refresh.Kept.{refresh-IsOrderly, delete-IsOrderly, create-IsOrderly}
use sing_box_webui.Subscription.Manager.{
  Call, creates, updates, imports, deletes, activates, refreshes, selects, reorders, Setup, step,
  is_settled, run,
}

abbrev pub no_subs : Subs
no_subs = record { items = []; disk = [] }

module _ {P R : Type 0} (setup : Setup P R) where
  step-IsOrderly :
      (env : Env) (c : Call) (clean : Bool) (w : World P R)
      → IsOrderly clean w.subs
      → IsOrderly (clean && is_settled setup c w.subs) (step setup env c w).subs
  unfolding step is_settled
  step-IsOrderly env (creates back input i) clean w h =
      still_asked clean _
        (create-IsOrderly setup.redaction setup.sinks clean setup.urls env back input i w h)
  step-IsOrderly env (updates id i) clean w h = update-IsOrderly clean env id i w.subs h
  step-IsOrderly env (imports id bytes lines) clean w h =
      still_asked clean _
        (import_nodes-IsOrderly clean setup.parse_link env id bytes lines w.subs h)
  step-IsOrderly env (deletes id) clean w h =
      still_asked clean _ (delete-IsOrderly setup.redaction setup.sinks clean env id w h)
  step-IsOrderly env (activates id) clean w h =
      still_asked clean _ (activate-IsOrderly clean env id w.subs h)
  step-IsOrderly env (refreshes input id) clean w h =
      still_asked clean _ (refresh-IsOrderly setup.redaction setup.sinks clean input id w h)
  step-IsOrderly env (selects id node_id) clean w h =
      still_asked clean _ (select_node-IsOrderly clean env id node_id w.subs h)
  step-IsOrderly env (reorders ids) clean w h =
      still_asked clean _ (reorder-IsOrderly clean env ids w.subs h)

  run-IsOrderly :
      (cs : List (Env × Call)) (clean : Bool) (w : World P R)
      → IsOrderly clean w.subs
      → IsOrderly (run setup cs clean w).1 (run setup cs clean w).0.subs
  unfolding run
  run-IsOrderly [] clean w h = h
  run-IsOrderly ((env, c) ∷ cs) clean w h =
      run-IsOrderly cs (clean && is_settled setup c w.subs) (step setup env c w)
        (step-IsOrderly env c clean w h)

-- From an empty store, after any calls, whatever the network, the pools, the rules and the saves answer:
-- exactly one subscription is active if there are any, each that has nodes has one of them selected, and,
-- unless an update was refused for one of its fields, the file agrees with memory but for the texts of
-- the last errors.
pub manager_stays-IsOrderly :
    {P R : Type 0} (setup : Setup P R) (cs : List (Env × Call)) (pools : P) (rules : R)
    → IsOrderly
        (run setup cs true (record { subs = no_subs; pools = pools; rules = rules })).1
        (run setup cs true (record { subs = no_subs; pools = pools; rules = rules })).0.subs
manager_stays-IsOrderly setup cs pools rules =
    run-IsOrderly setup cs true (record { subs = no_subs; pools = pools; rules = rules })
      (record { one = none_is_one; selected = tt; synced = refl })
