-- ===== src/Subscription/Manager.antt =====
-- The calls of internal/subscription/manager.go, in any order, on the stored subscriptions with the
-- pools and the rules that follow them.
pub mod Runs
use sing_box_webui.Prelude.{ℕ, String, Bool, true, false, ◌&&◌, List, [], ◌∷◌, Result}
use sing_box_webui.Storage.{Env}
use sing_box_webui.Subscription.Model.{Node, CreateInput, UpdateInput}
use sing_box_webui.Subscription.Shown.{Redaction}
use sing_box_webui.Subscription.Store.{Urls, Subs, update, activate, select_node, reorder}
use sing_box_webui.Subscription.Store.Orderly.Calls.{accepts_update}
use sing_box_webui.Subscription.Import.{import_nodes}
use sing_box_webui.Subscription.Refresh.{Sinks, World, RefreshInput, refresh, delete, create}

pub data Call : Type 0 where
  -- what the rollback meets, and what the refresh does
  creates : Env → RefreshInput → CreateInput → Call
  updates : String → UpdateInput → Call
  imports : String → ℕ → List (ℕ × String) → Call
  deletes activates : String → Call
  refreshes : RefreshInput → String → Call
  selects : String → String → Call
  reorders : List String → Call

-- What the manager is set up with: the parser of node links, and the parsers of URLs.
pub record Setup (P R : Type 0) : Type 0 where
  pub urls : Urls
  pub redaction : Redaction
  pub parse_link : String → Result String Node
  pub sinks : Sinks P R

module _ {P R : Type 0} (setup : Setup P R) where
  pub step : Env → Call → World P R → World P R
  step env (creates back input i) w =
      (create setup.redaction setup.sinks setup.urls env back input i w).0
  step env (updates id i) w = record w { subs = (update env id i w.subs).0 }
  step env (imports id bytes lines) w = record w {
    subs = (import_nodes setup.parse_link env id bytes lines w.subs).0;
  }
  step env (deletes id) w = (delete setup.redaction setup.sinks env id w).0
  step env (activates id) w = record w { subs = (activate env id w.subs).0 }
  step env (refreshes input id) w = (refresh setup.redaction setup.sinks input id w).0
  step env (selects id node_id) w = record w { subs = (select_node env id node_id w.subs).0 }
  step env (reorders ids) w = record w { subs = (reorder env ids w.subs).0 }

  -- Whether the call is other than an update that is refused
  is_settled : Call → Subs → Bool
  is_settled (updates id i) s = accepts_update id i s
  is_settled _ s = true

  -- The world after the calls, and whether all of them were settled.
  pub run : List (Env × Call) → Bool → World P R → World P R × Bool
  unfolding step is_settled
  run [] clean w = (w, clean)
  run ((env, c) ∷ cs) clean w = run cs (clean && is_settled c w.subs) (step env c w)
