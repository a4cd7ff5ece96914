-- ===== src/ProxyChain/Store.antt =====
-- `Create`, `Update`, `Delete` and `load` of internal/proxychain/manager.go. Each operation takes the
-- stored subscriptions and pools, what it meets (`Env`), and the state.
pub mod Sound
use sing_box_webui.Prelude.{String, List, [], ◌∷◌, ◌++◌, Option, none, some, Result, ok, err, ◌>>=◌}
use sing_box_webui.Subscription.Model.{Subscription}
use sing_box_webui.Storage.{Stored, Env, commit, drop_last, find, replace, remove}
use sing_box_webui.NodePool.Model.{Pool}
use sing_box_webui.NodePool.Store.{given}
use sing_box_webui.ProxyChain.Model.{
  Chain, CreateInput, UpdateInput, View, ChainError, not_found, not_saved,
}
use sing_box_webui.ProxyChain.Validate.{validate}
use sing_box_webui.ProxyChain.Resolve.{chain_id, resolve_chain, to_view}

abbrev pub Chains : Type 0
Chains = Stored Chain

new_chain : Env → CreateInput → Chain
new_chain env i = record {
  id = env.id;
  name = i.name;
  entry_type = i.entry_type;
  entry_node = i.entry_node;
  entry_pool_id = i.entry_pool_id;
  exit_node = i.exit_node;
  created_at = env.now;
  updated_at = env.now;
}

apply_input : Env → UpdateInput → Chain → Chain
apply_input env i c = record c {
  name = given i.name c.name;
  entry_type = given i.entry_type c.entry_type;
  entry_node = given i.entry_node c.entry_node;
  entry_pool_id = given i.entry_pool_id c.entry_pool_id;
  exit_node = given i.exit_node c.exit_node;
  updated_at = env.now;
}

or_stop :
    Chains
    → (Chain → Chains × Result ChainError View)
    → Result ChainError Chain
    → Chains × Result ChainError View
or_stop s next (err e) = (s, err e)
or_stop s next (ok c) = next c

module _ (subs : List Subscription) (pools : List Pool) where
  -- The checks that `Create` and `Update` make of a chain
  checked : Chain → Result ChainError Chain
  checked c = do valid ← validate c; _ ← resolve_chain subs pools valid; ok valid

  create : Env → CreateInput → Chains → Chains × Result ChainError View
  unfolding new_chain checked or_stop
  create env input s =
      or_stop s
        (λ c. commit env.saved not_saved (s.items ++ c ∷ []) drop_last (to_view subs pools c) s)
        (checked (new_chain env input))

  update_found :
      Env → UpdateInput → String → Chains → Option Chain → Chains × Result ChainError View
  unfolding apply_input checked or_stop
  update_found env input id s none = (s, err not_found)
  update_found env input id s (some old) =
      or_stop s
        (λ c.
          commit env.saved not_saved (replace chain_id id c s.items) (replace chain_id id old)
            (to_view subs pools c) s)
        (checked (apply_input env input old))

  update : Env → String → UpdateInput → Chains → Chains × Result ChainError View
  unfolding update_found
  update env id input s = update_found env input id s (find chain_id id s.items)

delete_found : Env → String → Chains → Option Chain → Chains × Result ChainError (Unit {0})
delete_found env id s none = (s, err not_found)
delete_found env id s (some old) =
    commit env.saved not_saved (remove chain_id id s.items) (λ _. s.items) tt s

delete : Env → String → Chains → Chains × Result ChainError (Unit {0})
unfolding delete_found
delete env id s = delete_found env id s (find chain_id id s.items)

validate_all : List Chain → Result ChainError (List Chain)
validate_all [] = ok []
validate_all (c ∷ cs) = do valid ← validate c; rest ← validate_all cs; ok (valid ∷ rest)

-- `load`, from the content of the file, if there is one.
pub load : Option (List Chain) → Result ChainError (List Chain)
unfolding validate_all
load none = ok []
load (some items) = validate_all items
