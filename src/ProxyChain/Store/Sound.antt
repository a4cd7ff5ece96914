-- ===== src/ProxyChain/Store/Sound.antt =====
-- Every operation on the stored chains keeps them valid and the file in step with memory, so that a
-- restart accepts the file.
use sing_box_webui.Prelude.{
  String, ◌≡◌, refl, sym, ap, ◌∙◌, arith, List, [], ◌∷◌, ◌++◌, Option, none, some, All, All-append,
  eq_iff, Result, ok, err,
}
use sing_box_webui.Subscription.Model.{Subscription}
use sing_box_webui.Storage.{Env, drop_last, find, replace, remove}
use sing_box_webui.Storage.Sync.{drop_last-append, replace-replace}
use sing_box_webui.Storage.Keeps.{Keeps, commit-Keeps, replace-All, remove-All, find_id}
use sing_box_webui.NodePool.Model.{Pool}
use sing_box_webui.ProxyChain.Model.{Chain, CreateInput, UpdateInput, View, ChainError, not_saved}
use sing_box_webui.ProxyChain.Validate.{validate}
use sing_box_webui.ProxyChain.Validate.Idempotent.{validate_idempotent, validate_keeps_id}
use sing_box_webui.ProxyChain.Resolve.{chain_id, to_view}
use sing_box_webui.ProxyChain.Store.{
  Chains, new_chain, apply_input, or_stop, checked, create, update_found, update, delete_found,
  delete, validate_all, load,
}

-- A chain that validation would leave as it is.
abbrev pub IsValid : Chain → Type 0
IsValid c = validate c ≡ ok c

or_stop-Keeps :
    (s : Chains) (next : Chain → Chains × Result ChainError View) (r : Result ChainError Chain)
    → Keeps IsValid s
    → ((c : Chain) → r ≡ ok c → Keeps IsValid (next c).0)
    → Keeps IsValid (or_stop s next r).0
unfolding or_stop
or_stop-Keeps s next (err e) h k = h
or_stop-Keeps s next (ok c) h k = k c refl

module _ (subs : List Subscription) (pools : List Pool) where
  checked-ok : (c d : Chain) → checked subs pools c ≡ ok d → validate c ≡ ok d
  unfolding checked
  checked-ok c d h = ground arith

  create-Keeps :
      (env : Env) (input : CreateInput) (s : Chains)
      → Keeps IsValid s
      → Keeps IsValid (create subs pools env input s).0
  unfolding create
  create-Keeps env input s h = or_stop-Keeps s _ (checked subs pools (new_chain env input)) h λ c e.
      commit-Keeps IsValid env.saved not_saved (s.items ++ c ∷ []) drop_last (to_view subs pools c)
        s h
        (All-append IsValid s.items (c ∷ []) h.all
          (validate_idempotent (new_chain env input) c (checked-ok (new_chain env input) c e), tt))
        (drop_last-append s.items c)

  update_found-Keeps :
      (env : Env) (input : UpdateInput) (id : String) (s : Chains) (o : Option Chain)
      → find chain_id id s.items ≡ o
      → Keeps IsValid s
      → Keeps IsValid (update_found subs pools env input id s o).0
  unfolding update_found
  update_found-Keeps env input id s none f h = h
  update_found-Keeps env input id s (some old) f h =
      or_stop-Keeps s _ (checked subs pools (apply_input env input old)) h λ c e.
        let v = checked-ok (apply_input env input old) c e in
        let same : c.id ≡ id =
          validate_keeps_id (apply_input env input old) c v
          ∙ unfold apply_input in find_id chain_id id s.items old f in
        commit-Keeps IsValid env.saved not_saved (replace chain_id id c s.items)
          (replace chain_id id old) (to_view subs pools c) s h
          (replace-All IsValid chain_id id c s.items
            (validate_idempotent (apply_input env input old) c v) h.all)
          (replace-replace chain_id id old c s.items f ((eq_iff c.id id).1 same))

  update-Keeps :
      (env : Env) (id : String) (input : UpdateInput) (s : Chains)
      → Keeps IsValid s
      → Keeps IsValid (update subs pools env id input s).0
  unfolding update
  update-Keeps env id input s h =
      update_found-Keeps env input id s (find chain_id id s.items) refl h

delete_found-Keeps :
    (env : Env) (id : String) (s : Chains) (o : Option Chain)
    → Keeps IsValid s
    → Keeps IsValid (delete_found env id s o).0
unfolding delete_found
delete_found-Keeps env id s none h = h
delete_found-Keeps env id s (some old) h =
    commit-Keeps IsValid env.saved not_saved (remove chain_id id s.items) (λ _. s.items) tt s h
      (remove-All IsValid chain_id id s.items h.all) refl

delete-Keeps :
    (env : Env) (id : String) (s : Chains) → Keeps IsValid s → Keeps IsValid (delete env id s).0
unfolding delete
delete-Keeps env id s h = delete_found-Keeps env id s (find chain_id id s.items) h

validate_all_valid : (cs : List Chain) → All IsValid cs → validate_all cs ≡ ok cs
unfolding validate_all
validate_all_valid [] h = refl
validate_all_valid (c ∷ cs) h = rw (h.0, validate_all_valid cs h.1) refl

-- The operations of the manager, each with its arguments.
pub data ChainCall : Type 0 where
  creates : CreateInput → ChainCall
  updates : String → UpdateInput → ChainCall
  deletes : String → ChainCall

-- What a call of the manager meets: the subscriptions, the pools, and the rest.
pub record Meets : Type 0 where
  pub subs : List Subscription
  pub pools : List Pool
  pub env : Env
  pub call : ChainCall

call_step : Meets → ChainCall → Chains → Chains
unfolding create update delete
call_step m (creates input) s = (create m.subs m.pools m.env input s).0
call_step m (updates id input) s = (update m.subs m.pools m.env id input s).0
call_step m (deletes id) s = (delete m.env id s).0

pub run_calls : List Meets → Chains → Chains
unfolding call_step
run_calls [] s = s
run_calls (m ∷ ms) s = run_calls ms (call_step m m.call s)

call_step-Keeps :
    (m : Meets) (c : ChainCall) (s : Chains) → Keeps IsValid s → Keeps IsValid (call_step m c s)
unfolding call_step
call_step-Keeps m (creates input) s h = create-Keeps m.subs m.pools m.env input s h
call_step-Keeps m (updates id input) s h = update-Keeps m.subs m.pools m.env id input s h
call_step-Keeps m (deletes id) s h = delete-Keeps m.env id s h

run_calls-Keeps : (ms : List Meets) (s : Chains) → Keeps IsValid s → Keeps IsValid (run_calls ms s)
unfolding run_calls
run_calls-Keeps [] s h = h
run_calls-Keeps (m ∷ ms) s h =
    run_calls-Keeps ms (call_step m m.call s) (call_step-Keeps m m.call s h)

abbrev pub no_chains : Chains
no_chains = record { items = []; disk = [] }

-- From an empty store, after any creations, updates and deletions, whatever the subscriptions and pools are at each and whether or
-- not its save succeeds, a restart accepts the file and finds the chains that were in memory.
pub load-run_calls :
    (ms : List Meets)
    → load (some (run_calls ms no_chains).disk) ≡ ok (run_calls ms no_chains).items
unfolding load
load-run_calls ms =
    let h = run_calls-Keeps ms no_chains (record { synced = refl; all = tt }) in
    ap validate_all (sym h.synced) ∙ validate_all_valid (run_calls ms no_chains).items h.all
