-- ===== src/Subscription/Import.antt =====
-- `ImportNodes` of internal/subscription/manager.go. `parse_link` stands for `ParseNodeLink`, and
-- `lines` for the lines of the text, trimmed, with their numbers: those that are empty are skipped.
pub mod Keeps
pub mod Orderly
use sing_box_webui.Prelude.{
  ℕ, ◌+◌, String, Bool, true, false, not, ◌||◌, List, [], ◌∷◌, ◌++◌, map, Option, none, some, ltb,
  ◌==◌, if◌then◌else◌, length, has, str_eq, Result, ok, err, ◌>>=◌, ◌>>◌, refuse,
}
use sing_box_webui.Storage.{Stored, Env, commit, find, replace}
use sing_box_webui.Subscription.Model.{
  Node, Subscription, NodeView, SubscriptionError, not_found, not_saved, too_large, too_many_links,
  no_links,
}
use sing_box_webui.Subscription.Shown.{to_node_view}
use sing_box_webui.Subscription.Store.{Subs, sub_id}

abbrev pub max_import_links : ℕ
max_import_links = 200

abbrev pub max_import_text_bytes : ℕ
max_import_text_bytes = 262144

-- One parsed line: its number, and the node or the error.
pub record ParsedItem : Type 0 where
  pub line : ℕ
  pub node : Result String Node

pub data ImportStatus : Type 0 where
  added duplicate invalid : ImportStatus

pub record ImportNodeItem : Type 0 where
  pub line : ℕ
  pub status : ImportStatus
  pub error : String
  pub node : Option NodeView

-- The loop over the lines
parse_lines :
    (String → Result String Node)
    → ℕ
    → List (ℕ × String)
    → Result SubscriptionError (List ParsedItem)
parse_lines parse_link n [] = ok []
parse_lines parse_link n ((line, raw) ∷ rest) =
    let skip = parse_lines parse_link n rest in
    let keep = parse_lines parse_link (n + 1) rest in
    if str_eq raw ""
    then skip
    else if not (ltb n max_import_links)
    then err too_many_links
    else do items ← keep; ok (record { line = line; node = parse_link raw } ∷ items)

-- What the loop over the parsed lines carries: the item, the keys of `existing` and of `manualIDs`, the
-- counts and lines of the result, and `changed`.
pub record Importing : Type 0 where
  pub item : Subscription
  pub existing : List String
  pub manual : List String
  pub added_count : ℕ
  pub duplicate_count : ℕ
  pub invalid_count : ℕ
  pub items : List ImportNodeItem
  pub changed : Bool

-- The inner loop: the first node with the id is replaced.
pub replace_node : Node → List Node → List Node
replace_node n [] = []
replace_node n (x ∷ xs) = if str_eq x.id n.id then n ∷ xs else x ∷ replace_node n xs

track : String → List String → List String → List String
track id manual ids = if has id manual then ids else ids ++ id ∷ []

import_duplicate : ℕ → Node → Importing → Importing
unfolding track replace_node
import_duplicate line n a =
    let item = record a.item {
      nodes = replace_node n a.item.nodes;
      manual_node_ids = track n.id a.manual a.item.manual_node_ids;
    } in
    record a {
      item = item;
      existing = n.id ∷ a.existing;
      manual = n.id ∷ a.manual;
      duplicate_count = a.duplicate_count + 1;
      items =
          a.items
          ++ record {
            line = line;
            status = duplicate;
            error = "";
            node = some (to_node_view a.item.selected_node_id n);
          }
            ∷ [];
      changed = true;
    }

import_added : ℕ → Node → Importing → Importing
import_added line n a =
    let selected = if str_eq a.item.selected_node_id "" then n.id else a.item.selected_node_id in
    record a {
      item = record a.item {
        nodes = a.item.nodes ++ n ∷ [];
        manual_node_ids = a.item.manual_node_ids ++ n.id ∷ [];
        selected_node_id = selected;
      };
      existing = n.id ∷ a.existing;
      manual = n.id ∷ a.manual;
      added_count = a.added_count + 1;
      items =
          a.items
          ++ record {
            line = line;
            status = added;
            error = "";
            node = some (to_node_view selected n);
          }
            ∷ [];
      changed = true;
    }

import_invalid : ℕ → String → Importing → Importing
import_invalid line e a = record a {
  invalid_count = a.invalid_count + 1;
  items = a.items ++ record { line = line; status = invalid; error = e; node = none } ∷ [];
}

import_node : ℕ → Result String Node → Importing → Importing
unfolding import_invalid import_duplicate import_added
import_node line (err e) a = import_invalid line e a
import_node line (ok n) a =
    if has n.id a.existing then import_duplicate line n a else import_added line n a

pub import_loop : List ParsedItem → Importing → Importing
unfolding import_node
import_loop [] a = a
import_loop (p ∷ ps) a = import_loop ps (import_node p.line p.node a)

node_ids : List Node → List String
node_ids [] = []
node_ids (n ∷ ns) = n.id ∷ node_ids ns

pub begin_import : Subscription → Importing
unfolding node_ids
begin_import item = record {
  item = item;
  existing = node_ids item.nodes;
  manual = item.manual_node_ids;
  added_count = 0;
  duplicate_count = 0;
  invalid_count = 0;
  items = [];
  changed = false;
}

save_import :
    Env
    → String
    → Subscription
    → Subs
    → Importing
    → Bool
    → Subs × Result SubscriptionError Importing
save_import env id previous s a true =
    commit env.saved not_saved (replace sub_id id a.item s.items) (replace sub_id id previous) a s
save_import env id previous s a false = (s, ok a)

import_found :
    Env
    → String
    → List ParsedItem
    → Subs
    → Option Subscription
    → Subs × Result SubscriptionError Importing
unfolding save_import import_loop begin_import
import_found env id parsed s none = (s, err not_found)
import_found env id parsed s (some item) =
    let a = import_loop parsed (begin_import item) in save_import env id item s a a.changed

import_parsed :
    Env
    → String
    → Subs
    → Result SubscriptionError (List ParsedItem)
    → Subs × Result SubscriptionError Importing
unfolding import_found
import_parsed env id s (err e) = (s, err e)
import_parsed env id s (ok []) = (s, err no_links)
import_parsed env id s (ok (p ∷ ps)) = import_found env id (p ∷ ps) s (find sub_id id s.items)

-- ImportNodes, of a text with this many bytes
pub import_nodes :
    (String → Result String Node)
    → Env
    → String
    → ℕ
    → List (ℕ × String)
    → Subs
    → Subs × Result SubscriptionError Importing
unfolding import_parsed parse_lines
import_nodes parse_link env id bytes lines s =
    if ltb max_import_text_bytes bytes
    then (s, err too_large)
    else import_parsed env id s (parse_lines parse_link 0 lines)
