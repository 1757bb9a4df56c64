-- ===== src/Json/Filters/Entries.antt =====
-- What `display_set_filter` of
-- ngx_metric_module/src/ngx_http_vhost_traffic_status_display_json.c prints.
use metrics_server_example.Base.{
  ℕ, ◌≡◌, ◌≤◌, ◌<◌, refl, ap, sym, ◌∙◌, inl, inr, true, Option, none, some, List, [], ◌∷◌, ◌++◌,
  append_assoc, append-nil, map, length, All, Bool-cases, found_with, if◌then◌else◌, Option-cases,
}
use metrics_server_example.Text.{Bytes, Status, ok, error, escape_json, escape_json_pool, memcmp_eq}
use metrics_server_example.Text.Pool.{has_printable}
use metrics_server_example.Key.{position_key}
use metrics_server_example.RbTree.{RbNode, Tree, inorder, name}
use metrics_server_example.Zone.Update.{Distinct, Distinct-only, All-Member}
use metrics_server_example.Filter.Walk.{Member, preorder, All-preorder}
use metrics_server_example.Control.{Pool}
use metrics_server_example.FilterNodes.{same_name, get_keys, get_nodes}
use metrics_server_example.FilterNodes.Named.{filter_of, filters, nodes_of}
use metrics_server_example.FilterNodes.Gathered.{get_nodes-get_keys}
use metrics_server_example.Display.{comma}
use metrics_server_example.Display.Texts.{IsPrinting, joined, written, take-written}
use metrics_server_example.Json.{Env, Value, text, fmt_server, fmt_object, set_server_node}
use metrics_server_example.Json.Line.{
  all_memory, IsPrintable, server_values, server_line, set_server_node-server_line,
}
use metrics_server_example.Json.Upstream.{str_value}
use metrics_server_example.Json.Upstream.Lines.{str_value-escape_json, update_at-same}
use metrics_server_example.Json.Filters.{
  set_filter_node, set_filter_nodes, object_end, set_filter_key, set_filter_keys, sorted_keys,
  set_filters, set_filter,
}

-- The surroundings print, have memory, and end each line of a node with a comma.
pub record IsReady (env : Env) (body : List Value → Bytes) : Type 0 where
  pub law : IsPrinting env.print
  pub memory : (a : ℕ) → env.memory a ≡ all_memory
  pub escape_memory : (s : Bytes) → env.escape_memory s ≡ true
  pub ends : (vs : List Value) → env.sprintf fmt_server vs ≡ body vs ++ comma ∷ []

-- A node of the tree that can be printed.
pub record Shown (t : Tree) (m : RbNode) : Type 0 where
  pub printable : IsPrintable m.vtsn.request_times m.vtsn.request_buckets
  pub only : All (λ x. x.addr ≡ m.addr → x ≡ m) (inorder t)

All-nodes_of {κ} :
    (P : RbNode → Type κ) (f : Bytes) (ms : List RbNode) → All P ms → All P (nodes_of f ms)
unfolding nodes_of
All-nodes_of P f [] h = tt
All-nodes_of P f (m ∷ ms) h = elim (Option-cases (filter_of m)) [
  | inl e ↦ rw (nodes_of, e) (All-nodes_of P f ms h.1)
  | inr (g, e) ↦ elim (Bool-cases (memcmp_eq f g)) [
    | inl s ↦ rw (nodes_of, e, s) (h.0, All-nodes_of P f ms h.1)
    | inr s ↦ rw (nodes_of, e, s) (All-nodes_of P f ms h.1)
  ]
]

All-Members {κ} :
    (P : RbNode → Type κ) (ms : List RbNode) → ((m : RbNode) → Member m ms → P m) → All P ms
All-Members P [] h = tt
All-Members P (m ∷ ms) h = (h m (inl refl), All-Members P ms (λ x i. h x (inr i)))

-- The name of a node behind its group and its filter.
abbrev pub filter_name : RbNode → Bytes
filter_name m = (position_key (name m) 2).1

-- A filter as an object of its nodes; nothing where it has none.
unfoldable pub object_text : Env → (List Value → Bytes) → Bytes → List RbNode → Bytes
unfolding server_values
object_text env body k [] = []
object_text env body k (m ∷ ms) =
    env.sprintf fmt_object (text (escape_json k) ∷ [])
    ++ joined (map (λ n. body (server_values env (filter_name n) n.vtsn)) (m ∷ ms))
    ++ object_end

-- The filters, but those that equal the one before them.
unfoldable pub objects_text : Env → (List Value → Bytes) → Tree → List Bytes → Bytes → Bytes
unfolding same_name object_text
objects_text env body t [] key = []
objects_text env body t (k ∷ ks) key =
    if same_name k key
    then objects_text env body t ks key
    else object_text env body k (nodes_of k (preorder t)) ++ objects_text env body t ks k

module _ (env : Env) (body : List Value → Bytes) (ready : IsReady env body) (t : Tree) where
  abbrev node_lines : List RbNode → List Bytes
  node_lines ms = map (λ n. body (server_values env (filter_name n) n.vtsn)) ms

  set_filter_nodes-written :
      (ms : List RbNode) (out : Bytes)
      → All (Shown t) ms
      → set_filter_nodes env ms (t, out) ≡ some (t, out ++ written (node_lines ms))
  unfolding set_filter_nodes set_filter_node written
  set_filter_nodes-written [] out h = ap (λ o. some (t, o)) (sym (append-nil out))
  set_filter_nodes-written (m ∷ ms) out h =
      let values = server_values env (filter_name m) m.vtsn in
      let ended : server_line env (filter_name m) m.vtsn ≡ body values ++ comma ∷ [] =
        unfold server_line in ready.ends values in
      let line : set_server_node env (env.memory m.addr) (filter_name m) m.vtsn
          ≡ some (body values ++ comma ∷ [], m.vtsn) =
        rw (ready.memory m.addr) (
          set_server_node-server_line env (filter_name m) m.vtsn ready.law h.0.printable
          ∙ ap (λ l. some (l, m.vtsn)) ended) in
      let here : set_filter_node env m (t, out) ≡ some (t, out ++ (body values ++ comma ∷ [])) =
        rw (set_filter_node, set_server_node, line, update_at-same m t h.0.only) refl in
      rw
        (
          set_filter_nodes,
          here,
          set_filter_nodes-written ms (out ++ (body values ++ comma ∷ [])) h.1,
        )
        (ap (λ o. some (t, o))
          (append_assoc out (body values ++ comma ∷ []) (written (node_lines ms))
            ∙ ap (λ o. out ++ o)
                (append_assoc (body values) (comma ∷ []) (written (node_lines ms)))))

  set_filter_key-object_text :
      (k : Bytes) (m : RbNode) (ms : List RbNode) (out : Bytes)
      → has_printable k ≡ true
      → All (Shown t) (m ∷ ms)
      → set_filter_key env k (m ∷ ms) (t, out) ≡ some (t, out ++ object_text env body k (m ∷ ms))
  unfolding set_filter_key object_text
  set_filter_key-object_text k m ms out h shown =
      let key : str_value (escape_json_pool (env.escape_memory k) k).1
          ≡ some (text (escape_json k)) =
        rw (ready.escape_memory k) (str_value-escape_json k h) in
      let head = env.sprintf fmt_object (text (escape_json k) ∷ []) in
      let line = body (server_values env (filter_name m) m.vtsn) in
      let j = joined (node_lines (m ∷ ms)) in
      let run = set_filter_nodes-written (m ∷ ms) (out ++ head) shown in
      let (cut, _) = take-written (out ++ head) line (node_lines ms) in
      rw (set_filter_key, str_value, key, run, cut)
        (ap (λ o. some (t, o))
          (append_assoc (out ++ head) j object_end
            ∙ append_assoc out head (j ++ object_end)
            ∙ ap (λ w. out ++ w) (sym (append_assoc head j object_end))))

  module _ (pool : Pool) (array : pool.array ≡ true) (key_memory : pool.key ≡ true)
      (room : length (filters (preorder t)) ≤ pool.room) (shown : All (Shown t) (preorder t)) where
    -- A name of a filter that is text and not made of control characters only.
    abbrev IsName : Bytes → Type 0
    IsName k = (has_printable k ≡ true) × All (λ b. 0 < b) k

    -- What follows the nodes of a filter.
    after :
        List Bytes → Bytes → Bytes → Option (Status × Option (List RbNode)) → Option (Tree × Bytes)
    after ks k out r = elim r [
      | none ↦ none
      | some (error, ns) ↦ set_filter_keys env pool ks k ns (t, out)
      | some (ok, none) ↦ set_filter_keys env pool ks k none (t, out)
      | some (ok, some ns) ↦ elim (set_filter_key env k ns (t, out)) [
        | none ↦ none
        | some st ↦ set_filter_keys env pool ks k none st
      ]
    ]

    after-object_text :
        (ks : List Bytes) (k : Bytes) (ns : List RbNode) (out : Bytes)
        → has_printable k ≡ true
        → All (Shown t) ns
        → after ks k out (some (ok, found_with none ns))
          ≡ set_filter_keys env pool ks k none (t, out ++ object_text env body k ns)
    unfolding after object_text
    after-object_text ks k [] out h shown' =
        ap (λ o. set_filter_keys env pool ks k none (t, o)) (sym (append-nil out))
    after-object_text ks k (m ∷ ms) out h shown' =
        rw (after, set_filter_key-object_text k m ms out h shown') refl

    set_filter_keys-objects_text :
        (ks : List Bytes) (key out : Bytes)
        → All IsName ks
        → set_filter_keys env pool ks key none (t, out)
          ≡ some (t, out ++ objects_text env body t ks key)
    unfolding set_filter_keys objects_text after
    set_filter_keys-objects_text [] key out h = ap (λ o. some (t, o)) (sym (append-nil out))
    set_filter_keys-objects_text (k ∷ ks) key out h = elim (Bool-cases (same_name k key)) [
      | inl e ↦ rw (set_filter_keys, e) (set_filter_keys-objects_text ks key out h.1)
      | inr e ↦
          let ns = nodes_of k (preorder t) in
          let gathered = (get_nodes-get_keys pool k t array key_memory room h.0.1).1 in
          let opened : set_filter_keys env pool (k ∷ ks) key none (t, out)
              ≡ after ks k out (get_nodes pool k t none) =
            rw e refl in
          let rest = set_filter_keys-objects_text ks k (out ++ object_text env body k ns) h.1 in
          let texts : objects_text env body t (k ∷ ks) key
              ≡ object_text env body k ns ++ objects_text env body t ks k =
            rw (objects_text, e) refl in
          opened
          ∙ ap (after ks k out) gathered
          ∙ after-object_text ks k ns out h.0.0 (All-nodes_of (Shown t) k (preorder t) shown)
          ∙ rest
          ∙ ap (λ o. some (t, o))
              (append_assoc out (object_text env body k ns) (objects_text env body t ks k)
                ∙ ap (λ o. out ++ o) (sym texts))
    ]

set_filters-objects_text :
    (env : Env) (body : List Value → Bytes) (pool : Pool) (sort : List Bytes → List Bytes)
    (t : Tree) (out : Bytes) (ks : List Bytes)
    → ((ks' : List Bytes)
        → All (λ k. (has_printable k ≡ true) × All (λ b. 0 < b) k) ks'
        → set_filter_keys env pool ks' [] none (t, out)
          ≡ some (t, out ++ objects_text env body t ks' []))
    → All (λ k. (has_printable k ≡ true) × All (λ b. 0 < b) k) (sorted_keys sort ks)
    → set_filters env pool sort (found_with none ks) (t, out)
      ≡ some (t, out ++ objects_text env body t (sorted_keys sort ks) [])
unfolding set_filters objects_text
set_filters-objects_text env body pool sort t out [] run names =
    ap (λ o. some (t, o)) (sym (append-nil out))
set_filters-objects_text env body pool sort t out (k ∷ ks) run names =
    run (sorted_keys sort (k ∷ ks)) names

-- With memory for the arrays, the keys and the texts, and a line format that ends in a comma, where all
-- nodes can be printed and stand at different addresses and the names of the filters are text and not
-- of control characters only, the output of the filters leaves the tree and is, for the filters of
-- the nodes in the order of the sort, but those that equal the one before them, an object under the
-- filter of all the nodes of that filter, each under what its key has behind the filter.
pub set_filter_lem :
    (env : Env) (body : List Value → Bytes) (pool : Pool) (sort : List Bytes → List Bytes)
    (t : Tree) (out : Bytes)
    → IsReady env body
    → pool.array ≡ true
    → pool.key ≡ true
    → length (filters (preorder t)) ≤ pool.room
    → Distinct (inorder t)
    → All (λ m. IsPrintable m.vtsn.request_times m.vtsn.request_buckets) (inorder t)
    → All
        (λ k. (has_printable k ≡ true) × All (λ b. 0 < b) k)
        (sorted_keys sort (filters (preorder t)))
    → set_filter env pool sort (t, out)
      ≡ some (t, out ++ objects_text env body t (sorted_keys sort (filters (preorder t))) [])
unfolding set_filter
set_filter_lem env body pool sort t out ready array key room distinct printable names =
    let shown = All-preorder (Shown t) t (
      All-Members (Shown t) (inorder t) (λ m i. record {
        printable =
            All-Member (λ n. IsPrintable n.vtsn.request_times n.vtsn.request_buckets) (inorder t) m
              printable i;
        only = Distinct-only m (inorder t) distinct i;
      })) in
    let gathered = (get_nodes-get_keys pool [] t array key room tt).0 in
    let run : Option (Status × Option (List Bytes)) → Option (Tree × Bytes) = λ r. elim r [
      | none ↦ none
      | some (error, keys) ↦ some (t, out)
      | some (ok, keys) ↦ set_filters env pool sort keys (t, out)
    ] in
    let opened : set_filter env pool sort (t, out) ≡ run (get_keys pool t none) = refl in
    opened
    ∙ ap run gathered
    ∙ set_filters-objects_text env body pool sort t out (filters (preorder t))
        (λ ks. set_filter_keys-objects_text env body ready t pool array key room shown ks [] out)
        names
