-- ===== src/Filter/Info.antt =====
-- `shm_info` of ngx_metric_module/src/ngx_http_vhost_traffic_status_shm.c against counts over the
-- list of nodes.
use mathlib.Core.Path.{subst}
use metrics_server_example.Base.{
  sym, ℕ, ◌+◌, ◌%◌, ◌<◌, ◌≡◌, ap, ◌∙◌, List, [], ◌∷◌, ◌++◌, arith, if◌then◌else◌, length,
  length-append,
}
use metrics_server_example.Base.Words.{add64, u64_mod}
use metrics_server_example.RbTree.{RbNode, Tree, sentinel, fork, inorder}
use metrics_server_example.Filter.{MainConf, counts, ShmInfo, count_node, shm_info_node, shm_info}

-- How many nodes of a list count against the limit.
unfoldable pub filtered : MainConf → List RbNode → ℕ
filtered conf [] = 0
filtered conf (m ∷ ms) = (if counts conf m then 1 else 0) + filtered conf ms

-- The bytes of the nodes of a list.
unfoldable pub sizes : MainConf → List RbNode → ℕ
sizes conf [] = 0
sizes conf (m ∷ ms) = conf.node_offset + m.vtsn.len + sizes conf ms

-- The bytes of the nodes that count against the limit.
unfoldable pub filtered_sizes : MainConf → List RbNode → ℕ
filtered_sizes conf [] = 0
filtered_sizes conf (m ∷ ms) =
    (if counts conf m then conf.node_offset + m.vtsn.len else 0) + filtered_sizes conf ms

module _ (conf : MainConf) where
  pub filtered-append :
      (xs ys : List RbNode) → filtered conf (xs ++ ys) ≡ filtered conf xs + filtered conf ys
  unfolding filtered
  filtered-append [] ys = omega arith
  filtered-append (x ∷ xs) ys = omega (arith, filtered-append xs ys)

  sizes-append : (xs ys : List RbNode) → sizes conf (xs ++ ys) ≡ sizes conf xs + sizes conf ys
  unfolding sizes
  sizes-append [] ys = omega arith
  sizes-append (x ∷ xs) ys = omega (arith, sizes-append xs ys)

  filtered_sizes-append :
      (xs ys : List RbNode)
      → filtered_sizes conf (xs ++ ys) ≡ filtered_sizes conf xs + filtered_sizes conf ys
  unfolding filtered_sizes
  filtered_sizes-append [] ys = omega arith
  filtered_sizes-append (x ∷ xs) ys = omega (arith, filtered_sizes-append xs ys)

  -- The count of a list of nodes, added to `info` in words.
  abbrev added : List RbNode → ShmInfo → ShmInfo
  added ms info = record info {
    used_size = add64 info.used_size (sizes conf ms);
    used_node = add64 info.used_node (length ms);
    filter_used_size = add64 info.filter_used_size (filtered_sizes conf ms);
    filter_used_node = add64 info.filter_used_node (filtered conf ms);
  }

  abbrev Words : ShmInfo → Type 0
  Words i =
      (i.used_size < u64_mod)
      × (i.used_node < u64_mod)
      × (i.filter_used_size < u64_mod)
      × (i.filter_used_node < u64_mod)

  count_node-added :
      (m : RbNode) (info : ShmInfo) → Words info → count_node conf m info ≡ added (m ∷ []) info
  unfolding count_node sizes filtered filtered_sizes
  count_node-added m info w = ground arith

  added-fork :
      (xs ys : List RbNode) (m : RbNode) (info : ShmInfo)
      → added ys (added xs (added (m ∷ []) info)) ≡ added (xs ++ m ∷ ys) info
  unfolding filtered sizes filtered_sizes
  added-fork xs ys m info = ground (
    arith,
    length-append xs (m ∷ ys),
    filtered-append xs (m ∷ ys),
    sizes-append xs (m ∷ ys),
    filtered_sizes-append xs (m ∷ ys),
  )

  added-nil : (info : ShmInfo) → Words info → info ≡ added [] info
  unfolding filtered sizes filtered_sizes
  added-nil info w = ground arith

  shm_info_node-added :
      (t : Tree) (info : ShmInfo) → Words info → shm_info_node conf t info ≡ added (inorder t) info
  unfolding shm_info_node inorder
  shm_info_node-added sentinel info w = added-nil info w
  shm_info_node-added (fork l m r) info w =
      let first = added (m ∷ []) info in
      let left = shm_info_node-added l first (omega arith) in
      let words : Words (shm_info_node conf l first) = subst Words (sym left) (omega arith) in
      rw (count_node-added m info w) (
        shm_info_node-added r (shm_info_node conf l first) words
        ∙ ap (added (inorder r)) left
        ∙ added-fork (inorder l) (inorder r) m info)

  -- `shm_info` gives, as 64-bit words, the number and the bytes of all nodes of the tree, and of those
  -- that count against the limit on filters.
  pub shm_info_lem :
      (t : Tree)
      → shm_info conf t ≡ record {
        max_size = conf.shm_size;
        used_size = sizes conf (inorder t) % u64_mod;
        used_node = length (inorder t) % u64_mod;
        filter_used_size = filtered_sizes conf (inorder t) % u64_mod;
        filter_used_node = filtered conf (inorder t) % u64_mod;
      }
  unfolding shm_info
  shm_info_lem t = shm_info_node-added t _ (omega arith) ∙ ground arith
