-- ===== src/Variables/Read.antt =====
-- `node_variable` of ngx_metric_module/src/ngx_http_vhost_traffic_status_variables.c against a walk
-- through the tree.
use metrics_server_example.Base.{
  ℕ, ◌≡◌, refl, ap, sym, ◌∙◌, inl, inr, Bool, true, false, Option, none, some, arith, ◌==◌, length,
  All, All-set, set, Option-cases,
}
use metrics_server_example.Text.{Bytes, Status, ok, error}
use metrics_server_example.Group.{upstream_no}
use metrics_server_example.Key.{generate_key}
use metrics_server_example.Node.{Node}
use metrics_server_example.RbTree.{inorder, Nginx, IsLawful, lookup}
use metrics_server_example.RbTree.Order.{Sorted}
use metrics_server_example.Zone.{Zone}
use metrics_server_example.Zone.Cache.{Live, NoCollision, find_node-lookup}
use metrics_server_example.Limit.{Names, find_name}
use metrics_server_example.Limit.Decide.{Stays, find_addr-some}
use metrics_server_example.Zone.Kept.{lookup-Member}
use metrics_server_example.Variables.{
  VariableValue, Memory, found_value, variable_of, keyed_variable, node_variable,
}

-- The key of the server of a request.
abbrev pub server_key : Names → Bytes
server_key names = (generate_key true (find_name names) upstream_no).1

keyed_variable_lem :
    (ngx : Nginx) (print : ℕ → Bytes) (field : Node → ℕ) (v : VariableValue) (z : Zone) (k : Bytes)
    → IsLawful ngx
    → (length k == 0) ≡ false
    → Sorted ngx (inorder z.tree)
    → All (Live (inorder z.tree)) z.node_caches
    → NoCollision (ngx.crc32_short k) k (inorder z.tree)
    → z.locked ≡ false
    → (z' : Zone) × (keyed_variable ngx print true field v z k
        ≡ some (
          ok,
          elim (lookup ngx z.tree k (ngx.crc32_short k)) [
            | none ↦ record v { not_found = true }
            | some m ↦ found_value print (field m.vtsn)
          ],
          z',
        ))
      × Stays z z'
unfolding keyed_variable variable_of
keyed_variable_lem ngx print field v z k law filled s live safe free =
    let here = find_node-lookup ngx (record z { locked = true }) k upstream_no law s live safe in
    let ms = inorder z.tree in
    elim (Option-cases (lookup ngx z.tree k (ngx.crc32_short k))) [
      | inl missing ↦
          rw (keyed_variable, filled, here, missing)
            (
              record z { node_caches = set z.node_caches upstream_no none; locked = false },
              refl,
              record {
                tree = refl;
                live = All-set (Live ms) z.node_caches upstream_no none tt live;
                locked = sym free;
              },
            )
      | inr (m, there) ↦
          let cached : Live ms (some m.addr) =
            find_addr-some m ms (lookup-Member ngx z.tree k (ngx.crc32_short k) m there) in
          rw (keyed_variable, filled, here, there)
            (
              record z {
                node_caches = set z.node_caches upstream_no (some m.addr);
                locked = false;
              },
              refl,
              record {
                tree = refl;
                live = All-set (Live ms) z.node_caches upstream_no (some m.addr) cached live;
                locked = sym free;
              },
            )
    ]

-- A variable `$vts_*` has the counter, at the variable's offset, of the node that the tree has for the
-- request's server, and is not found where there is none. The tree stays as it is, the cached pointers
-- point into it, and the mutex is free again. This is for a lawful nginx core, for memory for the key
-- and the value, for a sorted tree with live cached pointers, and for a key without a collision.
pub node_variable_lem :
    (ngx : Nginx) (print : ℕ → Bytes) (names : Names) (memory : Memory) (field : Node → ℕ)
    (v : VariableValue) (z : Zone)
    → IsLawful ngx
    → memory.key ≡ true
    → memory.value ≡ true
    → Sorted ngx (inorder z.tree)
    → All (Live (inorder z.tree)) z.node_caches
    → NoCollision (ngx.crc32_short (server_key names)) (server_key names) (inorder z.tree)
    → z.locked ≡ false
    → (z' : Zone) × (node_variable ngx print names memory field v z
        ≡ some (
          ok,
          elim (lookup ngx z.tree (server_key names) (ngx.crc32_short (server_key names))) [
            | none ↦ record v { not_found = true }
            | some m ↦ found_value print (field m.vtsn)
          ],
          z',
        ))
      × Stays z z'
unfolding node_variable generate_key
node_variable_lem ngx print names memory field v z law key value s live safe free =
    let filled : (length (server_key names) == 0) ≡ false = ground arith in
    let run : Bool → Status × Bytes → Option (Status × VariableValue × Zone) = λ m r. elim r.0 [
      | error ↦ some (error, v, z)
      | ok ↦ keyed_variable ngx print m field v z r.1
    ] in
    let (z', e, stays) =
      keyed_variable_lem ngx print field v z (server_key names) law filled s live safe free in
    (
      z',
      ap (λ b. run b (generate_key memory.key (find_name names) upstream_no)) value
          ∙ ap (λ b. run true (generate_key b (find_name names) upstream_no)) key
          ∙ e,
      stays,
    )
