-- ===== src/Tests/Limits.antt =====
-- Limits on traffic, the cached pointers, and the counters of a node by name.
use metrics_server_example.Base.{
  ℕ, ◌≡◌, refl, arith, true, false, not, ◌||◌, none, some, [], ◌∷◌, All, inl, if◌then◌else◌,
}
use metrics_server_example.Node.Member.Table.{table, read_table}
use metrics_server_example.RbTree.{Tree, inorder, lookup}
use metrics_server_example.Zone.{Zone, dangling, find_node, find_addr, of_lookup}
use metrics_server_example.Zone.Cache.{Live, NoCollision, find_node-lookup, find_node-delete}
use metrics_server_example.Control.{any, Control, range_all, Pool, delete}
use metrics_server_example.Control.Selected.{selects}
use metrics_server_example.Limit.{
  Names, Limit, declined, rejected, limit_target, LimitConf, limit_handler,
}
use metrics_server_example.Limit.Decide.{all_of, decide_all, Safe, Stays}
use metrics_server_example.Limit.Handler.{lists, limit_handler_lem}
use metrics_server_example.Tests.Instances.{test_nginx, test_nginx-IsLawful, cmp}
use metrics_server_example.Tests.Trees.{one, node_a, one-Sorted}

-- The group of filters has the only node cached.
abbrev cached : Zone
cached = record {
  tree = one;
  node_caches = none ∷ none ∷ none ∷ none ∷ some 10 ∷ [];
  locked = false;
}

cached-Live : All (Live (inorder one)) cached.node_caches
unfolding inorder find_addr
cached-Live = (tt, (tt, (tt, (tt, ((node_a, refl), tt)))))

one-NoCollision : NoCollision 1 (b'a' ∷ []) (inorder one)
unfolding inorder
one-NoCollision = ((λ e. refl), tt)

find_node-lookup_example :
    find_node test_nginx cached (b'a' ∷ []) 4 0 ≡ of_lookup (lookup test_nginx one (b'a' ∷ []) 1)
find_node-lookup_example =
    find_node-lookup test_nginx cached (b'a' ∷ []) 4 test_nginx-IsLawful one-Sorted cached-Live
      one-NoCollision

abbrev everything : Control
everything = record { selector = any; zone = []; range = range_all; count = 0 }

abbrev pool : Pool
pool = record { array = true; room = 8; key = true }

find_node-delete_example :
    (t' : Tree) × (count : ℕ) × (delete test_nginx everything pool one ≡ some (t', count))
    × (find_node test_nginx (record cached { tree = t' }) (b'b' ∷ []) 4 0 ≡ dangling)
find_node-delete_example =
    find_node-delete test_nginx everything pool cached node_a (b'b' ∷ []) 4 0 test_nginx-IsLawful
      one-Sorted (unfold inorder in (tt, tt)) refl refl (unfold inorder in omega arith)
      (omega arith) (unfold inorder in inl refl) (unfold selects in refl) refl

-- At most 1000 bytes in, for the filter `a`.
abbrev limit_in : Limit
limit_in = record {
  has_variable = true;
  variable = some (b'i' ∷ b'n' ∷ []);
  has_key = true;
  key = some (b'a' ∷ []);
  memory = true;
  type = 4;
  size = 1000;
  code = 503;
}

abbrev conf : LimitConf
conf = record {
  enable = true;
  limit = true;
  bypass_limit = false;
  main_traffics = none;
  traffics = none;
  main_filter_traffics = some (limit_in ∷ []);
  filter_traffics = none;
}

abbrev names : Names
names = record { filter = false; filter_host = false; host_header = []; server_name = [] }

conf-Safe : All (λ o. All (Safe test_nginx names one) (all_of o)) (lists conf)
unfolding inorder limit_target
conf-Safe = (tt, (tt, (((((λ e. refl), tt), tt)), (tt, tt))))

limit_handler_lem_example :
    (z' : Zone) × (limit_handler test_nginx names conf cached
      ≡ some (
        if not true || not true || false
            then declined
            else decide_all test_nginx names one (lists conf),
        z',
      ))
    × Stays cached z'
limit_handler_lem_example =
    limit_handler_lem test_nginx names test_nginx-IsLawful conf cached one-Sorted cached-Live
      conf-Safe refl

decide_all-conf : decide_all test_nginx names one (lists conf) ≡ rejected 503
unfolding decide_all limit_target read_table cmp table
decide_all-conf = refl
