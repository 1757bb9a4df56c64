-- ===== src/Tests/Upstreams.antt =====
-- The output of upstreams, and the whole output.
use mathlib.Core.Path.{subst}
use mathlib.Core.Option.{some-injective}
use metrics_server_example.Base.{
  ◌<◌, ◌≡◌, refl, sym, ap, length, arith, true, none, some, List, [], ◌∷◌, ◌++◌, All,
}
use metrics_server_example.Text.{Bytes}
use metrics_server_example.Text.Pool.{has_printable}
use metrics_server_example.TimeQueue.Window.{init-IsFull}
use metrics_server_example.RbTree.{inorder}
use metrics_server_example.Filter.Walk.{preorder}
use metrics_server_example.Control.Selected.{chosen}
use metrics_server_example.SetFilter.Upstream.{zero_server}
use metrics_server_example.Json.{Value, Stats}
use metrics_server_example.Json.Line.{IsPrintable}
use metrics_server_example.Json.Upstream.{UpstreamSrvConf}
use metrics_server_example.Json.Upstream.Lines.{IsReady, IsShown}
use metrics_server_example.Json.Upstream.Members.{FitsIn, is_alone, alone_lines}
use metrics_server_example.Json.UpstreamGroup.{
  members_of, nogroups, longest_host, dst_len, set_upstream_group,
}
use metrics_server_example.Json.UpstreamGroup.Entries.{
  Named, array_text, groups_text, set_upstream_group_lem,
}
use metrics_server_example.Control.{Pool}
use metrics_server_example.Key.Fields.{split}
use metrics_server_example.FilterNodes.Named.{filters, filter_of}
use metrics_server_example.Node.{zero_counters}
use metrics_server_example.Node.Totals.{Below}
use metrics_server_example.Json.Sum.{two_words, sums, stats_totals}
use metrics_server_example.Json.Servers.{is_server, server_lines}
use metrics_server_example.Json.Filters
use metrics_server_example.Json.Filters.{sorted_keys}
use metrics_server_example.Json.Filters.Entries.{objects_text}
use metrics_server_example.Json.Whole.{
  Main, set_main, filter_zones_name, upstream_zones_name, display_set,
}
use metrics_server_example.Json.Whole.Members.{server_member, member_text, display_set_lem}
use metrics_server_example.Tests.Trees.{test_main}
use metrics_server_example.Tests.Displays
use metrics_server_example.Tests.Instances.{test_nginx}
use metrics_server_example.Tests.Displays.{
  digit-IsPrinting, nothing, queue, queue-small, buckets, tree, tree-Distinct, env, stats,
}
use metrics_server_example.Tests.Nodes.{test_memory}

abbrev pub body : List Value → Bytes
body vs = b'{' ∷ b'}' ∷ []

pub env-IsReady : IsReady env body
env-IsReady = record {
  law = digit-IsPrinting;
  memory = λ a. refl;
  response_memory = λ a. refl;
  escape_memory = λ s. refl;
  key_memory = λ s. refl;
  ends = λ vs. refl;
}

pub blank-IsPrintable : IsPrintable queue (test_memory.request_buckets)
blank-IsPrintable = record {
  full = init-IsFull nothing;
  places = omega arith;
  times = queue-small.0;
  msecs = queue-small.1;
  bounds = tt;
  counters = tt;
}

pub buckets-IsPrintable : IsPrintable queue buckets
buckets-IsPrintable = record {
  full = init-IsFull nothing;
  places = omega arith;
  times = queue-small.0;
  msecs = queue-small.1;
  bounds = omega arith;
  counters = omega arith;
}

pub tree-IsShown : All IsShown (inorder tree)
unfolding inorder
tree-IsShown = (
  record { request = buckets-IsPrintable; response = blank-IsPrintable },
  (record { request = blank-IsPrintable; response = blank-IsPrintable }, tt),
)

-- One server `c` of the upstream `b`, which has no node yet.
abbrev pub upstream : UpstreamSrvConf
upstream = record {
  host = b'b' ∷ [];
  port = 0;
  servers = some (record { conf = zero_server; addrs = (b'c' ∷ []) ∷ [] } ∷ []);
  peers = none;
}

pub upstream-Named : Named (dst_len (upstream ∷ [])) upstream
unfolding members_of has_printable dst_len longest_host
upstream-Named servers e =
    subst (λ ss. All (λ s. FitsIn (dst_len (upstream ∷ [])) (b'b' ∷ []) s.0) (members_of none ss))
      (some-injective _ _ e) ((refl, omega arith), tt)

set_upstream_group_lem_example :
    set_upstream_group test_nginx env true (upstream ∷ []) (tree, [])
    ≡ some (
      tree,
      []
          ++ groups_text test_nginx env body env-IsReady tree tree-Distinct tree-IsShown
              (upstream ∷ [])
          ++ array_text env nogroups
              (alone_lines env body env-IsReady (chosen is_alone (preorder tree))),
    )
set_upstream_group_lem_example =
    set_upstream_group_lem test_nginx env body env-IsReady tree tree-Distinct tree-IsShown
      (upstream ∷ []) [] (upstream-Named, tt) (unfold chosen is_alone preorder in tt)

pub env-ready : Filters.Entries.IsReady env body
env-ready = record {
  law = digit-IsPrinting;
  memory = λ a. refl;
  escape_memory = λ s. refl;
  ends = λ vs. refl;
}

abbrev pub pool : Pool
pool = record { array = true; room = 8; key = true }

abbrev pub main : Main
main = record {
  hostname = b'h' ∷ [];
  version = b'1' ∷ [];
  start_msec = 1;
  active = 1;
  reading = 0;
  writing = 1;
  waiting = 0;
  accepted = 1;
  handled = 1;
  requests = 1;
  shm_name = b's' ∷ [];
  memory = true;
}

abbrev pub sort : List Bytes → List Bytes
sort ks = ks

-- The one filter of the tree is `f`.
pub tree-filters : filters (preorder tree) ≡ (b'f' ∷ []) ∷ []
unfolding filters filter_of preorder split
tree-filters = refl

pub tree-names :
    All
      (λ k. (has_printable k ≡ true) × All (λ b. 0 < b) k)
      (sorted_keys sort (filters (preorder tree)))
tree-names =
    subst (λ ks. All (λ k. (has_printable k ≡ true) × All (λ b. 0 < b) k) (sorted_keys sort ks))
      (sym tree-filters) ((unfold has_printable in refl, omega arith), tt)

pub tree-Below : Below two_words (sums (chosen is_server (preorder tree)) zero_counters)
unfolding chosen is_server preorder sums
tree-Below = omega arith

display_set_lem_example :
    (s' : Stats) × (display_set test_nginx env main test_main pool sort true
        (upstream ∷ [])
        (tree, stats)
      ≡ some (
        tree,
        (
          (b'{' ∷ [])
              ++ set_main env main test_main tree
              ++ server_member (server_lines env (chosen is_server (preorder tree)))
              ++ member_text filter_zones_name
                  (objects_text env body tree (sorted_keys sort (filters (preorder tree))) [])
              ++ member_text upstream_zones_name (
                  groups_text test_nginx env body env-IsReady tree tree-Distinct tree-IsShown
                    (upstream ∷ [])
                  ++ array_text env nogroups
                      (alone_lines env body env-IsReady (chosen is_alone (preorder tree))))
              ++ b'}' ∷ [],
          s',
        ),
      ))
    × (stats_totals s' ≡ sums (chosen is_server (preorder tree)) zero_counters)
display_set_lem_example =
    display_set_lem test_nginx env body body main test_main pool sort (upstream ∷ []) tree stats
      env-ready env-IsReady refl refl (omega (arith, ap length tree-filters)) tree-Distinct
      tree-IsShown Displays.tree-IsShown tree-Below tree-names (upstream-Named, tt)
      (unfold chosen is_alone preorder in tt)
