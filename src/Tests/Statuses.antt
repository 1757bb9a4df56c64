-- ===== src/Tests/Statuses.antt =====
-- What the command `status` answers.
use metrics_server_example.Base.{◌≡◌, refl, inr, ap, length, arith, true, none, some, [], ◌∷◌}
use metrics_server_example.TimeQueue.Window.{init-IsFull}
use metrics_server_example.RbTree.{Tree, sentinel, fork, inorder}
use metrics_server_example.Filter.Walk.{preorder}
use metrics_server_example.Control.{group}
use metrics_server_example.Control.Selected.{chosen, zone_key}
use metrics_server_example.FilterNodes.Named.{filters, filter_of}
use metrics_server_example.Key.Fields.{split}
use metrics_server_example.SetFilter.Upstream.{upstream_lookup}
use metrics_server_example.Json.{Stats}
use metrics_server_example.Json.Servers.{is_server}
use metrics_server_example.Json.Sum.{sums}
use metrics_server_example.Json.Upstream.Members.{is_alone}
use metrics_server_example.ControlStatus.{
  Output, report, is_main, group_open, group_close, status_group, status_zone,
}
use metrics_server_example.ControlStatus.Groups.{
  CanShow, object_text, counted, entries_text, status_group_lem,
}
use metrics_server_example.ControlStatus.Zones.{status_zone_lem}
use metrics_server_example.ControlStatus.Entries.{
  answer_text, entry_text, zone_control, key_node, entry_count, no_server,
}
use metrics_server_example.Tests.Trees.{test_main}
use metrics_server_example.Tests.Instances.{test_nginx}
use metrics_server_example.Tests.Displays
use metrics_server_example.Tests.Displays.{nothing, server_node, tree, tree-Distinct, env, stats}
use metrics_server_example.Tests.Upstreams.{
  body, env-IsReady, env-ready, upstream, upstream-Named, pool, main, sort, tree-IsShown,
  tree-filters, tree-names, buckets-IsPrintable, blank-IsPrintable,
}

abbrev pub output : Output
output = record {
  env = env;
  main = main;
  conf = test_main;
  pool = pool;
  sort = sort;
  memory = true;
  upstreams = upstream ∷ [];
}

pub tree-CanShow : CanShow output body body tree stats
tree-CanShow = record {
  servers = env-ready;
  upstreams = env-IsReady;
  array = refl;
  key = refl;
  memory = refl;
  room = omega (arith, ap length tree-filters);
  distinct = tree-Distinct;
  shown = tree-IsShown;
  zones = Displays.tree-IsShown;
  summed = record {
    words = record { stat = omega arith; stat_oc = omega arith };
    full = init-IsFull nothing;
  };
  small = Displays.tree-Below;
  names = tree-names;
  named = (upstream-Named, tt);
  alone = unfold chosen is_alone preorder in tt;
}

status_group_lem_example :
    (s' : Stats) × (status_group test_nginx output (group 4) 0 tree stats
      ≡ some (
          report tree s'
            (object_text
              (group_open env (group 4))
              (entries_text test_nginx output body body tree stats tree-CanShow (group 4))
              (group_close (group 4)))
            (counted
              (entries_text test_nginx output body body tree stats tree-CanShow (group 4))
              0)))
status_group_lem_example =
    status_group_lem test_nginx output body body tree stats tree-CanShow (group 4) 0

-- A tree of one server zone, in the place of its hash.
abbrev single : Tree
single = fork sentinel (record server_node { key = 4 }) sentinel

single-CanShow : CanShow output body body single stats
unfolding chosen is_server is_alone preorder inorder sums filters filter_of split
single-CanShow = record {
  servers = env-ready;
  upstreams = env-IsReady;
  array = refl;
  key = refl;
  memory = refl;
  room = omega arith;
  distinct = (tt, tt);
  shown = (record { request = buckets-IsPrintable; response = blank-IsPrintable }, tt);
  zones = (
    record {
      printable = buckets-IsPrintable;
      words = record { stat = omega arith; stat_oc = omega arith };
    },
    tt,
  );
  summed = record {
    words = record { stat = omega arith; stat_oc = omega arith };
    full = init-IsFull nothing;
  };
  small = omega arith;
  names = tt;
  named = (upstream-Named, tt);
  alone = tt;
}

status_zone_lem_example :
    status_zone test_nginx output (zone_control 0 (b'a' ∷ []) 0) single stats
    ≡ some (elim (key_node test_nginx single 0 (b'a' ∷ []) 0) [
      | none ↦ report single stats [] 0
      | some m ↦
          report single stats
            (answer_text output body body 0
              (zone_key (zone_control 0 (b'a' ∷ []) 0))
              (no_server 0)
              m)
            (counted
              (entry_text output body body 0
                (zone_key (zone_control 0 (b'a' ∷ []) 0))
                (no_server 0)
                m)
              (entry_count 0 (no_server 0) 0))
    ])
unfolding is_main upstream_lookup
status_zone_lem_example =
    status_zone_lem test_nginx output body body single stats single-CanShow 0 (b'a' ∷ []) 0
      (no_server 0) refl refl (inr refl)
