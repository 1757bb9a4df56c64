-- ===== src/Tests/Controls.antt =====
-- A request to the control interface.
use mathlib.Core.Option.{some-injective}
use mathlib.Core.Path.{subst}
use metrics_server_example.Base.{
  map, inr, ◌≡◌, ◌≤◌, ◌+◌, ◌⊎◌, refl, sym, ap, ◌∙◌, arith, true, false, none, some, [], ◌∷◌, length,
}
use metrics_server_example.Text.Pool.{has_printable}
use metrics_server_example.RbTree.{inorder}
use metrics_server_example.Zone.{Zone}
use metrics_server_example.Filter.Walk.{preorder}
use metrics_server_example.FilterNodes.Named.{filters, filter_of, nodes_of}
use metrics_server_example.Key.Fields.{split}
use metrics_server_example.Control.{Control, group, group_number, range_group}
use metrics_server_example.SetFilter.Upstream.{UpstreamLookup, upstream_lookup}
use metrics_server_example.Display.Texts.{joined}
use metrics_server_example.Json.Filters.Entries.{objects_text, object_text}
use metrics_server_example.Page.{count_addrs, get_upstream_nelts}
use metrics_server_example.ControlHandler.{Args, Memory, cmd_status, cmd_none, sent, parse}
use metrics_server_example.ControlHandler.Parsed.{Named}
use metrics_server_example.ControlHandler.Executed.{
  nodes_after, IsCounted, IsReportable, buffer_bytes, handler_control_lem,
}
use metrics_server_example.ControlStatus.{
  Report, lookup_conf, json_spare, head_bytes, group_open, group_close, node_status,
}
use metrics_server_example.ControlStatus.Groups
use metrics_server_example.ControlStatus.Groups.{entries_text, counted, status_group_lem}
use metrics_server_example.ControlStatus.Entries.{no_server}
use metrics_server_example.ControlStatus.Left.{IsKnown}
use metrics_server_example.ControlStatus.Handler.{
  Interface, execute, answer_buf, answer_spare, handler_control,
}
use metrics_server_example.Tests.Instances.{test_nginx, test_nginx-IsLawful}
use metrics_server_example.Tests.Displays.{tree, stats, tree-Sorted, tree-Distinct}
use metrics_server_example.Tests.Upstreams.{body, tree-Below}
use metrics_server_example.Tests.Statuses.{output, tree-CanShow}

-- `cmd=status&group=filter&zone=*`
abbrev args : Args
args = record {
  present = true;
  cmd = some (b's' ∷ b't' ∷ b'a' ∷ b't' ∷ b'u' ∷ b's' ∷ []);
  group = some (b'f' ∷ b'i' ∷ b'l' ∷ b't' ∷ b'e' ∷ b'r' ∷ []);
  zone = some (b'*' ∷ []);
}

abbrev memory : Memory
memory = record {
  control = true;
  zone = true;
  copy = true;
  info = true;
  buffer = true;
  header_only = false;
}

abbrev interface : Interface
interface = record {
  output = output;
  sizes = record { node = 800; html_data = 100; page = 4096; metrics = 64 };
  fmt_control = λ vs. b'{' ∷ b'}' ∷ [];
}

abbrev control : Control
control = record { selector = group 4; zone = b'*' ∷ []; range = range_group; count = 0 }

abbrev shared : Zone
shared = record { tree = tree; node_caches = none ∷ []; locked = true }

args-parse : parse true args ≡ some (cmd_status, control)
unfolding parse
args-parse = refl

control-IsKnown : IsKnown output control
unfolding IsKnown upstream_lookup
control-IsKnown n e =
    subst
      (λ k.
        (u : UpstreamLookup) × (upstream_lookup (map lookup_conf output.upstreams) k (b'*' ∷ [])
            (no_server 0)
          ≡ some u)
        × ((has_printable u.name ≡ true) ⊎ (u.count ≡ 0)))
      (ap group_number e) (no_server 0, refl, inr refl)

control-IsReportable : IsReportable interface body body memory tree stats control
unfolding inorder get_upstream_nelts count_addrs
control-IsReportable = record {
  shown = tree-CanShow;
  small = tree-Below;
  known = control-IsKnown;
  info = refl;
  entries = omega arith;
  word = omega arith;
}

entries-short :
    length (
        answer_buf (
          Groups.object_text
            (group_open output.env (group 4))
            (entries_text test_nginx output body body tree stats tree-CanShow (group 4))
            (group_close (group 4))))
      + answer_spare interface cmd_status
    ≤ buffer_bytes interface args tree cmd_status
unfolding answer_buf Groups.object_text group_open entries_text group_close answer_spare
    buffer_bytes json_spare head_bytes inorder get_upstream_nelts count_addrs objects_text
    object_text preorder filters filter_of nodes_of split joined
entries-short = omega arith

answer-short :
    (p : Report)
    → execute test_nginx interface args cmd_status control tree stats ≡ some p
    → length (answer_buf p.buf) + answer_spare interface cmd_status
      ≤ buffer_bytes interface args tree cmd_status
unfolding execute node_status
answer-short p run =
    let (s', status) =
      status_group_lem test_nginx output body body tree stats tree-CanShow (group 4) 0 in
    subst
      (λ (r : Report).
        length (answer_buf r.buf) + answer_spare interface cmd_status
        ≤ buffer_bytes interface args tree cmd_status)
      (some-injective _ _ (sym status ∙ run)) entries-short

handler_control_lem_example :
    (p : Report) × (execute test_nginx interface args cmd_status control tree stats ≡ some p)
    × (handler_control test_nginx interface memory args shared stats
        ≡ some
            (sent (answer_buf p.buf), (record shared { tree = p.tree; locked = false }, p.stats)))
    × (inorder p.tree ≡ nodes_after test_nginx cmd_status control (inorder tree))
    × IsCounted test_nginx cmd_status control (inorder tree) p.count
    × ((cmd_status ≡ cmd_none) ⊎ Named args cmd_status control)
handler_control_lem_example =
    handler_control_lem test_nginx interface body body memory args shared stats cmd_status control
      test_nginx-IsLawful tree-Sorted tree-Distinct
      (record { control = refl; zone = refl; buffer = refl; body = refl })
      (record { key = refl; array = refl; room = unfold inorder in omega arith }) args-parse
      (λ e. control-IsReportable) answer-short
