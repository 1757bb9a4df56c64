-- ===== src/Tests/Pages.antt =====
-- Requests for pages.
use metrics_server_example.Base.{
  ℕ, ◌≡◌, ◌≤◌, ◌+◌, refl, arith, true, false, none, some, [], ◌∷◌, length,
}
use metrics_server_example.Text.{Bytes}
use metrics_server_example.RbTree.{inorder}
use metrics_server_example.Zone.{Zone}
use metrics_server_example.TimeQueue.Window.{init-IsFull}
use metrics_server_example.Control.Selected.{chosen}
use metrics_server_example.Filter.Walk.{preorder}
use metrics_server_example.Json.{Stats, init_stats}
use metrics_server_example.Json.Servers.{is_server}
use metrics_server_example.Json.Sum.{sums}
use metrics_server_example.ControlStatus.{json_spare, head_bytes}
use metrics_server_example.ControlStatus.Groups.{CanShow}
use metrics_server_example.Display.Texts.{joined}
use metrics_server_example.FilterNodes.Named.{filters, filter_of, nodes_of}
use metrics_server_example.Key.Fields.{split}
use metrics_server_example.Json.Whole.{set_main}
use metrics_server_example.Json.Whole.Members.{server_member, member_text}
use metrics_server_example.Json.Filters.Entries.{objects_text, object_text}
use metrics_server_example.Json.Upstream.{of_servers}
use metrics_server_example.Json.Upstream.Members.{is_alone}
use metrics_server_example.Json.UpstreamGroup.{members_of}
use metrics_server_example.Json.UpstreamGroup.Entries.{groups_text, group_text, array_text}
use metrics_server_example.Page.{
  json, prometheus, count_addrs, get_upstream_nelts, Sizes, is_control, find_format, get_size,
}
use metrics_server_example.Page.Formats.{page_result, find_format_lem}
use metrics_server_example.Page.Places.{first_format, format_at}
use metrics_server_example.Page.Size.{group_lines, bytes_for, get_size_lem}
use metrics_server_example.Page.Handler.{spare, get, Site, Visit, page, handler_default}
use metrics_server_example.Page.Served.{
  members_text, buffer_bytes, CanPrint, IsRoomy, served, page_text, handler_default_lem,
}
use metrics_server_example.Tests.Trees.{test_main}
use metrics_server_example.Tests.Instances.{test_nginx}
use metrics_server_example.Tests.Displays.{tree, stats}
use metrics_server_example.Tests.Upstreams.{body, upstream}
use metrics_server_example.Tests.Metrics
use metrics_server_example.Tests.Metrics.{collectors, plain}
use metrics_server_example.Tests.Statuses.{output, tree-CanShow}

-- `/s/format/json` in front of the rest of the request's line.
abbrev request : Bytes
request =
    b'/' ∷ b's' ∷ b'/' ∷ b'f' ∷ b'o' ∷ b'r' ∷ b'm' ∷ b'a' ∷ b't' ∷ b'/' ∷ b'J' ∷ b's' ∷ b'o' ∷ b'n'
    ∷ b' ' ∷ b'H' ∷ b'/' ∷ b'1' ∷ 0 ∷ []

find_format-request : find_format prometheus request 14 ≡ some (json, b'/' ∷ b's' ∷ [])
unfolding find_format
find_format-request = refl

-- A text of two bytes, whose second slash is that of the rest of the line.
is_control-short : is_control (b'/' ∷ b's' ∷ b' ' ∷ b'H' ∷ b'/' ∷ b'1' ∷ 0 ∷ []) 2 ≡ none
unfolding is_control
is_control-short = refl

find_format_lem_example :
    (uri : ℕ) × (find_format prometheus request 14
      ≡ some (page_result prometheus request (first_format 14 0 request) uri))
find_format_lem_example = find_format_lem prometheus request 14 (omega arith)

abbrev sizes : Sizes
sizes = record { node = 800; html_data = 100; page = 4096; metrics = 64 }

get_size_lem_example :
    (un : ℕ) × (length (inorder tree) + group_lines (upstream ∷ []) ≤ un)
    × (get_size sizes test_main true (upstream ∷ []) tree json ≡ some (bytes_for sizes un))
unfolding inorder get_upstream_nelts count_addrs
get_size_lem_example =
    get_size_lem sizes test_main (upstream ∷ []) tree json (λ e. cc) (omega arith) (omega arith)

abbrev site : Site
site = record {
  enable = true;
  format = prometheus;
  jsonp = b'f' ∷ [];
  sizes = sizes;
  html = λ uri. uri;
  fmt_control = λ vs. b'{' ∷ b'}' ∷ [];
  output = output;
  metrics = Metrics.env;
  collectors = collectors;
}

abbrev visit : Visit
visit = record {
  verb = get;
  memory = request;
  len = 14;
  discard = none;
  header_only = false;
  info = true;
  buffer = true;
}

abbrev zone : Zone
zone = record { tree = tree; node_caches = []; locked = true }

init-CanShow : CanShow output body body tree (init_stats stats)
unfolding init_stats sums chosen is_server preorder
init-CanShow = record {
  servers = tree-CanShow.servers;
  upstreams = tree-CanShow.upstreams;
  array = tree-CanShow.array;
  key = tree-CanShow.key;
  memory = tree-CanShow.memory;
  room = tree-CanShow.room;
  distinct = tree-CanShow.distinct;
  shown = tree-CanShow.shown;
  zones = tree-CanShow.zones;
  names = tree-CanShow.names;
  named = tree-CanShow.named;
  alone = tree-CanShow.alone;
  summed = record {
    words = record { stat = omega arith; stat_oc = omega arith };
    full = init-IsFull (stats.request_times);
  };
  small = omega arith;
}

site-CanPrint : CanPrint site body body tree stats
site-CanPrint = record {
  whole = init-CanShow;
  shown = Metrics.tree-IsShown;
  word = omega arith;
  plain = plain;
}

page-IsRoomy :
    (uri : ℕ)
    → let r = page_result prometheus request (first_format 14 0 request) uri in
      IsRoomy site tree r.0 (page_text test_nginx site body body zone stats site-CanPrint r.0 r.1)
unfolding inorder get_upstream_nelts count_addrs page_text members_text chosen is_server preorder
    server_member member_text objects_text object_text nodes_of groups_text group_text array_text
    members_of of_servers filters filter_of split is_alone spare json_spare head_bytes buffer_bytes
    first_format format_at set_main joined
page-IsRoomy uri = record {
  entries = omega arith;
  word = omega arith;
  html_page = omega arith;
  fits = omega arith;
}

handler_default_lem_example :
    (uri : ℕ) × (s' : Stats) × (let r =
        page_result prometheus request (first_format 14 0 request) uri in
      handler_default test_nginx site visit zone stats
      ≡ some (
        page r.0 (page_text test_nginx site body body zone stats site-CanPrint r.0 r.1),
        (served r.0 zone, s'),
      ))
handler_default_lem_example =
    handler_default_lem test_nginx site body body zone stats site-CanPrint visit
      (record {
        enable = refl;
        verb = refl;
        discard = refl;
        info = refl;
        buffer = refl;
        nonzero = omega arith;
      })
      page-IsRoomy
