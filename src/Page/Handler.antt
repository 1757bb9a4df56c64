-- ===== src/Page/Handler.antt =====
-- The handler of the pages: `display_handler` and `display_handler_default` of
-- ngx_metric_module/src/ngx_http_vhost_traffic_status_display.c. How nginx sends an answer is left out.
use metrics_server_example.Base.{
  ℕ, ◌+◌, leb, length, Bool, true, false, Option, none, some, List, [], ◌∷◌, ◌++◌, if◌then◌else◌,
}
use metrics_server_example.Text.{Bytes}
use metrics_server_example.RbTree.{Tree, Nginx}
use metrics_server_example.Zone.{Zone}
use metrics_server_example.Json.{Stats, Value}
use metrics_server_example.Json.Whole.{display_set}
use metrics_server_example.Prometheus
use metrics_server_example.Prometheus.{fmt_start, of_filter, of_upstream}
use metrics_server_example.Prometheus.Whole.{Collector, prometheus_set}
use metrics_server_example.ControlHandler
use metrics_server_example.ControlHandler.{Args}
use metrics_server_example.ControlStatus.{Output, json_spare}
use metrics_server_example.ControlStatus.Handler.{Interface, handler_control}
use metrics_server_example.Page.{
  PageFormat, json, html, jsonp, prometheus, find_format, is_control, Sizes, get_size,
}

-- `r->method`
pub data Verb : Type 0 where
  get head other : Verb

-- The configuration: whether the module is on, the format, the name for JSONP, the sizes, and `ngx_sprintf`
-- of the page in HTML and of `JSON_FMT_CONTROL`, and what the outputs need.
pub record Site : Type 0 where
  pub enable : Bool
  pub format : PageFormat
  pub jsonp : Bytes
  pub sizes : Sizes
  pub html : Bytes → Bytes
  pub fmt_control : List Value → Bytes
  pub output : Output
  pub metrics : Prometheus.Env
  pub collectors : List Collector

-- The request: its method, its text in memory, the status with which the body cannot be discarded, whether
-- it ends with its header, for the method HEAD, and the memory for `shm_info` and the buffer.
pub record Visit : Type 0 where
  pub verb : Verb
  pub memory : Bytes
  pub len : ℕ
  pub discard : Option ℕ
  pub header_only : Bool
  pub info : Bool
  pub buffer : Bool

-- What the request is answered with.
pub data Answer : Type 0 where
  not_implemented not_allowed server_error header : Answer
  status : ℕ → Answer
  page : PageFormat → Bytes → Answer

-- A text where nothing was printed.
abbrev pub or_text : Bytes → Bytes → Bytes
or_text [] text = text
or_text (b ∷ bs) text = b ∷ bs

-- A text in brackets behind a name.
abbrev pub in_brackets : Bytes → Bytes → Bytes
in_brackets name text = name ++ b'(' ∷ (text ++ b')' ∷ [])

-- The page of a format, under the mutex but for HTML. The output for JSONP stands behind the name and a
-- bracket, which no function of the output reads.
unfoldable pub print_page :
    Nginx → Site → PageFormat → Bytes → Zone → Stats → Option (Bytes × (Zone × Stats))
unfolding display_set prometheus_set
print_page ngx site f uri z s =
    let o = site.output in
    let unlocked : Tree → Zone = λ t. record z { tree = t; locked = false } in
    let set : (Bytes → Bytes) → Option (Bytes × (Zone × Stats)) = λ around.
      elim (display_set ngx o.env o.main o.conf o.pool o.sort o.memory o.upstreams (z.tree, s)) [
        | none ↦ none
        | some (t, (buf, s')) ↦ some (around buf, (unlocked t, s'))
      ] in
    elim f [
      | json ↦ set (λ buf. or_text buf (b'{' ∷ b'}' ∷ []))
      | jsonp ↦ set (in_brackets site.jsonp)
      | prometheus ↦ elim (prometheus_set site.metrics o.main site.collectors (z.tree, s)) [
        | none ↦ none
        | some (t, (buf, s')) ↦ some (or_text buf (b'#' ∷ []), (unlocked t, s'))
      ]
      | html ↦ some (site.html uri, (z, s))
    ]

-- At least the bytes that a page takes back again while it is written.
unfoldable pub spare : Site → PageFormat → ℕ
unfolding json_spare
spare site f = elim f [
  | json ↦ json_spare site.output
  | jsonp ↦ json_spare site.output
  | prometheus ↦
      length (site.metrics.sprintf (fmt_start of_filter) [])
      + length (site.metrics.sprintf (fmt_start of_upstream) [])
  | html ↦ 0
]

-- `display_handler_default` behind its first two tests. The page is written into a buffer of the size of
-- `get_size`, without a look at its end: `none` where the page, with what it may take back, is longer.
unfoldable pub show_page : Nginx → Site → Visit → Zone → Stats → Option (Answer × (Zone × Stats))
unfolding find_format get_size print_page spare
show_page ngx site v z s =
    let o = site.output in
    elim (find_format site.format v.memory v.len) [
      | none ↦ none
      | some (f, uri) ↦ elim v.discard [
        | some rc ↦ some (status rc, (z, s))
        | none ↦
            if elim v.verb [ head ↦ v.header_only | _ ↦ false ]
            then some (header, (z, s))
            else elim (get_size site.sizes o.conf v.info o.upstreams z.tree f) [
              | none ↦ some (server_error, (z, s))
              | some size ↦ elim v.buffer [
                | false ↦ some (server_error, (z, s))
                | true ↦ elim (print_page ngx site f uri z s) [
                  | none ↦ none
                  | some (text, st) ↦ elim (leb (length text + spare site f) size) [
                    | false ↦ none
                    | true ↦ some (page f text, st)
                  ]
                ]
              ]
            ]
      ]
    ]

-- The tests of the configuration and of the method, which `display_handler` and
-- `display_handler_default` share.
unfoldable pub refuses : Site → Visit → Option Answer
refuses site v =
    if site.enable
    then elim v.verb [ other ↦ some not_allowed | _ ↦ none ]
    else some not_implemented

-- `display_handler_default`
unfoldable pub handler_default :
    Nginx → Site → Visit → Zone → Stats → Option (Answer × (Zone × Stats))
unfolding refuses show_page
handler_default ngx site v z s = elim (refuses site v) [
  | some a ↦ some (a, (z, s))
  | none ↦ show_page ngx site v z s
]

-- What the control interface works on.
abbrev pub interface_of : Site → Interface
interface_of site = record {
  output = site.output;
  sizes = site.sizes;
  fmt_control = site.fmt_control;
}

-- An answer of the control interface or of a page.
pub data Handled : Type 0 where
  by_control : ControlHandler.Answer → Handled
  by_page : Answer → Handled

-- `display_handler`
unfoldable pub display_handler :
    Nginx
    → Site
    → ControlHandler.Memory
    → Args
    → Visit
    → Zone
    → Stats
    → Option (Handled × (Zone × Stats))
unfolding refuses is_control handler_control handler_default
display_handler ngx site mem a v z s = elim (refuses site v) [
  | some refused ↦ some (by_page refused, (z, s))
  | none ↦ elim (is_control v.memory v.len) [
    | none ↦ none
    | some true ↦ elim (handler_control ngx (interface_of site) mem a z s) [
      | none ↦ none
      | some (answer, st) ↦ some (by_control answer, st)
    ]
    | some false ↦ elim (handler_default ngx site v z s) [
      | none ↦ none
      | some (answer, st) ↦ some (by_page answer, st)
    ]
  ]
]
