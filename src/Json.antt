-- ===== src/Json.antt =====
-- The output of the statistics, here its server zones and what all its parts share:
-- ngx_metric_module/src/ngx_http_vhost_traffic_status_display_json.c, in the build without statistics of
-- caches. `ngx_sprintf` is a parameter, which gets the name of a format of
-- ngx_http_vhost_traffic_status_display_json.h and the values that are printed. C leaves the order
-- open in which the arguments of a call are evaluated: here the average, which may start a queue anew,
-- comes before the texts of the queue. `none` is behaviour that C leaves undefined, or a loop that
-- does not end.
pub mod Line
pub mod Sum
pub mod Servers
pub mod Upstream
pub mod UpstreamGroup
pub mod Filters
pub mod Whole
use metrics_server_example.Base.{
  ℕ, Bool, true, false, Option, none, some, List, [], ◌∷◌, ◌++◌, ◌-◌, ◌==◌, if◌then◌else◌, map,
  length, take,
}
use metrics_server_example.Base.Words.{add64}
use metrics_server_example.Text.{Bytes, Status, ok, error, Str, escape_json_pool}
use metrics_server_example.Group.{upstream_no, upstream_ua, c_string}
use metrics_server_example.Key.{position_key}
use metrics_server_example.TimeQueue
use metrics_server_example.TimeQueue.{NodeTime, TimeQueue, Method, average, merge}
use metrics_server_example.Histogram.{Bucket, Histogram}
use metrics_server_example.Node.{Counters, zero_counters, Node, add_oc}
use metrics_server_example.RbTree.{RbNode, Tree, sentinel, fork, name}
use metrics_server_example.Display.{get_time_queue, get_histogram_bucket}

-- `NGX_HTTP_VHOST_TRAFFIC_STATUS_JSON_FMT_MAIN`, `_SERVER`, `_UPSTREAM`, `_ARRAY_S` and `_OBJECT_S`.
pub data Format : Type 0 where
  fmt_main fmt_server fmt_upstream fmt_array fmt_object : Format

-- What `ngx_sprintf` prints: a number, or a text (`%V`, or `%s` up to its zero).
pub data Value : Type 0 where
  number : ℕ → Value
  text : Bytes → Value

-- Whether the request's pool gives memory for the four texts of a queue and a histogram.
pub record Memory : Type 0 where
  pub times : Bool
  pub msecs : Bool
  pub bucket_msecs : Bool
  pub bucket_counters : Bool

-- What the output depends on: `ngx_sprintf` and its printing of a number, the configuration, the clock,
-- and the memory: for the texts of the node at an address and those of its response times, for the
-- escaped copy of a text, and for the key of a text.
pub record Env : Type 0 where
  pub sprintf : Format → List Value → Bytes
  pub print : ℕ → Bytes
  pub average_method : Method
  pub average_period : ℕ
  pub now : ℕ
  pub memory : ℕ → Memory
  pub response_memory : ℕ → Memory
  pub escape_memory : Bytes → Bool
  pub key_memory : Bytes → Bool

-- `ngx_http_vhost_traffic_status_max_integer`
abbrev pub max_integer : Bytes
max_integer =
    b'1' ∷ b'8' ∷ b'4' ∷ b'4' ∷ b'6' ∷ b'7' ∷ b'4' ∷ b'4' ∷ b'0' ∷ b'7' ∷ b'3' ∷ b'7' ∷ b'0' ∷ b'9'
    ∷ b'5' ∷ b'5' ∷ b'1' ∷ b'6' ∷ b'1' ∷ b'5' ∷ []

-- The counters in the order of the formats.
unfoldable pub counter_values : Counters → List Value
counter_values c = map number (
    c.request_counter ∷ c.in_bytes ∷ c.out_bytes ∷ c.counter_1xx ∷ c.counter_2xx ∷ c.counter_3xx
    ∷ c.counter_4xx ∷ c.counter_5xx ∷ c.request_time_counter ∷ [])

-- A text that `%s` prints.
unfoldable pub printed_text : Option Bytes → Option Value
unfolding c_string
printed_text none = none
printed_text (some m) = some (text (c_string m))

-- Arguments one after the other.
unfoldable pub all_values : List (Option Value) → Option (List Value)
all_values [] = some []
all_values (none ∷ vs) = none
all_values (some v ∷ vs) = elim (all_values vs) [ none ↦ none | some us ↦ some (v ∷ us) ]

-- The average of a queue, and the texts of the queue that it leaves and of a histogram.
unfoldable pub time_values : Env → Memory → TimeQueue → Histogram → Option (List Value × TimeQueue)
unfolding average printed_text all_values get_time_queue get_histogram_bucket
time_values env mem q b = elim (average q env.average_method env.now env.average_period) [
  | none ↦ none
  | some (avg, q') ↦
      let texts = all_values (
        printed_text (get_time_queue env.print mem.times q' (λ (e : NodeTime). e.time))
        ∷ printed_text (get_time_queue env.print mem.msecs q' (λ (e : NodeTime). e.msec))
        ∷ printed_text (get_histogram_bucket env.print mem.bucket_msecs b (λ (c : Bucket). c.msec))
        ∷ printed_text
            (get_histogram_bucket env.print mem.bucket_counters b (λ (c : Bucket). c.counter))
        ∷ []) in
      elim texts [ none ↦ none | some vs ↦ some (number avg ∷ vs, q') ]
]

-- `display_set_server_node`: what it prints, and the node with the queue that the average leaves. The
-- escaped name `dst` is made but not printed in this build.
unfoldable pub set_server_node : Env → Memory → Bytes → Node → Option (Bytes × Node)
unfolding time_values counter_values
set_server_node env mem key v = elim (time_values env mem v.request_times v.request_buckets) [
  | none ↦ none
  | some (vs, q) ↦ some (
    env.sprintf fmt_server
        (text key ∷ (counter_values v.stat ++ vs ++ text max_integer ∷ counter_values v.stat_oc)),
    record v { request_times = q },
  )
]

-- `vtscf->stats`, the fields that are used.
pub record Stats : Type 0 where
  pub stat : Counters
  pub stat_oc : Counters
  pub request_times : TimeQueue

-- The sums of the counters, as 64-bit words.
unfoldable pub add_counters : Counters → Counters → Counters
add_counters a b = record {
  request_counter = add64 a.request_counter b.request_counter;
  in_bytes = add64 a.in_bytes b.in_bytes;
  out_bytes = add64 a.out_bytes b.out_bytes;
  counter_1xx = add64 a.counter_1xx b.counter_1xx;
  counter_2xx = add64 a.counter_2xx b.counter_2xx;
  counter_3xx = add64 a.counter_3xx b.counter_3xx;
  counter_4xx = add64 a.counter_4xx b.counter_4xx;
  counter_5xx = add64 a.counter_5xx b.counter_5xx;
  request_time_counter = add64 a.request_time_counter b.request_time_counter;
}

-- `calculates the sum` of `display_set_server`, with `add_oc` after it.
unfoldable pub add_stats : Env → Stats → Node → Option Stats
unfolding merge add_counters add_oc
add_stats env s v = elim (merge s.request_times v.request_times env.now env.average_period) [
  | none ↦ none
  | some q ↦
      let stat = add_counters s.stat v.stat in
      some (record {
        stat = stat;
        stat_oc = add_oc s.stat stat (add_counters s.stat_oc v.stat_oc);
        request_times = q;
      })
]

-- What `display_set_server` does at one node.
unfoldable pub set_server_at : Env → RbNode → Bytes × Stats → Option (RbNode × (Bytes × Stats))
unfolding set_server_node add_stats
set_server_at env m st =
    if m.vtsn.upstream.type == upstream_no
    then elim (set_server_node env (env.memory m.addr) (name m) m.vtsn) [
      | none ↦ none
      | some (line, v) ↦ elim (add_stats env st.1 v) [
        | none ↦ none
        | some s ↦ some (record m { vtsn = v }, (st.0 ++ line, s))
      ]
    ]
    else some (m, st)

-- `display_set_server`
unfoldable pub set_server : Env → Tree → Bytes × Stats → Option (Tree × (Bytes × Stats))
unfolding set_server_at
set_server env sentinel st = some (sentinel, st)
set_server env (fork l m r) st = elim (set_server_at env m st) [
  | none ↦ none
  | some (m', st1) ↦ elim (set_server env l st1) [
    | none ↦ none
    | some (l', st2) ↦ elim (set_server env r st2) [
      | none ↦ none
      | some (r', st3) ↦ some (fork l' m' r', st3)
    ]
  ]
]

-- The start of `vtscf->stats`: `ngx_memzero` and `node_time_queue_init`.
unfoldable pub init_stats : Stats → Stats
unfolding TimeQueue.init
init_stats s = record {
  stat = zero_counters;
  stat_oc = zero_counters;
  request_times = TimeQueue.init s.request_times;
}

-- The end of a part of the output that began at `o` and whose entries began at `s`: nothing of it stays
-- where there are no entries; else the last byte, a comma, gives way to the end.
unfoldable pub closed : Bytes → Bytes → Bytes → Bytes → Bytes
closed o s buf end = if length s == length buf then o else take (length buf - 1) buf ++ end
