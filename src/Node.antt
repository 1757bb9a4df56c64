-- ===== src/Node.antt =====
-- The statistics of one node: ngx_http_vhost_traffic_status_node_t of
-- ngx_metric_module/src/ngx_http_vhost_traffic_status_node.h, the functions `node_zero`, `node_init`
-- and `node_set` of ngx_http_vhost_traffic_status_node.c, and the macros `add_rc` and
-- `add_oc` of ngx_http_vhost_traffic_status_module.h, in the build that the header fixes,
-- CACHE_STATS 0. The nine counters and their overflow counters are two records of one type.
pub mod Totals
pub mod Init
pub mod Member
use metrics_server_example.Base.{
  ℕ, ◌+◌, ◌%◌, ◌&&◌, Bool, true, false, Option, none, some, List, [], ltb, ◌==◌, if◌then◌else◌,
  length, take,
}
use metrics_server_example.Base.Words.{u64_mod, add64}
use metrics_server_example.Text.{Bytes}
use metrics_server_example.Group.{upstream_no, c_string}
use metrics_server_example.TimeQueue
use metrics_server_example.TimeQueue.{TimeQueue, Method, average}
use metrics_server_example.Histogram
use metrics_server_example.Histogram.{Histogram, observe}

-- `stat_request_counter` to `stat_request_time_counter`, or their `_oc` companions.
pub record Counters : Type 0 where
  pub request_counter : ℕ
  pub in_bytes : ℕ
  pub out_bytes : ℕ
  pub counter_1xx : ℕ
  pub counter_2xx : ℕ
  pub counter_3xx : ℕ
  pub counter_4xx : ℕ
  pub counter_5xx : ℕ
  pub request_time_counter : ℕ

abbrev pub zero_counters : Counters
zero_counters = record {
  request_counter = 0;
  in_bytes = 0;
  out_bytes = 0;
  counter_1xx = 0;
  counter_2xx = 0;
  counter_3xx = 0;
  counter_4xx = 0;
  counter_5xx = 0;
  request_time_counter = 0;
}

-- `node_upstream_t`
pub record Upstream : Type 0 where
  pub type : ℕ
  pub response_time_counter : ℕ
  pub response_time : ℕ
  pub response_times : TimeQueue
  pub response_buckets : Histogram

-- `node_t`. `name` is the memory behind `data`, of which the first `len` bytes count.
pub record Node : Type 0 where
  pub stat : Counters
  pub request_time : ℕ
  pub request_times : TimeQueue
  pub request_buckets : Histogram
  pub stat_oc : Counters
  pub response_time_counter_oc : ℕ
  pub upstream : Upstream
  pub len : ℕ
  pub name : Bytes

-- What `node_init` and `node_set` read of a request and of the clock: the response status, the bytes
-- received and sent, the milliseconds that `request_time` gives, and `current_msec`.
pub record Request : Type 0 where
  pub status : ℕ
  pub request_length : ℕ
  pub sent : ℕ
  pub ms : ℕ
  pub now : ℕ

-- The fields of the location's configuration that these functions read.
pub record LocConf : Type 0 where
  pub average_method : Method
  pub average_period : ℕ
  pub histogram_buckets : Option (List ℕ)

-- `ngx_http_vhost_traffic_status_add_rc`
unfoldable pub add_rc : ℕ → Counters → Counters
add_rc s n =
    if ltb s 200
    then record n { counter_1xx = add64 n.counter_1xx 1 }
    else (if ltb s 300
        then record n { counter_2xx = add64 n.counter_2xx 1 }
        else (if ltb s 400
            then record n { counter_3xx = add64 n.counter_3xx 1 }
            else (if ltb s 500
                then record n { counter_4xx = add64 n.counter_4xx 1 }
                else record n { counter_5xx = add64 n.counter_5xx 1 })))

-- One test of `add_oc`: a counter that fell has wrapped.
unfoldable pub oc : ℕ → ℕ → ℕ → ℕ
oc old new c = if ltb new old then add64 c 1 else c

-- `ngx_http_vhost_traffic_status_add_oc`: the old and the new counters, and the overflow counters.
unfoldable pub add_oc : Counters → Counters → Counters → Counters
unfolding oc
add_oc o c n = record {
  request_counter = oc o.request_counter c.request_counter n.request_counter;
  in_bytes = oc o.in_bytes c.in_bytes n.in_bytes;
  out_bytes = oc o.out_bytes c.out_bytes n.out_bytes;
  counter_1xx = oc o.counter_1xx c.counter_1xx n.counter_1xx;
  counter_2xx = oc o.counter_2xx c.counter_2xx n.counter_2xx;
  counter_3xx = oc o.counter_3xx c.counter_3xx n.counter_3xx;
  counter_4xx = oc o.counter_4xx c.counter_4xx n.counter_4xx;
  counter_5xx = oc o.counter_5xx c.counter_5xx n.counter_5xx;
  request_time_counter = oc o.request_time_counter c.request_time_counter n.request_time_counter;
}

-- `node_zero`
unfoldable pub zero : Node → Node
zero v = record v {
  stat = zero_counters;
  request_time = 0;
  stat_oc = zero_counters;
  response_time_counter_oc = 0;
}

-- `node_init`: `v` is the memory that the slab allocator gave, of any content.
unfoldable pub init : LocConf → Request → Node → Node
unfolding zero add_rc
init conf r v =
    let z = zero v in
    let u : Upstream = record {
      type = upstream_no;
      response_time_counter = 0;
      response_time = 0;
      response_times = TimeQueue.init v.upstream.response_times;
      response_buckets = Histogram.init conf.histogram_buckets v.upstream.response_buckets;
    } in
    record z {
      stat =
          record (add_rc r.status (record z.stat {
            request_counter = 1;
            in_bytes = r.request_length;
            out_bytes = r.sent;
          })) { request_time_counter = r.ms };
      request_time = r.ms;
      request_times = TimeQueue.insert (TimeQueue.init v.request_times) r.now r.ms;
      request_buckets = Histogram.init conf.histogram_buckets v.request_buckets;
      upstream = u;
    }

-- The counters of `node_set` before `add_oc`.
unfoldable pub count_request : Request → Counters → Counters
unfolding add_rc
count_request r c =
    let d = add_rc r.status (record c {
      request_counter = add64 c.request_counter 1;
      in_bytes = add64 c.in_bytes r.request_length;
      out_bytes = add64 c.out_bytes r.sent;
    }) in
    record d { request_time_counter = add64 d.request_time_counter r.ms }

-- `node_set`; `none` would mean that the loop of the average does not end.
unfoldable pub set : LocConf → Request → Node → Option Node
unfolding count_request add_oc
set conf r v =
    let stat = count_request r v.stat in
    let times = TimeQueue.insert v.request_times r.now r.ms in
    elim (average times conf.average_method r.now conf.average_period) [
      | none ↦ none
      | some (avg, times') ↦ some (record v {
        stat = stat;
        request_time = avg;
        request_times = times';
        request_buckets = observe v.request_buckets r.ms;
        stat_oc = add_oc v.stat stat v.stat_oc;
      })
    ]
