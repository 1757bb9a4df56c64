-- ===== src/Node/Totals.antt =====
-- The counters with their overflow counters as exact numbers: `node_set` of
-- ngx_metric_module/src/ngx_http_vhost_traffic_status_node.c and the macros `add_rc` and `add_oc`.
use metrics_server_example.Base.{ℕ, ◌-◌, ◌+◌, ◌*◌, ◌<◌, ◌≡◌, refl, some, arith, ltb, if◌then◌else◌}
use metrics_server_example.Base.Words.{u64_mod, add64}
use metrics_server_example.TimeQueue.{insert}
use metrics_server_example.TimeQueue.Window.{IsFull, insert-IsFull}
use metrics_server_example.TimeQueue.Average.{average-some}
use metrics_server_example.Histogram.{observe}
use metrics_server_example.Node.{
  Counters, Node, Request, LocConf, add_rc, oc, add_oc, count_request,
}
use metrics_server_example.Node

-- The number that a counter and its overflow counter stand for.
abbrev pub total : ℕ → ℕ → ℕ
total c o = o * u64_mod + c

abbrev pub zip_counters : (ℕ → ℕ → ℕ) → Counters → Counters → Counters
zip_counters f a b = record {
  request_counter = f a.request_counter b.request_counter;
  in_bytes = f a.in_bytes b.in_bytes;
  out_bytes = f a.out_bytes b.out_bytes;
  counter_1xx = f a.counter_1xx b.counter_1xx;
  counter_2xx = f a.counter_2xx b.counter_2xx;
  counter_3xx = f a.counter_3xx b.counter_3xx;
  counter_4xx = f a.counter_4xx b.counter_4xx;
  counter_5xx = f a.counter_5xx b.counter_5xx;
  request_time_counter = f a.request_time_counter b.request_time_counter;
}

-- Every counter is below `m`.
abbrev pub Below : ℕ → Counters → Type 0
Below m a =
    (a.request_counter < m)
    × (a.in_bytes < m)
    × (a.out_bytes < m)
    × (a.counter_1xx < m)
    × (a.counter_2xx < m)
    × (a.counter_3xx < m)
    × (a.counter_4xx < m)
    × (a.counter_5xx < m)
    × (a.request_time_counter < m)

abbrev pub plus : Counters → Counters → Counters
plus = zip_counters ◌+◌

-- The exact counts of a node.
abbrev pub totals : Node → Counters
totals v = zip_counters total v.stat v.stat_oc

-- 1 where the status is at least `lo` and below `hi`.
abbrev class : ℕ → ℕ → ℕ → ℕ
class s lo hi = if ltb s lo then 0 else (if ltb s hi then 1 else 0)

-- What one request brings to each counter.
unfoldable pub charge : Request → Counters
charge r = record {
  request_counter = 1;
  in_bytes = r.request_length;
  out_bytes = r.sent;
  counter_1xx = class r.status 0 200;
  counter_2xx = class r.status 200 300;
  counter_3xx = class r.status 300 400;
  counter_4xx = class r.status 400 500;
  counter_5xx = if ltb r.status 500 then 0 else 1;
  request_time_counter = r.ms;
}

total-oc :
    (c o d : ℕ)
    → c < u64_mod
    → d < u64_mod
    → o + 1 < u64_mod
    → total (add64 c d) (oc c (add64 c d) o) ≡ total c o + d
unfolding oc
total-oc c o d hc hd ho = ground arith

total-oc_same : (c o : ℕ) → total c (oc c c o) ≡ total c o + 0
unfolding oc
total-oc_same c o = ground arith

-- The words of a node, with room for one more overflow of each counter.
pub record HasRoom (v : Node) : Type 0 where
  pub words : Below u64_mod v.stat
  pub spare : Below (u64_mod - 1) v.stat_oc

count_request-Below :
    (r : Request) (c : Counters) → Below u64_mod c → Below u64_mod (count_request r c)
unfolding count_request
count_request-Below r c h = ground arith

-- What a request adds fits a word.
abbrev pub FitsWord : Request → Type 0
FitsWord r = (r.request_length < u64_mod) × (r.sent < u64_mod) × (r.ms < u64_mod)

-- Each counter is moved by what the request brings.
count_request-add64 :
    (r : Request) (c : Counters)
    → Below u64_mod c
    → count_request r c ≡ zip_counters add64 c (charge r)
unfolding count_request charge
count_request-add64 r c h = ground arith

charge-Below : (r : Request) → FitsWord r → Below u64_mod (charge r)
unfolding charge
charge-Below r h = ground arith

add_oc-totals :
    (c d o : Counters)
    → Below u64_mod c
    → Below u64_mod d
    → Below (u64_mod - 1) o
    → zip_counters total (zip_counters add64 c d) (add_oc c (zip_counters add64 c d) o)
      ≡ plus (zip_counters total c o) d
unfolding add_oc
add_oc-totals c d o hc hd ho = λ i. record {
  request_counter =
      total-oc c.request_counter o.request_counter d.request_counter hc.0 hd.0 (omega arith) i;
  in_bytes = total-oc c.in_bytes o.in_bytes d.in_bytes hc.1 hd.1 (omega arith) i;
  out_bytes = total-oc c.out_bytes o.out_bytes d.out_bytes hc.2 hd.2 (omega arith) i;
  counter_1xx = total-oc c.counter_1xx o.counter_1xx d.counter_1xx hc.3 hd.3 (omega arith) i;
  counter_2xx = total-oc c.counter_2xx o.counter_2xx d.counter_2xx hc.4 hd.4 (omega arith) i;
  counter_3xx = total-oc c.counter_3xx o.counter_3xx d.counter_3xx hc.5 hd.5 (omega arith) i;
  counter_4xx = total-oc c.counter_4xx o.counter_4xx d.counter_4xx hc.6 hd.6 (omega arith) i;
  counter_5xx = total-oc c.counter_5xx o.counter_5xx d.counter_5xx hc.7 hd.7 (omega arith) i;
  request_time_counter =
      total-oc c.request_time_counter o.request_time_counter d.request_time_counter hc.8 hd.8
        (omega arith) i;
}

pub count_request-totals :
    (r : Request) (c o : Counters)
    → Below u64_mod c
    → Below (u64_mod - 1) o
    → FitsWord r
    → zip_counters total (count_request r c) (add_oc c (count_request r c) o)
      ≡ plus (zip_counters total c o) (charge r)
count_request-totals r c o hc ho fits =
    rw (count_request-add64 r c hc) (add_oc-totals c (charge r) o hc (charge-Below r fits) ho)

-- All that a later step needs of the node that `node_set` leaves.
pub record Next (r : Request) (v v' : Node) : Type 0 where
  pub counted : totals v' ≡ plus (totals v) (charge r)
  pub words : Below u64_mod v'.stat
  pub times : v'.request_times ≡ insert v.request_times r.now r.ms
  pub buckets : v'.request_buckets ≡ observe v.request_buckets r.ms

pub set-Next :
    (conf : LocConf) (r : Request) (v : Node)
    → IsFull v.request_times
    → HasRoom v
    → FitsWord r
    → (v' : Node) × (Node.set conf r v ≡ some v') × Next r v v'
unfolding Node.set
set-Next conf r v full room fits =
    let times = insert v.request_times r.now r.ms in
    let full' = insert-IsFull v.request_times r.now r.ms full in
    let avg = average-some times conf.average_method r.now conf.average_period full' in
    let stat = count_request r v.stat in
    let v' : Node = record v {
      stat = stat;
      request_time = avg.0;
      request_times = times;
      request_buckets = observe v.request_buckets r.ms;
      stat_oc = add_oc v.stat stat v.stat_oc;
    } in
    (
      v',
      rw (avg.1, Node.set),
      record {
        counted = count_request-totals r v.stat v.stat_oc room.words room.spare fits;
        words = count_request-Below r v.stat room.words;
        times = refl;
        buckets = refl;
      },
    )

-- `node_set` ends, and adds to the exact counts (each counter with its overflow counter) what the
-- request brings: one request, its bytes, its time, and one in the class of its status. The time
-- queue stays full. The node's counters are words, none of its overflow counters is at the last
-- value, and what the request brings fits a word.
pub set-totals :
    (conf : LocConf) (r : Request) (v : Node)
    → IsFull v.request_times
    → HasRoom v
    → FitsWord r
    → (v' : Node) × (Node.set conf r v ≡ some v')
      × (totals v' ≡ plus (totals v) (charge r))
      × IsFull v'.request_times
set-totals conf r v full room fits =
    let (v', e, n) = set-Next conf r v full room fits in
    (v', e, n.counted, rw n.times (insert-IsFull v.request_times r.now r.ms full))
