-- ===== src/Json/Sum.antt =====
-- The sum over the server zones that `display_set_server` of
-- ngx_metric_module/src/ngx_http_vhost_traffic_status_display_json.c keeps in `vtscf->stats`.
use metrics_server_example.Base.{ℕ, ◌+◌, ◌*◌, ◌≡◌, ◌<◌, refl, some, List, [], ◌∷◌, ◌++◌, arith}
use metrics_server_example.Base.Words.{u64_mod, add64}
use metrics_server_example.TimeQueue.Window.{IsFull}
use metrics_server_example.TimeQueue.Merge.{merge-IsFull}
use metrics_server_example.Node.{Counters, Node, oc, add_oc}
use metrics_server_example.Node.Totals.{total, zip_counters, Below, plus, totals}
use metrics_server_example.RbTree.{RbNode}
use metrics_server_example.Json.{Env, Stats, add_counters, add_stats}

-- The counters are words.
pub record Words (c o : Counters) : Type 0 where
  pub stat : Below u64_mod c
  pub stat_oc : Below u64_mod o

-- The sum so far: words, and a full queue.
pub record IsSum (s : Stats) : Type 0 where
  pub words : Words s.stat s.stat_oc
  pub full : IsFull s.request_times

-- The exact counts of a sum.
abbrev pub stats_totals : Stats → Counters
stats_totals s = zip_counters total s.stat s.stat_oc

-- The bound for exact counts: two words.
abbrev pub two_words : ℕ
two_words = u64_mod * u64_mod

total-sum :
    (a ao b bo : ℕ)
    → a < u64_mod
    → ao < u64_mod
    → b < u64_mod
    → bo < u64_mod
    → total a ao + total b bo < two_words
    → (total (add64 a b) (oc a (add64 a b) (add64 ao bo)) ≡ total a ao + total b bo)
      × (oc a (add64 a b) (add64 ao bo) < u64_mod)
unfolding oc
total-sum a ao b bo ha hao hb hbo h = ground arith

-- The sum takes in a node: it ends, stays a sum, and its exact counts grow by those of the node.
pub add_stats-totals :
    (env : Env) (s : Stats) (v : Node)
    → IsSum s
    → Words v.stat v.stat_oc
    → Below two_words (plus (stats_totals s) (totals v))
    → (s' : Stats) × (add_stats env s v ≡ some s')
      × IsSum s'
      × (stats_totals s' ≡ plus (stats_totals s) (totals v))
unfolding add_stats add_counters add_oc
add_stats-totals env s v ok words small =
    let (q, run, full) =
      merge-IsFull s.request_times v.request_times env.now env.average_period ok.full in
    let a = s.stat in
    let ao = s.stat_oc in
    let b = v.stat in
    let bo = v.stat_oc in
    let ha = ok.words.stat in
    let hao = ok.words.stat_oc in
    let hb = words.stat in
    let hbo = words.stat_oc in
    let s0 =
      total-sum a.request_counter ao.request_counter b.request_counter bo.request_counter ha.0 hao.0
        hb.0 hbo.0 small.0 in
    let s1 =
      total-sum a.in_bytes ao.in_bytes b.in_bytes bo.in_bytes ha.1 hao.1 hb.1 hbo.1 small.1 in
    let s2 =
      total-sum a.out_bytes ao.out_bytes b.out_bytes bo.out_bytes ha.2 hao.2 hb.2 hbo.2 small.2 in
    let s3 =
      total-sum a.counter_1xx ao.counter_1xx b.counter_1xx bo.counter_1xx ha.3 hao.3 hb.3 hbo.3
        small.3 in
    let s4 =
      total-sum a.counter_2xx ao.counter_2xx b.counter_2xx bo.counter_2xx ha.4 hao.4 hb.4 hbo.4
        small.4 in
    let s5 =
      total-sum a.counter_3xx ao.counter_3xx b.counter_3xx bo.counter_3xx ha.5 hao.5 hb.5 hbo.5
        small.5 in
    let s6 =
      total-sum a.counter_4xx ao.counter_4xx b.counter_4xx bo.counter_4xx ha.6 hao.6 hb.6 hbo.6
        small.6 in
    let s7 =
      total-sum a.counter_5xx ao.counter_5xx b.counter_5xx bo.counter_5xx ha.7 hao.7 hb.7 hbo.7
        small.7 in
    let s8 =
      total-sum a.request_time_counter ao.request_time_counter b.request_time_counter
        bo.request_time_counter ha.8 hao.8 hb.8 hbo.8 small.8 in
    let s' : Stats = record {
      stat = add_counters a b;
      stat_oc = add_oc a (add_counters a b) (add_counters ao bo);
      request_times = q;
    } in
    (
      s',
      rw (add_stats, run) refl,
      record {
        words = record {
          stat = omega arith;
          stat_oc = (s0.1, s1.1, s2.1, s3.1, s4.1, s5.1, s6.1, s7.1, s8.1);
        };
        full = full;
      },
      λ i. record {
        request_counter = s0.0 i;
        in_bytes = s1.0 i;
        out_bytes = s2.0 i;
        counter_1xx = s3.0 i;
        counter_2xx = s4.0 i;
        counter_3xx = s5.0 i;
        counter_4xx = s6.0 i;
        counter_5xx = s7.0 i;
        request_time_counter = s8.0 i;
      },
    )

-- The exact counts of nodes, added to those that are there.
unfoldable pub sums : List RbNode → Counters → Counters
sums [] a = a
sums (m ∷ ms) a = sums ms (plus a (totals m.vtsn))

pub sums-append : (xs ys : List RbNode) (a : Counters) → sums (xs ++ ys) a ≡ sums ys (sums xs a)
unfolding sums
sums-append [] ys a = refl
sums-append (x ∷ xs) ys a = sums-append xs ys (plus a (totals x.vtsn))

-- What is there is below the sum.
pub Below-sums : (n : ℕ) (ms : List RbNode) (a : Counters) → Below n (sums ms a) → Below n a
unfolding sums
Below-sums n [] a h = h
Below-sums n (m ∷ ms) a h = omega (arith, Below-sums n ms (plus a (totals m.vtsn)) h)
