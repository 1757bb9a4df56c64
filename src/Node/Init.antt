-- ===== src/Node/Init.antt =====
-- A node's life: `node_init` at its first request and `node_set` at each later one, of
-- ngx_metric_module/src/ngx_http_vhost_traffic_status_node.c.
use mathlib.Core.Path.{subst}
use metrics_server_example.Base.{
  length-map, ap₂, sym, replicate, ◌%◌, ℕ, ◌-◌, ◌+◌, ◌*◌, ◌≤◌, ◌≡◌, refl, ap, ◌∙◌, Option, none,
  some, List, [], ◌∷◌, ◌++◌, map, arith, All, length, drop,
}
use metrics_server_example.Base.Words.{u64_mod}
use metrics_server_example.TimeQueue
use metrics_server_example.TimeQueue.{NodeTime, zero_time}
use metrics_server_example.TimeQueue.Window.{
  IsFull, init-IsFull, insert-IsFull, contents, insert_all, contents-insert_all, contents-init,
}
use metrics_server_example.Histogram.{bucket_len}
use metrics_server_example.Histogram.Counts.{live, count_le, observe_all, observe_all-counts}
use metrics_server_example.Node.{
  Counters, Node, Request, LocConf, add_rc, count_request, add_oc, zero_counters,
}
use metrics_server_example.Node
use metrics_server_example.Node.Totals.{totals, plus, Below, charge, FitsWord, HasRoom, set-Next}

-- The requests after the first.
unfoldable pub set_all : LocConf → List Request → Node → Option Node
set_all conf [] v = some v
set_all conf (r ∷ rs) v = elim (Node.set conf r v) [ none ↦ none | some v' ↦ set_all conf rs v' ]

-- What the requests bring together.
unfoldable pub charges : List Request → Counters
charges [] = zero_counters
charges (r ∷ rs) = plus (charge r) (charges rs)

-- The exact counts do not go past the overflow counters.
abbrev pub Countable : Counters → Type 0
Countable = Below (u64_mod * (u64_mod - 1))

init-totals :
    (conf : LocConf) (r : Request) (v : Node)
    → FitsWord r
    → (totals (Node.init conf r v) ≡ charge r) × Below u64_mod (Node.init conf r v).stat
unfolding Node.init charge
init-totals conf r v h = (ground arith, ground arith)

node_init-IsFull :
    (conf : LocConf) (r : Request) (v : Node) → IsFull (Node.init conf r v).request_times
unfolding Node.init
node_init-IsFull conf r v = insert-IsFull _ r.now r.ms (init-IsFull v.request_times)

totals-HasRoom :
    (v : Node) (d : Counters) → Below u64_mod v.stat → Countable (plus (totals v) d) → HasRoom v
totals-HasRoom v d h k = record { words = h; spare = omega arith }

plus_assoc : (a b c : Counters) → plus a (plus b c) ≡ plus (plus a b) c
plus_assoc a b c = ground arith

abbrev pub entry : Request → NodeTime
entry r = record { time = r.now; msec = r.ms }

-- What is left after a sequence of requests.
record After (rs : List Request) (v v' : Node) : Type 0 where
  counted : totals v' ≡ plus (totals v) (charges rs)
  times : v'.request_times ≡ insert_all v.request_times (map entry rs)
  buckets : v'.request_buckets ≡ observe_all v.request_buckets (map (λ (r : Request). r.ms) rs)

set_all-After :
    (conf : LocConf) (rs : List Request) (v : Node)
    → IsFull v.request_times
    → Below u64_mod v.stat
    → All FitsWord rs
    → Countable (plus (totals v) (charges rs))
    → (v' : Node) × (set_all conf rs v ≡ some v') × After rs v v'
unfolding set_all charges insert_all observe_all
set_all-After conf [] v full words fits room =
    (v, refl, record { counted = ground arith; times = refl; buckets = refl })
set_all-After conf (r ∷ rs) v full words fits room =
    let (v1, e1, n1) = set-Next conf r v full (totals-HasRoom v _ words room) fits.0 in
    let room' : Countable (plus (totals v1) (charges rs)) =
      subst (λ t. Countable (plus t (charges rs))) (sym n1.counted) (omega arith) in
    let full' : IsFull v1.request_times =
      rw n1.times (insert-IsFull v.request_times r.now r.ms full) in
    let (v2, e2, n2) = set_all-After conf rs v1 full' n1.words fits.1 room' in
    (
      v2,
      rw (e1, set_all) e2,
      record {
        counted =
            n2.counted
            ∙ ap (λ t. plus t (charges rs)) n1.counted
            ∙ sym (plus_assoc (totals v) (charge r) (charges rs));
        times = n2.times ∙ rw n1.times refl;
        buckets = n2.buckets ∙ rw n1.buckets refl;
      },
    )

pub class_total : Counters → ℕ
class_total c = c.counter_1xx + c.counter_2xx + c.counter_3xx + c.counter_4xx + c.counter_5xx

class_total-charges :
    (rs : List Request)
    → (class_total (charges rs) ≡ length rs) × ((charges rs).request_counter ≡ length rs)
unfolding charges charge class_total
class_total-charges [] = (refl, refl)
class_total-charges (r ∷ rs) = ground (arith, class_total-charges rs)

set_all-init-After :
    (conf : LocConf) (r : Request) (rs : List Request) (v : Node)
    → All FitsWord (r ∷ rs)
    → Countable (charges (r ∷ rs))
    → (v' : Node) × (set_all conf rs (Node.init conf r v) ≡ some v')
      × After rs (Node.init conf r v) v'
unfolding charges
set_all-init-After conf r rs v fits room =
    let start = Node.init conf r v in
    let (at_start, words) = init-totals conf r v fits.0 in
    set_all-After conf rs start (node_init-IsFull conf r v) words fits.1
      (subst (λ t. Countable (plus t (charges rs))) (sym at_start) room)

-- A node set up at one request and updated at each of the others has exact counts that are the sums
-- over all the requests, so that its five class counts add up to its request count, the number of
-- requests. The updates all end. What each request brings fits a word, and the sums stay below
-- `2 ^ 64 * (2 ^ 64 - 1)`.
pub set_all-init :
    (conf : LocConf) (r : Request) (rs : List Request) (v : Node)
    → All FitsWord (r ∷ rs)
    → Countable (charges (r ∷ rs))
    → (v' : Node) × (set_all conf rs (Node.init conf r v) ≡ some v')
      × (totals v' ≡ charges (r ∷ rs))
      × (class_total (totals v') ≡ (totals v').request_counter)
      × ((totals v').request_counter ≡ length (r ∷ rs))
unfolding charges
set_all-init conf r rs v fits room =
    let (v', e, a) = set_all-init-After conf r rs v fits room in
    let at_start = (init-totals conf r v fits.0).0 in
    let counted : totals v' ≡ charges (r ∷ rs) =
      a.counted ∙ ap (λ t. plus t (charges rs)) at_start in
    let (classes, requests) = class_total-charges (r ∷ rs) in
    (
      v',
      e,
      counted,
      ap class_total counted
          ∙ classes
          ∙ sym (ap (λ (c : Counters). c.request_counter) counted ∙ requests),
      ap (λ (c : Counters). c.request_counter) counted ∙ requests,
    )

-- A node set up at one request and updated at each of the others has, in its time queue, the last 63 of
-- the requests, oldest first and with zeros where there were fewer. What each request brings fits a
-- word, and the sums stay below `2 ^ 64 * (2 ^ 64 - 1)`.
pub set_all-contents :
    (conf : LocConf) (r : Request) (rs : List Request) (v : Node)
    → All FitsWord (r ∷ rs)
    → Countable (charges (r ∷ rs))
    → (v' : Node) × (set_all conf rs (Node.init conf r v) ≡ some v')
      × (contents v'.request_times
          ≡ drop (length (r ∷ rs)) (replicate 63 zero_time ++ map entry (r ∷ rs)))
unfolding Node.init insert_all
set_all-contents conf r rs v fits room =
    let (v', e, a) = set_all-init-After conf r rs v fits room in
    let fresh = TimeQueue.init v.request_times in
    let all = contents-insert_all (map entry (r ∷ rs)) fresh (init-IsFull v.request_times) in
    (
      v',
      e,
      ap contents a.times
          ∙ all.1
          ∙ ap₂ (λ n w. drop n (w ++ map entry (r ∷ rs))) (length-map entry (r ∷ rs))
              (contents-init v.request_times),
    )

-- A node set up at one request and updated at each of the others has, in its histogram of at most 32
-- bounds, for each bound the number of later requests up to it, as a word: the first request is in no
-- bucket. What each request brings fits a word, and the sums stay below `2 ^ 64 * (2 ^ 64 - 1)`.
pub set_all-buckets :
    (conf : LocConf) (r : Request) (rs : List Request) (v : Node) (bounds : List ℕ)
    → conf.histogram_buckets ≡ some bounds
    → length bounds ≤ bucket_len
    → length v.request_buckets.buckets ≡ bucket_len
    → All FitsWord (r ∷ rs)
    → Countable (charges (r ∷ rs))
    → (v' : Node) × (set_all conf rs (Node.init conf r v) ≡ some v')
      × (live v'.request_buckets
          ≡ map
              (λ m. record {
                msec = m;
                counter = count_le m (map (λ (q : Request). q.ms) rs) % u64_mod;
              })
              bounds)
unfolding Node.init
set_all-buckets conf r rs v bounds e fit places fits room =
    let (v', eq, a) = set_all-init-After conf r rs v fits room in
    (
      v',
      eq,
      rw (a.buckets, e)
          (observe_all-counts bounds v.request_buckets (map (λ (q : Request). q.ms) rs) places fit),
    )
