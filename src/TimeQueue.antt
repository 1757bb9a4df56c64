-- ===== src/TimeQueue.antt =====
-- The queue of request times of a node: ngx_metric_module/src/ngx_http_vhost_traffic_status_node.c
-- (`node_time_queue_*`) and its types in ngx_http_vhost_traffic_status_node.h. The clock
-- (`current_msec`) is the argument `now`. Times in milliseconds are never negative, see `Clock`.
pub mod Window
pub mod Average
pub mod Merge
use metrics_server_example.Base.{
  ℕ, zero, suc, ◌+◌, ◌-◌, ◌*◌, ◌/◌, ◌%◌, ◌^◌, Bool, true, false, Option, none, some, List, [], ltb,
  ◌==◌, if◌then◌else◌, get_or, set, replicate,
}
use metrics_server_example.Base.Words.{u64_mod, add64, sub64}
use metrics_server_example.Text.{Status, ok, error}

-- `NGX_HTTP_VHOST_TRAFFIC_STATUS_DEFAULT_QUEUE_LEN`
abbrev pub queue_len : ℕ
queue_len = 64

-- `node_time_t`: when a request ended, and how long it took.
pub record NodeTime : Type 0 where
  pub time : ℕ
  pub msec : ℕ

abbrev pub zero_time : NodeTime
zero_time = record { time = 0; msec = 0 }

-- `node_time_queue_t`: the live entries stand from `front` up to and without `rear`, going round.
pub record TimeQueue : Type 0 where
  pub times : List NodeTime
  pub front : ℕ
  pub rear : ℕ
  pub len : ℕ

-- `node_time_queue_zero`: what was there is overwritten.
unfoldable pub clear : TimeQueue → TimeQueue
clear q = record { times = replicate queue_len zero_time; front = 0; rear = 0; len = 0 }

unfoldable pub init : TimeQueue → TimeQueue
unfolding clear
init q = record (clear q) { rear = queue_len - 1; len = queue_len }

unfoldable pub push : TimeQueue → ℕ → ℕ → Status × TimeQueue
push q now x = if (q.rear + 1) % q.len == q.front then (error, q) else (
  ok,
  record q {
    times = set q.times q.rear (record { time = now; msec = x });
    rear = (q.rear + 1) % q.len;
  },
)

-- The option is what goes through `x`.
unfoldable pub pop : TimeQueue → Status × Option NodeTime × TimeQueue
pop q =
    if q.front == q.rear
    then (error, none, q)
    else (ok, some (get_or q.times q.front zero_time), record q { front = (q.front + 1) % q.len })

-- `node_time_queue_rear`: where the newest entry stands.
unfoldable pub rear_index : TimeQueue → ℕ
rear_index q = if ltb 0 q.rear then q.rear - 1 else queue_len - 1

-- `|` on two return codes is `NGX_OK` only where both are.
abbrev pub or_status : Status → Status → Status
or_status ok rc = rc
or_status error rc = error

abbrev reset_unless_ok : Status → TimeQueue → TimeQueue
reset_unless_ok ok q = q
reset_unless_ok error q = init q

-- `node_time_queue_insert` with the operands of `|` read from left to right.
unfoldable pub insert : TimeQueue → ℕ → ℕ → TimeQueue
unfolding push pop init
insert q now x =
    let (popped, rx, q1) = pop q in
    let (pushed, q2) = push q1 now x in reset_unless_ok (or_status popped pushed) q2

-- `node_time_queue_insert` with the operands of `|` read from right to left, which C allows.
unfoldable pub insert_push_first : TimeQueue → ℕ → ℕ → TimeQueue
unfolding push pop init
insert_push_first q now x =
    let (pushed, q1) = push q now x in
    let (popped, rx, q2) = pop q1 in reset_unless_ok (or_status popped pushed) q2

-- `x = period ? (current_msec - period) : 0`: only entries after this moment count.
unfoldable pub since : ℕ → ℕ → ℕ
since now period = if period == 0 then 0 else sub64 now period

-- The sums below are made in `ngx_int_t`, here the words of two's complement. A sum of `2 ^ 63` or more
-- is one that C leaves undefined: the theorems that give a mean exclude it.

-- The quotient of such a word by a positive number, which is rounded towards zero.
unfoldable pub signed_div : ℕ → ℕ → ℕ
signed_div k d = if ltb k (2 ^ 63) then k / d else (u64_mod - (u64_mod - k) / d) % u64_mod

-- `k / 2 + k % 2` of such a word.
unfoldable pub half_up : ℕ → ℕ
half_up k =
    if ltb k (2 ^ 63)
    then k / 2 + k % 2
    else (u64_mod - ((u64_mod - k) / 2 + (u64_mod - k) % 2)) % u64_mod

-- The loop of `amm`, on fuel: `none` if it runs out. It gives the last `j` and `k`.
unfoldable pub amm_loop : ℕ → TimeQueue → ℕ → ℕ → ℕ → ℕ → Option (ℕ × ℕ)
amm_loop zero q x i j k = none
amm_loop (suc f) q x i j k =
    let entry = get_or q.times i zero_time in
    let rest =
      amm_loop f q x ((i + 1) % q.len) (j + 1)
        (if ltb x entry.time then add64 k entry.msec else k) in
    if i == q.rear then some (j, k) else rest

-- The loop of `wma`: a later entry weighs more.
unfoldable pub wma_loop : ℕ → TimeQueue → ℕ → ℕ → ℕ → ℕ → Option (ℕ × ℕ)
wma_loop zero q x i j k = none
wma_loop (suc f) q x i j k =
    let entry = get_or q.times i zero_time in
    let rest =
      wma_loop f q x ((i + 1) % q.len) (j + 1)
        (if ltb x entry.time then add64 k (entry.msec * j) else k) in
    if i == q.rear then some (j, k) else rest

-- `ngx_http_vhost_traffic_status_triangle`
unfoldable pub triangle : ℕ → ℕ
triangle n = (n * (n + 1) / 2) % 2 ^ 32

-- A queue that did not hold `len - 1` entries starts anew.
abbrev pub reset_unless_full : ℕ → TimeQueue → TimeQueue
reset_unless_full j q = if j == q.len then q else init q

unfoldable pub amm : TimeQueue → ℕ → ℕ → Option (ℕ × TimeQueue)
unfolding init since signed_div
amm q now period = elim (amm_loop (suc q.len) q (since now period) q.front 1 0) [
  | none ↦ none
  | some (j, k) ↦ let q' = reset_unless_full j q in some (signed_div k (q'.len - 1), q')
]

unfoldable pub wma : TimeQueue → ℕ → ℕ → Option (ℕ × TimeQueue)
unfolding init since triangle signed_div
wma q now period = elim (wma_loop (suc q.len) q (since now period) q.front 1 0) [
  | none ↦ none
  | some (j, k) ↦ let q' = reset_unless_full j q in some (signed_div k (triangle (q'.len - 1)), q')
]

-- `NGX_HTTP_VHOST_TRAFFIC_STATUS_AVERAGE_METHOD_AMM` and `_WMA`.
pub data Method : Type 0 where
  arithmetic weighted : Method

-- `node_time_queue_average`
unfoldable pub average : TimeQueue → Method → ℕ → ℕ → Option (ℕ × TimeQueue)
unfolding amm wma
average q arithmetic now period = amm q now period
average q weighted now period = wma q now period

-- One round of `node_time_queue_merge` at an entry of each queue.
unfoldable pub merge_time : ℕ → NodeTime → NodeTime → NodeTime
unfolding half_up
merge_time x a b =
    let time = if ltb b.time a.time then a.time else b.time in
    record { time = time; msec = if ltb x time then half_up (add64 a.msec b.msec) else 0 }

-- The loop of `node_time_queue_merge`, on fuel.
unfoldable pub merge_loop : ℕ → TimeQueue → TimeQueue → ℕ → ℕ → Option TimeQueue
unfolding merge_time
merge_loop zero a b x i = none
merge_loop (suc f) a b x i =
    let entry = merge_time x (get_or a.times i zero_time) (get_or b.times i zero_time) in
    let rest = merge_loop f (record a { times = set a.times i entry }) b x ((i + 1) % a.len) in
    if i == a.rear then some a else rest

unfoldable pub merge : TimeQueue → TimeQueue → ℕ → ℕ → Option TimeQueue
unfolding since
merge a b now period = merge_loop (suc a.len) a b (since now period) a.front
