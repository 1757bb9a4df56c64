-- ===== src/TimeQueue/Average.antt =====
-- The averages over the time queue, `node_time_queue_amm` and `node_time_queue_wma` of
-- ngx_metric_module/src/ngx_http_vhost_traffic_status_node.c, and the window of its entries.
use metrics_server_example.Base.{
  ℕ, zero, suc, ◌+◌, ◌-◌, ◌*◌, ◌/◌, ◌%◌, ◌^◌, ◌<◌, ◌≤◌, ◌≡◌, refl, ap, ◌∙◌, true, List, [], ◌∷◌,
  some, arith, ltb, if◌then◌else◌, length, get_or, All, All-mono,
}
use metrics_server_example.Base.Words.{u64_mod, add64}
use metrics_server_example.TimeQueue.{
  NodeTime, signed_div, zero_time, TimeQueue, amm_loop, wma_loop, since, triangle, amm, wma, Method,
  arithmetic, weighted, average,
}
use metrics_server_example.TimeQueue.Window.{IsFull, window, contents, contents-window}

-- The total time of the entries that ended after `x`.
unfoldable pub recent_sum : ℕ → List NodeTime → ℕ
recent_sum x [] = 0
recent_sum x (e ∷ es) = (if ltb x e.time then e.msec else 0) + recent_sum x es

-- The same with weights `j`, `j + 1`, and so on, from the oldest entry to the newest.
unfoldable pub weighted_sum : ℕ → ℕ → List NodeTime → ℕ
weighted_sum x j [] = 0
weighted_sum x j (e ∷ es) = (if ltb x e.time then e.msec * j else 0) + weighted_sum x (j + 1) es

module _ (q : TimeQueue) (x : ℕ) (size : q.len ≡ 64) (rear_in : q.rear < 64) where
  amm_loop_lem :
      (n f i j k : ℕ)
      → i < 64
      → n ≡ (q.rear + 64 - i) % 64
      → n < f
      → k < u64_mod
      → amm_loop f q x i j k ≡ some (j + n, add64 k (recent_sum x (window q.times i n)))
  unfolding amm_loop recent_sum window
  amm_loop_lem n zero i j k hi hn hf word = absurd (omega arith)
  amm_loop_lem zero (suc f) i j k hi hn hf word = ground arith
  amm_loop_lem (suc n) (suc f) i j k hi hn hf word = ground (
    arith,
    amm_loop_lem n f ((i + 1) % 64) (j + 1) (add64 k (get_or q.times i zero_time).msec),
    amm_loop_lem n f ((i + 1) % 64) (j + 1) k,
  )

  wma_loop_lem :
      (n f i j k : ℕ)
      → i < 64
      → n ≡ (q.rear + 64 - i) % 64
      → n < f
      → k < u64_mod
      → wma_loop f q x i j k ≡ some (j + n, add64 k (weighted_sum x j (window q.times i n)))
  unfolding wma_loop weighted_sum window
  wma_loop_lem n zero i j k hi hn hf word = absurd (omega arith)
  wma_loop_lem zero (suc f) i j k hi hn hf word = ground arith
  wma_loop_lem (suc n) (suc f) i j k hi hn hf word = ground (
    arith,
    wma_loop_lem n f ((i + 1) % 64) (j + 1) (add64 k ((get_or q.times i zero_time).msec * j)),
    wma_loop_lem n f ((i + 1) % 64) (j + 1) k,
  )

amm_full :
    (q : TimeQueue) (now period : ℕ)
    → IsFull q
    → amm q now period
      ≡ some (signed_div (recent_sum (since now period) (contents q) % u64_mod) 63, q)
unfolding amm
amm_full q now period v =
    let x = since now period in
    let w = contents-window q v in
    let loop =
      amm_loop_lem q x v.size (omega arith) 63 (suc q.len) q.front 1 0 v.front_in (omega arith)
        (omega arith) (omega arith) in
    rw w (ground (arith, loop))

wma_full :
    (q : TimeQueue) (now period : ℕ)
    → IsFull q
    → wma q now period
      ≡ some (signed_div (weighted_sum (since now period) 1 (contents q) % u64_mod) 2016, q)
unfolding wma triangle
wma_full q now period v =
    let x = since now period in
    let w = contents-window q v in
    let loop =
      wma_loop_lem q x v.size (omega arith) 63 (suc q.len) q.front 1 0 v.front_in (omega arith)
        (omega arith) (omega arith) in
    rw w (ground (arith, loop))

-- The sum of `n` weights from `j` on.
weights : ℕ → ℕ → ℕ
weights j zero = 0
weights j (suc n) = j + weights (j + 1) n

abbrev Within : ℕ → NodeTime → Type 0
Within m e = e.msec ≤ m

recent_sum-le : (x m : ℕ) (es : List NodeTime) → All (Within m) es → recent_sum x es ≤ length es * m
unfolding recent_sum
recent_sum-le x m [] h = omega arith
recent_sum-le x m (e ∷ es) h = ground (arith, recent_sum-le x m es h.1)

weighted_sum-le :
    (x m j : ℕ) (es : List NodeTime)
    → All (Within m) es
    → weighted_sum x j es ≤ weights j (length es) * m
unfolding weighted_sum weights
weighted_sum-le x m j [] h = omega arith
weighted_sum-le x m j (e ∷ es) h =
    let head : e.msec * j ≤ j * m = grind arith in
    ground (arith, weighted_sum-le x m (j + 1) es h.1)

length-window : (ts : List NodeTime) (i n : ℕ) → length (window ts i n) ≡ n
unfolding window
length-window ts i zero = refl
length-window ts i (suc n) = ap suc (length-window ts ((i + 1) % 64) n)

-- A full queue has 63 entries.
pub length-contents : (q : TimeQueue) → IsFull q → length (contents q) ≡ 63
length-contents q v = rw (contents-window q v) (length-window q.times q.front 63)

weights-63 : weights 1 63 ≡ 2016
unfolding weights
weights-63 = refl

-- The time of an entry is short: under 140,000 years.
abbrev pub Short : NodeTime → Type 0
Short e = e.msec < 2 ^ 52

-- The sums over short times are numbers of 63 bits.
sums-small :
    (q : TimeQueue) (x : ℕ)
    → IsFull q
    → All Short (contents q)
    → (recent_sum x (contents q) < 2 ^ 63) × (weighted_sum x 1 (contents q) < 2 ^ 63)
sums-small q x v h =
    let within : All (Within (2 ^ 52 - 1)) (contents q) =
      All-mono Short (contents q) (λ e short. omega (arith, short)) h in
    let recent : recent_sum x (contents q) ≤ 63 * (2 ^ 52 - 1) =
      rw (length-contents q v) at (recent_sum-le x (2 ^ 52 - 1) (contents q) within) in
    let weighted : weighted_sum x 1 (contents q) ≤ 2016 * (2 ^ 52 - 1) =
      rw (length-contents q v, weights-63) at
        (weighted_sum-le x (2 ^ 52 - 1) 1 (contents q) within) in
    (omega (arith, recent), omega (arith, weighted))

-- The signed quotient of a number of 63 bits.
signed_div-small : (k d : ℕ) → k < 2 ^ 63 → signed_div (k % u64_mod) d ≡ k / d
unfolding signed_div
signed_div-small k d h =
    let same : k % u64_mod ≡ k = omega (arith, h) in
    let small : ltb k (2 ^ 63) ≡ true = ground (arith, h) in rw (same, small) refl

-- The average that a method gives of a full queue, with the wrap of its sum.
unfoldable pub mean : Method → ℕ → ℕ → TimeQueue → ℕ
unfolding signed_div
mean arithmetic now period q = signed_div (recent_sum (since now period) (contents q) % u64_mod) 63
mean weighted now period q =
    signed_div (weighted_sum (since now period) 1 (contents q) % u64_mod) 2016

pub average-mean :
    (q : TimeQueue) (method : Method) (now period : ℕ)
    → IsFull q
    → average q method now period ≡ some (mean method now period q, q)
unfolding mean average
average-mean q arithmetic now period v = amm_full q now period v
average-mean q weighted now period v = wma_full q now period v

-- On a full queue of times below `2 ^ 52` milliseconds, whose sums stay within a signed 64-bit
-- number, both averages end within their fuel and leave the queue as it is: `amm` gives the
-- sum of the recent times over 63, `wma` the sum weighted from 1 for the oldest to 63 for the
-- newest entry, over 2016.
pub average_lem :
    (q : TimeQueue) (now period : ℕ)
    → IsFull q
    → All Short (contents q)
    → (average q arithmetic now period ≡ some (recent_sum (since now period) (contents q) / 63, q))
      × (average q weighted now period
          ≡ some (weighted_sum (since now period) 1 (contents q) / 2016, q))
unfolding mean
average_lem q now period v h =
    let (recent, weighted_small) = sums-small q (since now period) v h in
    (
      average-mean q arithmetic now period v ∙ ap (λ a. some (a, q)) (signed_div-small _ 63 recent),
      average-mean q weighted now period v
          ∙ ap (λ a. some (a, q)) (signed_div-small _ 2016 weighted_small),
    )

-- If no entry of a full queue of short times is above `m` milliseconds, then neither is the average, by either
-- method and for every period.
pub average-le :
    (q : TimeQueue) (method : Method) (now period m : ℕ)
    → IsFull q
    → All Short (contents q)
    → All (λ e. e.msec ≤ m) (contents q)
    → (a : ℕ) × (average q method now period ≡ some (a, q)) × (a ≤ m)
average-le q arithmetic now period m v short h =
    let s = recent_sum (since now period) (contents q) in
    let bound : s ≤ 63 * m =
      rw (length-contents q v) at (recent_sum-le (since now period) m (contents q) h) in
    (s / 63, (average_lem q now period v short).0, omega arith)
average-le q weighted now period m v short h =
    let s = weighted_sum (since now period) 1 (contents q) in
    let bound : s ≤ 2016 * m =
      rw (length-contents q v, weights-63) at
        (weighted_sum-le (since now period) m 1 (contents q) h) in
    (s / 2016, (average_lem q now period v short).1, omega arith)

-- On a full queue the average is there, by either method, and the queue stays.
pub average-some :
    (q : TimeQueue) (method : Method) (now period : ℕ)
    → IsFull q
    → (a : ℕ) × (average q method now period ≡ some (a, q))
average-some q method now period v = (_, average-mean q method now period v)
