-- ===== src/TimeQueue/Merge.antt =====
-- `node_time_queue_merge` of ngx_metric_module/src/ngx_http_vhost_traffic_status_node.c on the
-- lists of entries.
use Prim.Native.Nat.{max}
use mathlib.Core.Path.{subst}
use metrics_server_example.Base.{
  ℕ, zero, suc, ◌+◌, ◌-◌, ◌/◌, ◌%◌, ◌<◌, ◌≤◌, ◌≡◌, refl, ap, ap₂, ◌∙◌, List, [], ◌∷◌, some, arith,
  ltb, if◌then◌else◌, length, get_or, set, length-set, get_or-set_self, get_or-set_ne, All, sym,
}
use metrics_server_example.TimeQueue.{
  NodeTime, zero_time, TimeQueue, half_up, since, merge_time, merge_loop, merge,
}
use metrics_server_example.TimeQueue.Average.{Short}
use metrics_server_example.TimeQueue.Window.{IsFull, window, contents, contents-window}

-- What two entries should become: the later time, and the mean of the durations, rounded up, where
-- that time is after `x`.
unfoldable pub mean_time : ℕ → NodeTime → NodeTime → NodeTime
mean_time x a b = record {
  time = max a.time b.time;
  msec = if ltb x (max a.time b.time) then (a.msec + b.msec + 1) / 2 else 0;
}

merge_time-mean_time :
    (x : ℕ) (a b : NodeTime) → Short a → Short b → merge_time x a b ≡ mean_time x a b
unfolding merge_time mean_time half_up
merge_time-mean_time x a b ha hb = ground arith

-- Entries merged in pairs.
unfoldable pub merge_times : ℕ → List NodeTime → List NodeTime → List NodeTime
merge_times x [] bs = []
merge_times x (a ∷ as') [] = []
merge_times x (a ∷ as') (b ∷ bs) = mean_time x a b ∷ merge_times x as' bs

-- A write at a place outside a window leaves the window.
window-set_outside :
    (ts : List NodeTime) (e : NodeTime) (n i j : ℕ)
    → i < 64
    → j < 64
    → n ≤ (j + 64 - i) % 64
    → window (set ts j e) i n ≡ window ts i n
unfolding window
window-set_outside ts e zero i j hi hj hn = refl
window-set_outside ts e (suc n) i j hi hj hn =
    ap₂ ◌∷◌ (get_or-set_ne ts e zero_time (omega arith))
      (window-set_outside ts e n ((i + 1) % 64) j (omega arith) hj (omega arith))

-- the places after `n` rounds of the loop from place `i` on
merged : ℕ → ℕ → List NodeTime → List NodeTime → ℕ → List NodeTime
merged x zero ts bs i = ts
merged x (suc n) ts bs i =
    merged x n (set ts i (merge_time x (get_or ts i zero_time) (get_or bs i zero_time))) bs
      ((i + 1) % 64)

merge_loop-merged :
    (a b : TimeQueue) (x n f i : ℕ)
    → a.len ≡ 64
    → a.rear < 64
    → i < 64
    → n ≡ (a.rear + 64 - i) % 64
    → n < f
    → merge_loop f a b x i ≡ some (record a { times = merged x n a.times b.times i })
unfolding merge_loop merged
merge_loop-merged a b x n zero i size rear_in hi hn hf = absurd (omega arith)
merge_loop-merged a b x zero (suc f) i size rear_in hi hn hf = ground arith
merge_loop-merged a b x (suc n) (suc f) i size rear_in hi hn hf =
    let entry = merge_time x (get_or a.times i zero_time) (get_or b.times i zero_time) in
    ground (
      arith,
      merge_loop-merged (record a { times = set a.times i entry }) b x n f ((i + 1) % 64) size
          rear_in (omega arith) (omega arith) (omega arith),
    )

length-merged : (x n : ℕ) (ts bs : List NodeTime) (i : ℕ) → length (merged x n ts bs i) ≡ length ts
unfolding merged
length-merged x zero ts bs i = refl
length-merged x (suc n) ts bs i =
    let e = merge_time x (get_or ts i zero_time) (get_or bs i zero_time) in
    length-merged x n (set ts i e) bs ((i + 1) % 64) ∙ length-set ts i e

merged_outside :
    (x n : ℕ) (ts bs : List NodeTime) (i j : ℕ)
    → i < 64
    → j < 64
    → n ≤ (j + 64 - i) % 64
    → get_or (merged x n ts bs i) j zero_time ≡ get_or ts j zero_time
unfolding merged
merged_outside x zero ts bs i j hi hj hn = refl
merged_outside x (suc n) ts bs i j hi hj hn =
    let e = merge_time x (get_or ts i zero_time) (get_or bs i zero_time) in
    merged_outside x n (set ts i e) bs ((i + 1) % 64) j (omega arith) hj (omega arith)
    ∙ get_or-set_ne ts e zero_time (omega arith)

window-merged :
    (x n : ℕ) (ts bs : List NodeTime) (i : ℕ)
    → length ts ≡ 64
    → i < 64
    → n < 64
    → All Short (window ts i n)
    → All Short (window bs i n)
    → window (merged x n ts bs i) i n ≡ merge_times x (window ts i n) (window bs i n)
unfolding merged window merge_times
window-merged x zero ts bs i hs hi hn ha hb = refl
window-merged x (suc n) ts bs i hs hi hn ha hb =
    let e = merge_time x (get_or ts i zero_time) (get_or bs i zero_time) in
    let i' = (i + 1) % 64 in
    let same : window (set ts i e) i' n ≡ window ts i' n =
      window-set_outside ts e n i' i (omega arith) hi (omega arith) in
    ap₂ ◌∷◌
      (merged_outside x n (set ts i e) bs i' i (omega arith) hi (omega arith)
        ∙ get_or-set_self ts i e zero_time (omega arith)
        ∙ merge_time-mean_time x (get_or ts i zero_time) (get_or bs i zero_time) ha.0 hb.0)
      (window-merged x n (set ts i e) bs i' (length-set ts i e ∙ hs) (omega arith) (omega arith)
          (subst (All Short) (sym same) ha.1) hb.1
        ∙ ap (λ w. merge_times x w (window bs i' n)) same)

merge-merged :
    (a b : TimeQueue) (now period : ℕ)
    → IsFull a
    → (q : TimeQueue) × (merge a b now period ≡ some q)
      × IsFull q
      × (q ≡ record a { times = merged (since now period) 63 a.times b.times a.front })
unfolding merge
merge-merged a b now period va =
    let x = since now period in
    let q : TimeQueue = record a { times = merged x 63 a.times b.times a.front } in
    (
      q,
      merge_loop-merged a b x 63 (suc a.len) a.front va.size (omega arith) va.front_in (omega arith)
          (omega arith),
      record {
        places = length-merged x 63 a.times b.times a.front ∙ va.places;
        size = va.size;
        front_in = va.front_in;
        rear_at = va.rear_at;
      },
      refl,
    )

-- A full queue that any queue is merged into stays full.
pub merge-IsFull :
    (a b : TimeQueue) (now period : ℕ)
    → IsFull a
    → (q : TimeQueue) × (merge a b now period ≡ some q) × IsFull q
merge-IsFull a b now period va =
    let (q, run, full, e) = merge-merged a b now period va in (q, run, full)

-- `node_time_queue_merge` of two full queues whose entries stand at the same places ends within its
-- fuel, keeps the first full, and pairs the entries: the later time, and the mean of the two
-- durations rounded up where that time is recent, 0 where it is not. The durations are below
-- `2 ^ 52` milliseconds, so that no sum of two leaves a signed 64-bit number.
pub merge_lem :
    (a b : TimeQueue) (now period : ℕ)
    → IsFull a
    → IsFull b
    → a.front ≡ b.front
    → All Short (contents a)
    → All Short (contents b)
    → (q : TimeQueue) × (merge a b now period ≡ some q)
      × IsFull q
      × (contents q ≡ merge_times (since now period) (contents a) (contents b))
merge_lem a b now period va vb same ha hb =
    let x = since now period in
    let (q, run, full, e) = merge-merged a b now period va in
    let ha' : All Short (window a.times a.front 63) = subst (All Short) (contents-window a va) ha in
    let hb' : All Short (window b.times a.front 63) = rw (contents-window b vb, ← same) at hb in
    let whole : contents q ≡ window (merged x 63 a.times b.times a.front) a.front 63 =
      contents-window q full ∙ ap (λ p. window p.times p.front 63) e in
    (
      q,
      run,
      full,
      whole
          ∙ rw (contents-window a va, contents-window b vb, ← same)
              (window-merged x 63 a.times b.times a.front va.places va.front_in (omega arith) ha'
                hb'),
    )
