-- ===== src/TimeQueue/Window.antt =====
-- The time queue of ngx_metric_module/src/ngx_http_vhost_traffic_status_node.c as the list of its
-- entries, oldest first.
use metrics_server_example.Base.{
  replicate, ltb, if◌then◌else◌, sym, append-nil, ℕ, zero, suc, ◌+◌, ◌-◌, ◌%◌, ◌<◌, ◌≡◌, refl, ap,
  ap₂, ◌∙◌, List, [], ◌∷◌, ◌++◌, append_assoc, arith, length, length-set, get_or, set, drop,
  get_or-set_self, get_or-set_ne,
}
use metrics_server_example.TimeQueue.{
  NodeTime, zero_time, TimeQueue, init, rear_index, insert, insert_push_first,
}

-- The queue as every node keeps it: 63 entries in the 64 places.
pub record IsFull (q : TimeQueue) : Type 0 where
  pub places : length q.times ≡ 64
  pub size : q.len ≡ 64
  pub front_in : q.front < 64
  pub rear_at : q.rear ≡ (q.front + 63) % 64

-- the `n` entries from place `i` on, going round
unfoldable pub window : List NodeTime → ℕ → ℕ → List NodeTime
window ts i zero = []
window ts i (suc n) = get_or ts i zero_time ∷ window ts ((i + 1) % 64) n

-- The live entries, oldest first.
unfoldable pub contents : TimeQueue → List NodeTime
unfolding window
contents q = window q.times q.front ((q.rear + 64 - q.front) % 64)

pub contents-window : (q : TimeQueue) → IsFull q → contents q ≡ window q.times q.front 63
unfolding contents
contents-window q v =
    let e : (q.rear + 64 - q.front) % 64 ≡ 63 = omega arith in ap (window q.times q.front) e

-- Writing at the end of a window extends it by that entry.
window-set :
    (ts : List NodeTime) (e : NodeTime) (n i j : ℕ)
    → length ts ≡ 64
    → i < 64
    → n < 64
    → j ≡ (i + n) % 64
    → window (set ts j e) i (suc n) ≡ window ts i n ++ (e ∷ [])
unfolding window
window-set ts e zero i j hs hi hn eq =
    let at_i : j ≡ i = omega arith in rw (at_i, get_or-set_self ts i e zero_time (omega arith))
window-set ts e (suc n) i j hs hi hn eq =
    ap₂ ◌∷◌ (get_or-set_ne ts e zero_time (omega arith))
      (window-set ts e n ((i + 1) % 64) j hs (omega arith) (omega arith) (omega arith))

pub init-IsFull : (q : TimeQueue) → IsFull (init q)
unfolding init
init-IsFull q = omega arith

-- On a full queue `insert` never resets.
insert-full :
    (q : TimeQueue) (now x : ℕ)
    → IsFull q
    → insert q now x ≡ record q {
      times = set q.times q.rear (record { time = now; msec = x });
      front = (q.front + 1) % 64;
      rear = (q.rear + 1) % 64;
    }
unfolding insert
insert-full q now x v = ground arith

-- `insert` keeps the queue full.
pub insert-IsFull : (q : TimeQueue) (now x : ℕ) → IsFull q → IsFull (insert q now x)
insert-IsFull q now x v =
    rw (insert-full q now x v)
      (ground (arith, length-set q.times q.rear (record { time = now; msec = x })))

-- `insert` keeps the queue full, drops its oldest entry and appends the new one.
pub contents-insert :
    (q : TimeQueue) (now x : ℕ)
    → IsFull q
    → IsFull (insert q now x)
      × (contents (insert q now x) ≡ drop 1 (contents q) ++ (record { time = now; msec = x } ∷ []))
unfolding window
contents-insert q now x v = (
  insert-IsFull q now x v,
  rw
      (
        contents-window (insert q now x) (insert-IsFull q now x v),
        contents-window q v,
        insert-full q now x v,
      )
      (window-set q.times (record { time = now; msec = x }) 62 ((q.front + 1) % 64) q.rear v.places
        (omega arith) (omega arith) (omega arith)),
)

-- The requests of a sequence, each with the time of its end.
unfoldable pub insert_all : TimeQueue → List NodeTime → TimeQueue
insert_all q [] = q
insert_all q (e ∷ es) = insert_all (insert q e.time e.msec) es

-- After any sequence of requests a full queue holds the last 63 of its old entries and those.
pub contents-insert_all :
    (es : List NodeTime) (q : TimeQueue)
    → IsFull q
    → IsFull (insert_all q es) × (contents (insert_all q es) ≡ drop (length es) (contents q ++ es))
unfolding insert_all window
contents-insert_all [] q v = (v, sym (append-nil (contents q)))
contents-insert_all (e ∷ es) q v =
    let w = window q.times ((q.front + 1) % 64) 62 in
    let rest = contents-insert_all es (insert q e.time e.msec) (insert-IsFull q e.time e.msec v) in
    (
      rest.0,
      rest.1
          ∙ rw ((contents-insert q e.time e.msec v).1, contents-window q v)
              (ap (drop (length es)) (append_assoc w (e ∷ []) es)),
    )

-- After an insertion into a full queue, `rear` finds the entry that was inserted.
pub newest-insert :
    (q : TimeQueue) (now x : ℕ)
    → IsFull q
    → get_or (insert q now x).times (rear_index (insert q now x)) zero_time
      ≡ record { time = now; msec = x }
unfolding rear_index
newest-insert q now x v = rw (insert-full q now x v) (
    let e : (if ltb 0 ((q.rear + 1) % 64) then (q.rear + 1) % 64 - 1 else 63) ≡ q.rear =
      ground arith in
    rw e (get_or-set_self q.times q.rear (record { time = now; msec = x }) zero_time (omega arith)))

-- Where a compiler evaluates the right operand of `|` first, every insertion into a full queue
-- fails its `push` and wipes the queue, the new entry with it.
pub insert_push_first-resets :
    (q : TimeQueue) (now x : ℕ) → IsFull q → insert_push_first q now x ≡ init q
unfolding insert_push_first
insert_push_first-resets q now x v = ground arith

-- A fresh queue holds 63 entries of zero.
pub contents-init : (q : TimeQueue) → contents (init q) ≡ replicate 63 zero_time
unfolding init contents
contents-init q = refl
