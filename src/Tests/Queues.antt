-- ===== src/Tests/Queues.antt =====
-- Time queues and histograms.
use mathlib.Core.Path.{subst}
use metrics_server_example.Base.{
  ℕ, zero, suc, sym, ◌/◌, ◌%◌, ◌≡◌, refl, arith, some, List, [], ◌∷◌, ◌++◌, drop, length, map,
  replicate, All,
}
use metrics_server_example.Base.Words.{u64_mod}
use metrics_server_example.TimeQueue.{
  NodeTime, zero_time, TimeQueue, init, insert, insert_push_first, since, arithmetic, weighted,
  average, merge,
}
use metrics_server_example.TimeQueue.Window.{
  IsFull, contents, init-IsFull, insert-IsFull, insert_all, contents-insert, contents-init,
  contents-insert_all, insert_push_first-resets,
}
use metrics_server_example.TimeQueue.Average.{Short, recent_sum, weighted_sum, average_lem}
use metrics_server_example.TimeQueue.Merge.{merge_times, merge_lem}
use metrics_server_example.Histogram
use metrics_server_example.Histogram.{Bucket, Histogram, bucket_len}
use metrics_server_example.Histogram.Counts.{live, count_le, observe_all, observe_all-counts}

abbrev empty : TimeQueue
empty = init (record { times = []; front = 0; rear = 0; len = 0 })

empty-IsFull : IsFull empty
empty-IsFull = init-IsFull (record { times = []; front = 0; rear = 0; len = 0 })

-- After one request that took 30 milliseconds.
abbrev used : TimeQueue
used = insert empty 1000 30

used-IsFull : IsFull used
used-IsFull = insert-IsFull empty 1000 30 empty-IsFull

zeros-Short :
    (n : ℕ) → All Short (replicate n zero_time ++ (record { time = 1000; msec = 30 } ∷ []))
zeros-Short zero = (omega arith, tt)
zeros-Short (suc n) = (omega arith, zeros-Short n)

used-Short : All Short (contents used)
used-Short =
    let (full, inserted) = contents-insert empty 1000 30 empty-IsFull in
    subst (All Short) (sym inserted)
      (rw (contents-init (record { times = []; front = 0; rear = 0; len = 0 })) (zeros-Short 62))

abbrev two : List NodeTime
two = record { time = 1200; msec = 50 } ∷ record { time = 1300; msec = 20 } ∷ []

contents-insert_all_example :
    IsFull (insert_all used two)
    × (contents (insert_all used two) ≡ drop (length two) (contents used ++ two))
contents-insert_all_example = contents-insert_all two used used-IsFull

insert_push_first-resets_example : insert_push_first used 1200 50 ≡ init used
insert_push_first-resets_example = insert_push_first-resets used 1200 50 used-IsFull

average_lem_example :
    (average used arithmetic 2000 0 ≡ some (recent_sum (since 2000 0) (contents used) / 63, used))
    × (average used weighted 2000 0
        ≡ some (weighted_sum (since 2000 0) 1 (contents used) / 2016, used))
average_lem_example = average_lem used 2000 0 used-IsFull used-Short

merge_lem_example :
    (q : TimeQueue) × (merge used used 2000 0 ≡ some q)
    × IsFull q
    × (contents q ≡ merge_times (since 2000 0) (contents used) (contents used))
merge_lem_example = merge_lem used used 2000 0 used-IsFull used-IsFull refl used-Short used-Short

abbrev blank : Histogram
blank = record { buckets = replicate bucket_len (record { msec = 0; counter = 0 }); len = 0 }

observe_all-counts_example :
    live (observe_all (Histogram.init (some (10 ∷ 50 ∷ [])) blank) (30 ∷ 5 ∷ []))
    ≡ map (λ m. record { msec = m; counter = count_le m (30 ∷ 5 ∷ []) % u64_mod }) (10 ∷ 50 ∷ [])
observe_all-counts_example =
    observe_all-counts (10 ∷ 50 ∷ []) blank (30 ∷ 5 ∷ []) refl (omega arith)
