-- ===== src/Histogram/Counts.antt =====
-- The histogram of ngx_metric_module/src/ngx_http_vhost_traffic_status_node.c (`node_histogram_*`)
-- against counts of the observed times.
use mathlib.Core.List.{map-map, map-id}
use mathlib.Core.Path.{fun_ext}
use metrics_server_example.Base.{
  sym, ℕ, zero, suc, ◌+◌, ◌%◌, ◌<◌, ◌≤◌, ◌≡◌, refl, ap, ◌∙◌, List, [], ◌∷◌, some, map, arith, leb,
  if◌then◌else◌, length, get_or, set, take, length-set,
}
use metrics_server_example.Base.Words.{add64, u64_mod}
use metrics_server_example.Histogram.{
  Bucket, Histogram, bucket_len, zero_bucket, init_loop, init, bump, observe_loop, observe,
}

-- The buckets in use.
abbrev pub live : Histogram → List Bucket
live b = take b.len b.buckets

-- The array has room for the buckets in use.
abbrev pub Fits : Histogram → Type 0
Fits b = b.len ≤ length b.buckets

-- A loop behind the first place leaves that place alone.
observe_loop-cons :
    (n i : ℕ) (b : Bucket) (bs : List Bucket) (x : ℕ)
    → observe_loop n (suc i) (b ∷ bs) x ≡ b ∷ observe_loop n i bs x
unfolding observe_loop
observe_loop-cons zero i b bs x = refl
observe_loop-cons (suc n) i b bs x =
    let e : suc i + 1 ≡ suc (i + 1) = omega arith in
    let rest = set bs i (bump x (get_or bs i zero_bucket)) in
    rw e (observe_loop-cons n (i + 1) b rest x)

take-observe_loop :
    (n : ℕ) (bs : List Bucket) (x : ℕ)
    → n ≤ length bs
    → take n (observe_loop n 0 bs x) ≡ map (bump x) (take n bs)
unfolding observe_loop
take-observe_loop zero bs x h = refl
take-observe_loop (suc n) [] x h = absurd (omega arith)
take-observe_loop (suc n) (b ∷ bs) x h =
    rw (observe_loop-cons n 0 (bump x b) bs x)
      (ap (λ r. bump x b ∷ r) (take-observe_loop n bs x (omega arith)))

length-observe_loop :
    (n i : ℕ) (bs : List Bucket) (x : ℕ) → length (observe_loop n i bs x) ≡ length bs
unfolding observe_loop
length-observe_loop zero i bs x = refl
length-observe_loop (suc n) i bs x = length-observe_loop n (i + 1) _ x ∙ length-set bs i _

-- `observe` bumps each bucket in use.
pub live-observe :
    (b : Histogram) (x : ℕ)
    → Fits b
    → Fits (observe b x) × (live (observe b x) ≡ map (bump x) (live b))
unfolding observe
live-observe b x h =
    (rw (length-observe_loop b.len 0 b.buckets x) h, take-observe_loop b.len b.buckets x h)

init_loop-cons :
    (i : ℕ) (b : Bucket) (bs : List Bucket) (ms : List ℕ)
    → init_loop (b ∷ bs) (suc i) ms ≡ b ∷ init_loop bs i ms
unfolding init_loop
init_loop-cons i b bs [] = refl
init_loop-cons i b bs (m ∷ ms) =
    let e : suc i + 1 ≡ suc (i + 1) = omega arith in
    rw e (init_loop-cons (i + 1) b (set bs i (record { msec = m; counter = 0 })) ms)

length-init_loop : (bs : List Bucket) (i : ℕ) (ms : List ℕ) → length (init_loop bs i ms) ≡ length bs
unfolding init_loop
length-init_loop bs i [] = refl
length-init_loop bs i (m ∷ ms) =
    length-init_loop (set bs i (record { msec = m; counter = 0 })) (i + 1) ms ∙ length-set bs i _

take-init_loop :
    (bs : List Bucket) (ms : List ℕ)
    → length ms ≤ length bs
    → take (length ms) (init_loop bs 0 ms) ≡ map (λ m. record { msec = m; counter = 0 }) ms
unfolding init_loop
take-init_loop bs [] h = refl
take-init_loop [] (m ∷ ms) h = absurd (omega arith)
take-init_loop (b ∷ bs) (m ∷ ms) h =
    rw (init_loop-cons 0 (record { msec = m; counter = 0 }) bs ms)
      (ap (λ r. record { msec = m; counter = 0 } ∷ r) (take-init_loop bs ms (omega arith)))

-- The observations of a sequence.
unfoldable pub observe_all : Histogram → List ℕ → Histogram
observe_all b [] = b
observe_all b (x ∷ xs) = observe_all (observe b x) xs

unfoldable pub bump_all : List ℕ → Bucket → Bucket
bump_all [] k = k
bump_all (x ∷ xs) k = bump_all xs (bump x k)

live-observe_all :
    (b : Histogram) (xs : List ℕ) → Fits b → live (observe_all b xs) ≡ map (bump_all xs) (live b)
unfolding observe_all bump_all
live-observe_all b [] h = sym (map-id (live b))
live-observe_all b (x ∷ xs) h =
    let step = live-observe b x h in
    live-observe_all (observe b x) xs step.0 ∙ rw step.1 (map-map (bump_all xs) (bump x) (live b))

-- How many of `xs` are at most `m`.
unfoldable pub count_le : ℕ → List ℕ → ℕ
count_le m [] = 0
count_le m (x ∷ xs) = (if leb x m then 1 else 0) + count_le m xs

bump_all-count :
    (xs : List ℕ) (m c : ℕ)
    → c < u64_mod
    → bump_all xs (record { msec = m; counter = c })
      ≡ record { msec = m; counter = (c + count_le m xs) % u64_mod }
unfolding bump_all bump count_le
bump_all-count [] m c h =
    let e : c ≡ (c + 0) % u64_mod = omega arith in ap (λ k. record { msec = m; counter = k }) e
bump_all-count (x ∷ xs) m c h =
    ground (arith, bump_all-count xs m (add64 c 1), bump_all-count xs m c)

bump_all_zero :
    (xs : List ℕ) (m : ℕ)
    → bump_all xs (record { msec = m; counter = 0 })
      ≡ record { msec = m; counter = count_le m xs % u64_mod }
bump_all_zero xs m =
    let e : (0 + count_le m xs) % u64_mod ≡ count_le m xs % u64_mod = omega arith in
    bump_all-count xs m 0 (omega arith) ∙ ap (λ c. record { msec = m; counter = c }) e

-- A histogram set up with at most 32 bounds and then shown a sequence of times holds for each bound,
-- in order, the number of times up to it, as a 64-bit word.
pub observe_all-counts :
    (bounds : List ℕ) (b : Histogram) (xs : List ℕ)
    → length b.buckets ≡ bucket_len
    → length bounds ≤ bucket_len
    → live (observe_all (init (some bounds) b) xs)
      ≡ map (λ m. record { msec = m; counter = count_le m xs % u64_mod }) bounds
unfolding init
observe_all-counts bounds b xs places fit =
    let bs = init_loop b.buckets 0 bounds in
    let start : Histogram = record { buckets = bs; len = length bounds } in
    let fits : Fits start = rw (length-init_loop b.buckets 0 bounds) (omega arith) in
    live-observe_all start xs fits
    ∙ ap (map (bump_all xs)) (take-init_loop b.buckets bounds (omega arith))
    ∙ map-map (bump_all xs) (λ m. record { msec = m; counter = 0 }) bounds
    ∙ ap (λ f. map f bounds) (fun_ext (bump_all_zero xs))
