-- ===== src/Display/Texts.antt =====
-- What `display_get_time_queue` and `display_get_histogram_bucket` of
-- ngx_metric_module/src/ngx_http_vhost_traffic_status_display.c write.
use metrics_server_example.Base.{
  ℕ, zero, suc, ◌+◌, ◌-◌, ◌*◌, ◌%◌, ◌^◌, ◌≡◌, ◌≢◌, ◌≤◌, ◌<◌, refl, sym, ap, ◌∙◌, true, Option, none,
  some, List, [], ◌∷◌, ◌++◌, map, append_assoc, arith, ltb, ◌==◌, length, length-append, length-map,
  ==→eq, Bool-cases, inl, inr, false, ap₂, get_or, set, take, take-append, drop, replicate, All,
  All-append,
}
use metrics_server_example.Text.{Bytes}
use metrics_server_example.Group.{c_string}
use metrics_server_example.TimeQueue.{NodeTime, TimeQueue}
use metrics_server_example.TimeQueue.Window.{IsFull, window, contents, contents-window}
use metrics_server_example.TimeQueue.Average.{length-contents}
use metrics_server_example.Histogram.{Bucket, Histogram}
use metrics_server_example.Display.{
  comma, empty_text, text_in, time_queue_loop, get_time_queue, no_bucket, histogram_loop,
  get_histogram_bucket,
}

-- Texts with commas between them.
unfoldable pub joined : List Bytes → Bytes
joined [] = []
joined (x ∷ []) = x
joined (x ∷ y ∷ ys) = x ++ comma ∷ joined (y ∷ ys)

-- Texts with a comma behind each.
unfoldable pub written : List Bytes → Bytes
written [] = []
written (x ∷ xs) = x ++ comma ∷ written xs

-- What the printing of numbers gives: up to 19 bytes for up to 19 digits, none of them zero.
pub record IsPrinting (number : ℕ → Bytes) : Type 0 where
  pub short : (n : ℕ) → n < 10 ^ 19 → length (number n) ≤ 19
  pub nonzero : (n : ℕ) → All (λ b. b ≢ 0) (number n)

written-joined : (x : Bytes) (xs : List Bytes) → written (x ∷ xs) ≡ joined (x ∷ xs) ++ comma ∷ []
unfolding written joined
written-joined x [] = refl
written-joined x (y ∷ ys) =
    ap (λ s. x ++ comma ∷ s) (written-joined y ys)
    ∙ sym (append_assoc x (comma ∷ joined (y ∷ ys)) (comma ∷ []))

-- What is there with texts behind it is longer than what was there, and without its last byte it ends
-- without a comma.
pub take-written :
    (s x : Bytes) (xs : List Bytes)
    → (take (length (s ++ written (x ∷ xs)) - 1) (s ++ written (x ∷ xs)) ≡ s ++ joined (x ∷ xs))
      × (length s < length (s ++ written (x ∷ xs)))
take-written s x xs =
    let j = joined (x ∷ xs) in
    let whole : s ++ written (x ∷ xs) ≡ (s ++ j) ++ comma ∷ [] =
      ap (λ w. s ++ w) (written-joined x xs) ∙ sym (append_assoc s j (comma ∷ [])) in
    let long : length (s ++ written (x ∷ xs)) ≡ length (s ++ j) + 1 =
      ap length whole ∙ length-append (s ++ j) (comma ∷ []) in
    let size : length (s ++ written (x ∷ xs)) - 1 ≡ length (s ++ j) = omega (arith, long) in
    (rw (size, whole) (take-append (s ++ j) (comma ∷ [])), omega (arith, long, length-append s j))

set-last : (a : Bytes) → set (a ++ comma ∷ []) (length a) 0 ≡ a ++ 0 ∷ []
set-last [] = refl
set-last (b ∷ bs) = ap (λ s. b ∷ s) (set-last bs)

c_string-append : (a b : Bytes) → All (λ x. x ≢ 0) a → c_string (a ++ 0 ∷ b) ≡ a
unfolding c_string
c_string-append [] b h = refl
c_string-append (x ∷ xs) b h = ground (arith, h.0, c_string-append xs b h.1)

All-joined :
    (x : Bytes) (xs : List Bytes)
    → All (λ s. All (λ b. b ≢ 0) s) (x ∷ xs)
    → All (λ b. b ≢ 0) (joined (x ∷ xs))
unfolding joined
All-joined x [] h = h.0
All-joined x (y ∷ ys) h =
    All-append (λ b. b ≢ 0) x (comma ∷ joined (y ∷ ys)) h.0 (omega arith, All-joined y ys h.1)

-- The memory that holds texts with commas between them.
text_in-written :
    (size : ℕ) (x : Bytes) (xs : List Bytes)
    → length (written (x ∷ xs)) ≤ size
    → All (λ s. All (λ b. b ≢ 0) s) (x ∷ xs)
    → (m : Bytes) × (text_in size (written (x ∷ xs)) ≡ some m) × (c_string m ≡ joined (x ∷ xs))
unfolding text_in
text_in-written size x xs fits ok =
    let j = joined (x ∷ xs) in
    let zeros : Bytes = replicate (size - length (written (x ∷ xs))) 0 in
    let e = written-joined x xs in
    let long : length (written (x ∷ xs)) ≡ length j + 1 =
      ap length e ∙ length-append j (comma ∷ []) in
    let size_ok : ltb size (length (written (x ∷ xs))) ≡ false = ground arith in
    let some_ok : ltb 0 (length (written (x ∷ xs))) ≡ true = ground (arith, long) in
    let place : length (written (x ∷ xs)) - 1 ≡ length j = omega (arith, long) in
    let ended : set (written (x ∷ xs)) (length (written (x ∷ xs)) - 1) 0 ≡ j ++ 0 ∷ [] =
      ap₂ (λ w n. set w n 0) e place ∙ set-last j in
    (
      (j ++ 0 ∷ []) ++ zeros,
      rw (size_ok, some_ok, ended) refl,
      ap c_string (append_assoc j (0 ∷ []) zeros) ∙ c_string-append j zeros (All-joined x xs ok),
    )

-- Texts of at most 19 bytes.
length-written :
    (xs : List Bytes) → All (λ s. length s ≤ 19) xs → length (written xs) ≤ length xs * 20
unfolding written
length-written [] h = omega arith
length-written (x ∷ xs) h =
    omega (arith, h.0, length-append x (comma ∷ written xs), length-written xs h.1)

module _ (number : ℕ → Bytes) (law : IsPrinting number) {A : Type 0} (field : A → ℕ) where
  -- The printed numbers of a list.
  abbrev pub printed : List A → List Bytes
  printed xs = map (λ x. number (field x)) xs

  printed-short :
      (xs : List A) → All (λ x. field x < 10 ^ 19) xs → All (λ s. length s ≤ 19) (printed xs)
  printed-short [] h = tt
  printed-short (x ∷ xs) h = (law.short (field x) h.0, printed-short xs h.1)

  printed-nonzero : (xs : List A) → All (λ s. All (λ b. b ≢ 0) s) (printed xs)
  printed-nonzero [] = tt
  printed-nonzero (x ∷ xs) = (law.nonzero (field x), printed-nonzero xs)

  text_in-printed :
      (size : ℕ) (xs : List A)
      → 0 < length xs
      → length xs * 20 ≤ size
      → All (λ x. field x < 10 ^ 19) xs
      → (m : Bytes) × (text_in size (written (printed xs)) ≡ some m)
        × (c_string m ≡ joined (printed xs))
  text_in-printed size [] pos fits h = absurd (omega arith)
  text_in-printed size (x ∷ xs) pos fits h =
      text_in-written size (number (field x)) (printed xs)
        (omega (
          arith,
          length-written (printed (x ∷ xs)) (printed-short (x ∷ xs) h),
          length-map (λ x. number (field x)) (x ∷ xs),
        ))
        (printed-nonzero (x ∷ xs))

time_queue_loop-written :
    (number : ℕ → Bytes) (q : TimeQueue) (field : NodeTime → ℕ) (n f i : ℕ)
    → q.len ≡ 64
    → q.rear < 64
    → i < 64
    → n ≡ (q.rear + 64 - i) % 64
    → n < f
    → time_queue_loop number f q field i
      ≡ some (written (map (λ e. number (field e)) (window q.times i n)))
unfolding time_queue_loop window written
time_queue_loop-written number q field n zero i size rear_in hi hn hf = absurd (omega arith)
time_queue_loop-written number q field zero (suc f) i size rear_in hi hn hf = ground arith
time_queue_loop-written number q field (suc n) (suc f) i size rear_in hi hn hf =
    let next : (i + 1) % q.len ≡ (i + 1) % 64 = ap (λ m. (i + 1) % m) size in
    let more : (i == q.rear) ≡ false = ground arith in
    rw
      (
        more,
        next,
        time_queue_loop-written number q field n f ((i + 1) % 64) size rear_in (omega arith)
            (omega arith) (omega arith),
      )
      refl

drop-get_or {ℓ} :
    {A : Type ℓ} (xs : List A) (i : ℕ) (d : A)
    → i < length xs
    → drop i xs ≡ get_or xs i d ∷ drop (suc i) xs
drop-get_or [] i d h = absurd (omega arith)
drop-get_or (x ∷ xs) zero d h = refl
drop-get_or (x ∷ xs) (suc i) d h = drop-get_or xs i d (omega arith)

histogram_loop-written :
    (number : ℕ → Bytes) (field : Bucket → ℕ) (bs : List Bucket) (n i : ℕ)
    → i + n ≤ length bs
    → histogram_loop number n bs field i
      ≡ written (map (λ b. number (field b)) (take n (drop i bs)))
unfolding histogram_loop written
histogram_loop-written number field bs zero i h = refl
histogram_loop-written number field bs (suc n) i h =
    let next : suc i ≡ i + 1 = omega arith in
    rw
      (
        drop-get_or bs i no_bucket (omega arith),
        next,
        histogram_loop-written number field bs n (i + 1) (omega arith),
      )
      refl

length-take : (bs : List Bucket) (n : ℕ) → n ≤ length bs → length (take n bs) ≡ n
length-take bs zero h = refl
length-take [] (suc n) h = absurd (omega arith)
length-take (b ∷ bs) (suc n) h = ap suc (length-take bs n (omega arith))

module _ (number : ℕ → Bytes) (law : IsPrinting number) where
  time_queue_text :
      (q : TimeQueue) (field : NodeTime → ℕ)
      → IsFull q
      → All (λ e. field e < 10 ^ 19) (contents q)
      → (m : Bytes) × (get_time_queue number true q field ≡ some m)
        × (c_string m ≡ joined (printed number law field (contents q)))
  unfolding get_time_queue
  time_queue_text q field full h =
      let size = length-contents q full in
      let live : (q.front == q.rear) ≡ false = ground (arith, full.front_in, full.rear_at) in
      let run : time_queue_loop number (suc q.len) q field q.front
          ≡ some (written (printed number law field (contents q))) =
        rw (contents-window q full) (
          time_queue_loop-written number q field 63 (suc q.len) q.front full.size
            (omega (arith, full.rear_at)) full.front_in (omega (arith, full.rear_at, full.front_in))
            (omega (arith, full.size))) in
      let finish : Option Bytes → Option Bytes =
        λ r. elim r [ none ↦ none | some s ↦ text_in (q.len * 20) s ] in
      let opened : get_time_queue number true q field
          ≡ finish (time_queue_loop number (suc q.len) q field q.front) =
        rw live refl in
      let (m, held, text) =
        text_in-printed number law field (q.len * 20) (contents q) (omega arith)
          (omega (arith, full.size)) h in
      (m, opened ∙ ap finish run ∙ held, text)

  histogram_text :
      (b : Histogram) (part : Bucket → ℕ)
      → b.len ≤ length b.buckets
      → All (λ c. part c < 10 ^ 19) (take b.len b.buckets)
      → (m : Bytes) × (get_histogram_bucket number true b part ≡ some m)
        × (c_string m ≡ joined (printed number law part (take b.len b.buckets)))
  unfolding get_histogram_bucket c_string joined
  histogram_text b part fits h = elim (Bool-cases (b.len == 0)) [
    | inl e ↦ (
      empty_text,
      rw e refl,
      ap (λ n. joined (printed number law part (take n b.buckets))) (sym (==→eq b.len 0 e)),
    )
    | inr e ↦
        let size = length-take b.buckets b.len fits in
        let run = histogram_loop-written number part b.buckets b.len 0 (omega arith) in
        let (m, held, text) =
          text_in-printed number law part (b.len * 20) (take b.len b.buckets) (ground arith)
            (omega arith) h in
        (m, rw (e, run) held, text)
  ]

-- The text of a full time queue holds the printed parts of the entries of its window, oldest first, and
-- the text of a histogram, whose bounds fit its places, those of its buckets in order, with commas
-- between them and ended by a zero within the memory given, where the printed numbers have up to 19
-- digits.
pub texts_lem :
    (number : ℕ → Bytes) (q : TimeQueue) (b : Histogram) (field : NodeTime → ℕ) (part : Bucket → ℕ)
    → IsPrinting number
    → IsFull q
    → b.len ≤ length b.buckets
    → All (λ e. field e < 10 ^ 19) (contents q)
    → All (λ c. part c < 10 ^ 19) (take b.len b.buckets)
    → ((m : Bytes) × (get_time_queue number true q field ≡ some m)
        × (c_string m ≡ joined (map (λ e. number (field e)) (contents q))))
      × ((m : Bytes) × (get_histogram_bucket number true b part ≡ some m)
          × (c_string m ≡ joined (map (λ c. number (part c)) (take b.len b.buckets))))
texts_lem number q b field part law full fits he hc =
    (time_queue_text number law q field full he, histogram_text number law b part fits hc)
