-- ===== src/Text/Replaced.antt =====
-- One replacement after another with `replace_strc` of
-- ngx_metric_module/src/ngx_http_vhost_traffic_status_string.c.
use mathlib.Core.Path.{subst}
use mathlib.Core.Option.{none-ne-some, some-injective}
use metrics_server_example.Base.{
  ℕ, zero, suc, ◌+◌, ◌-◌, ◌*◌, ◌≡◌, ◌≤◌, ◌<◌, refl, sym, ap, ap₂, ◌∙◌, false, none, some, [], ◌∷◌,
  ◌++◌, append_assoc, arith, inl, inr, ltb, ◌==◌, length, length-append, take, drop, length-drop,
  get_or, All, All-append, Bool-cases, Option-cases,
}
use metrics_server_example.Text.{Bytes, Status, ok, error}
use metrics_server_example.Text.Replace.{Buffer, strstrn, move, replace_loop, replace_strc}

abbrev NonZero : Bytes → Type 0
NonZero = All (λ b. 0 < b)

-- A zero-terminated text of a length.
pub record IsText (len : ℕ) (memory : Bytes) : Type 0 where
  pub text : Bytes
  pub whole : memory ≡ text ++ 0 ∷ []
  pub bytes : All (λ b. 0 < b) text
  pub size : length text ≡ len

take-append_le : (n : ℕ) (xs ys : Bytes) → n ≤ length xs → take n (xs ++ ys) ≡ take n xs
take-append_le zero xs ys h = refl
take-append_le (suc n) [] ys h = absurd (omega arith)
take-append_le (suc n) (x ∷ xs) ys h = ap (λ zs. x ∷ zs) (take-append_le n xs ys (omega arith))

drop-append_le : (n : ℕ) (xs ys : Bytes) → n ≤ length xs → drop n (xs ++ ys) ≡ drop n xs ++ ys
drop-append_le zero xs ys h = refl
drop-append_le (suc n) [] ys h = absurd (omega arith)
drop-append_le (suc n) (x ∷ xs) ys h = drop-append_le n xs ys (omega arith)

length-take : (n : ℕ) (xs : Bytes) → n ≤ length xs → length (take n xs) ≡ n
length-take zero xs h = refl
length-take (suc n) [] h = absurd (omega arith)
length-take (suc n) (x ∷ xs) h = ap suc (length-take n xs (omega arith))

NonZero-take : (n : ℕ) (xs : Bytes) → NonZero xs → NonZero (take n xs)
NonZero-take zero xs h = tt
NonZero-take (suc n) [] h = tt
NonZero-take (suc n) (x ∷ xs) h = (h.0, NonZero-take n xs h.1)

NonZero-drop : (n : ℕ) (xs : Bytes) → NonZero xs → NonZero (drop n xs)
NonZero-drop zero xs h = h
NonZero-drop (suc n) [] h = tt
NonZero-drop (suc n) (x ∷ xs) h = NonZero-drop n xs h.1

-- The pattern begins at a byte of the text.
strstrn-lt : (pattern xs : Bytes) (k : ℕ) → strstrn pattern (xs ++ 0 ∷ []) ≡ some k → k < length xs
unfolding strstrn
strstrn-lt pattern [] k e = ground arith
strstrn-lt pattern (x ∷ xs) zero e = omega arith
strstrn-lt pattern (x ∷ xs) (suc k) e = ground (arith, strstrn-lt pattern xs k)

-- The moved text stands in front of old bytes and the zero.
move-IsText :
    (d len : ℕ) (behind : Bytes) (size : ℕ)
    → IsText size behind
    → len + (d - 1) ≤ size
    → IsText size (move d len behind)
unfolding move
move-IsText d len behind size t h =
    let a = take len (drop (d - 1) t.text) in
    let b = drop len t.text in
    let rest = length-drop (d - 1) t.text in
    record {
      text = a ++ b;
      whole = rw t.whole (
          ap₂ (λ xs ys. take len xs ++ ys)
            (drop-append_le (d - 1) t.text (0 ∷ []) (omega (arith, t.size)))
            (drop-append_le len t.text (0 ∷ []) (omega (arith, t.size)))
          ∙ ap (λ xs. xs ++ (b ++ 0 ∷ []))
              (take-append_le len (drop (d - 1) t.text) (0 ∷ []) (omega (arith, t.size, rest)))
          ∙ sym (append_assoc a b (0 ∷ [])));
      bytes =
          All-append (λ b. 0 < b) a b
            (NonZero-take len (drop (d - 1) t.text) (NonZero-drop (d - 1) t.text t.bytes))
            (NonZero-drop len t.text t.bytes);
      size = omega (
        arith,
        length-append a b,
        t.size,
        rest,
        length-drop len t.text,
        length-take len (drop (d - 1) t.text) (omega (arith, t.size, rest)),
      );
    }

drop-IsText :
    (n : ℕ) (here : Bytes) (size : ℕ)
    → IsText size here
    → n ≤ size
    → IsText (size - n) (drop n here)
drop-IsText n here size t h = record {
  text = drop n t.text;
  whole = rw t.whole (drop-append_le n t.text (0 ∷ []) (omega (arith, t.size)));
  bytes = NonZero-drop n t.text t.bytes;
  size = omega (arith, length-drop n t.text, t.size);
}

prefix-IsText :
    (before here : Bytes) (size : ℕ)
    → NonZero before
    → IsText size here
    → IsText (length before + size) (before ++ here)
prefix-IsText before here size h t = record {
  text = before ++ t.text;
  whole = rw t.whole (sym (append_assoc before t.text (0 ∷ [])));
  bytes = All-append (λ b. 0 < b) before t.text h t.bytes;
  size = omega (arith, length-append before t.text, t.size);
}

-- The loop keeps the size of the memory, its zero at the end and no zero before it.
replace_loop-IsText :
    (fuel : ℕ) (pattern : Bytes) (c buf_len n : ℕ) (before here : Bytes) (size : ℕ)
    → 0 < c
    → 0 < length pattern
    → NonZero before
    → IsText size here
    → buf_len + n ≤ length before + size + n * length pattern
    → (n' : ℕ) (memory : Bytes)
    → replace_loop fuel pattern c buf_len n before here ≡ some (n', memory)
    → IsText (length before + size) memory
unfolding replace_loop
replace_loop-IsText zero pattern c buf_len n before here size pos some_pattern h t fits n' memory
      e =
    absurd (none-ne-some (n', memory) e)
replace_loop-IsText (suc fuel) pattern c buf_len n before here size pos some_pattern h t fits n'
      memory e =
    elim (Option-cases (strstrn pattern here)) [
      | inl missing ↦
          let same : some (n, before ++ here) ≡ some (n', memory) =
            rw (replace_loop, missing) at e in
          subst (IsText (length before + size))
            (ap (λ (r : ℕ × Bytes). r.1) (some-injective (n, before ++ here) (n', memory) same))
            (prefix-IsText before here size h t)
      | inr (k, found) ↦
          let p = length before + k in
          let taken = p + suc n * length pattern in
          let place : k < size = omega (
            arith,
            t.size,
            strstrn-lt pattern t.text k (ap (strstrn pattern) (sym t.whole) ∙ found),
          ) in
          let front = before ++ (take k here ++ c ∷ []) in
          let len = buf_len + n - taken in
          let behind = drop (suc k) here in
          elim (Bool-cases (ltb (buf_len + n) taken)) [
            | inl wrapped ↦
                absurd (none-ne-some (n', memory) (rw (replace_loop, found, wrapped) at e))
            | inr fine ↦
                let next = move (length pattern) len behind in
                let go : replace_loop fuel pattern c buf_len (suc n) front next
                    ≡ some (n', memory) =
                  rw (replace_loop, found, fine) at e in
                let start : take k here ≡ take k t.text =
                  ap (take k) t.whole
                  ∙ take-append_le k t.text (0 ∷ []) (omega (arith, place, t.size)) in
                let start_size : length (take k here) ≡ k =
                  ap length start ∙ length-take k t.text (omega (arith, place, t.size)) in
                let front_size : length front ≡ suc p = omega (
                  arith,
                  length-append before (take k here ++ c ∷ []),
                  length-append (take k here) (c ∷ []),
                  start_size,
                ) in
                let mul : suc n * length pattern ≡ length pattern + n * length pattern =
                  omega arith in
                let room : taken ≤ buf_len + n = ground (arith, fine) in
                let front_bytes : NonZero front =
                  All-append (λ b. 0 < b) before (take k here ++ c ∷ []) h
                    (All-append (λ b. 0 < b) (take k here) (c ∷ [])
                      (subst NonZero (sym start) (NonZero-take k t.text t.bytes)) (pos, tt)) in
                let moved =
                  move-IsText (length pattern) len behind (size - suc k)
                    (drop-IsText (suc k) here size t (omega (arith, place)))
                    (omega (arith, place, fits, mul, room, some_pattern)) in
                subst (λ i. IsText i memory) (omega (arith, front_size, place))
                  (replace_loop-IsText fuel pattern c buf_len (suc n) front next (size - suc k) pos
                    some_pattern front_bytes moved
                    (omega (arith, fits, mul, front_size, place, some_pattern)) n' memory go)
          ]
    ]

-- No byte of a text is 0 but the one that ends it.
get_or-IsText :
    (i len : ℕ) (memory : Bytes) → IsText len memory → i < len → (get_or memory i 0 == 0) ≡ false
get_or-IsText i len memory t h = rw t.whole (inside i t.text t.bytes (omega (arith, t.size, h)))
  where
    inside :
        (j : ℕ) (xs : Bytes) → NonZero xs → j < length xs → (get_or (xs ++ 0 ∷ []) j 0 == 0) ≡ false
    inside j [] z l = absurd (omega arith)
    inside zero (x ∷ xs) z l = ground (arith, z.0)
    inside (suc j) (x ∷ xs) z l = inside j xs z.1 (omega arith)

replace_strc-IsText :
    (buf buf' : Buffer) (pattern : Bytes) (c : ℕ)
    → 0 < c
    → 0 < length pattern
    → IsText buf.len buf.memory
    → replace_strc buf pattern c ≡ some (ok, buf')
    → IsText buf.len buf'.memory
unfolding replace_strc
replace_strc-IsText buf buf' pattern c pos some_pattern t e =
    elim (Bool-cases (get_or buf.memory buf.len 0 == 0)) [
      | inr open_end ↦
          let same = some-injective (error, buf) (ok, buf') (rw (replace_strc, open_end) at e) in
          absurd (ground (arith, ap (λ (r : Status × Buffer). r.0) same))
      | inl closed ↦
          let run = replace_loop (suc (length buf.memory)) pattern c buf.len 0 [] buf.memory in
          elim (Option-cases run) [
            | inl stopped ↦
                absurd (none-ne-some (ok, buf') (rw (replace_strc, closed, stopped) at e))
            | inr ((n, memory), ran) ↦
                let after : Buffer = record {
                  memory = memory;
                  len = buf.len + n - n * length pattern;
                } in
                let same =
                  some-injective (ok, after) (ok, buf') (rw (replace_strc, closed, ran) at e) in
                let kept =
                  replace_loop-IsText (suc (length buf.memory)) pattern c buf.len 0 [] buf.memory
                    buf.len pos some_pattern tt t (omega arith) n memory ran in
                subst (IsText buf.len) (ap (λ (r : Status × Buffer). r.1.memory) same)
                  (subst (λ i. IsText i memory) (omega arith) kept)
          ]
    ]

-- A second replacement after one that made the text shorter is refused, and changes nothing: the
-- terminating zero was left where it was. This is for a buffer that holds a text without a zero byte,
-- and its zero, for a first pattern that is not empty, and for a first replacement by another byte
-- than 0.
pub replace_strc-again :
    (buf buf' : Buffer) (pattern pattern' : Bytes) (c c' : ℕ)
    → 0 < c
    → 0 < length pattern
    → IsText buf.len buf.memory
    → replace_strc buf pattern c ≡ some (ok, buf')
    → buf'.len < buf.len
    → replace_strc buf' pattern' c' ≡ some (error, buf')
unfolding replace_strc
replace_strc-again buf buf' pattern pattern' c c' pos some_pattern t e shorter =
    let after = replace_strc-IsText buf buf' pattern c pos some_pattern t e in
    rw (replace_strc, get_or-IsText buf'.len buf.len buf'.memory after shorter) refl

-- A text without the pattern stays as it is.
pub replace_strc-missing :
    (buf : Buffer) (pattern : Bytes) (c : ℕ)
    → get_or buf.memory buf.len 0 ≡ 0
    → strstrn pattern buf.memory ≡ none
    → replace_strc buf pattern c ≡ some (ok, buf)
unfolding replace_strc replace_loop
replace_strc-missing buf pattern c closed missing =
    rw (replace_strc, closed, replace_loop, missing)
      (ap (λ n. some (ok, record { memory = buf.memory; len = n })) (omega arith))
