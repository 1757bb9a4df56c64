-- ===== src/Page/Formats.antt =====
-- Which format the text of a request names: the loop of `display_handler_default` in
-- ngx_metric_module/src/ngx_http_vhost_traffic_status_display.c.
use mathlib.Core.Path.{subst}
use mathlib.Core.Option.{none-ne-some}
use metrics_server_example.Base.{
  ℕ, zero, suc, ◌+◌, ◌-◌, ◌≡◌, ◌<◌, refl, ap, sym, ◌∙◌, inl, inr, ◌&&◌, true, false, Option, none,
  some, [], ◌∷◌, ◌++◌, arith, leb, ◌==◌, if◌then◌else◌, length, take, drop, All, Bool-cases,
  Option-cases,
}
use metrics_server_example.Text.{Bytes, strncmp_eq}
use metrics_server_example.RequestKeys.{strncasecmp_eq}
use metrics_server_example.SetFilter.Argument.{strchr}
use metrics_server_example.Page.{
  PageFormat, format_text, formats, named_format, format_loop, find_format,
}
use metrics_server_example.Page.Places.{
  format_at, first_format, first_format-short, first_format-step, first_format-skip,
  first_format-word, strchr-split, strchr-none,
}

All-take-append :
    (n : ℕ) (part rest : Bytes)
    → All (λ b. 0 < b) (take n (part ++ rest))
    → All (λ b. 0 < b) (take (n - length part) rest)
All-take-append n [] rest h =
    subst (λ k. All (λ b. 0 < b) (take k rest)) (let same : n ≡ n - 0 = omega arith in same) h
All-take-append zero (b ∷ bs) rest h =
    subst (λ k. All (λ x. 0 < x) (take k rest))
      (let same : 0 ≡ zero - length (b ∷ bs) = omega arith in same) tt
All-take-append (suc n) (b ∷ bs) rest h =
    subst (λ k. All (λ x. 0 < x) (take k rest))
      (let same : n - length bs ≡ suc n - length (b ∷ bs) = omega arith in same)
      (All-take-append n bs rest h.1)

-- The result of the loop where the first format is known.
abbrev pub loop_result : Option (PageFormat × ℕ) → ℕ → Option PageFormat × ℕ
loop_result none uri = (none, uri)
loop_result (some r) uri = (some r.0, r.1)

-- What the loop promises at a place.
abbrev Finds : ℕ → ℕ → Bytes → Option (Option PageFormat × ℕ) → Type 0
Finds len s rest result = (uri : ℕ) × (result ≡ some (loop_result (first_format len s rest) uri))

-- The search for the next slash.
abbrev next_place : ℕ → ℕ → ℕ → Bytes → ℕ → Option (Option PageFormat × ℕ)
next_place n len s rest uri = elim (strchr b'/' (drop 1 rest)) [
  | none ↦ some (none, uri)
  | some (part, behind) ↦ elim (leb len (s + 1 + length part)) [
    | true ↦ some (none, uri)
    | false ↦ format_loop n len (s + 1 + length part) (b'/' ∷ behind) uri
  ]
]

next_place-Finds :
    (n len s : ℕ) (rest : Bytes) (uri : ℕ)
    → All (λ b. 0 < b) (take (len - (s + 1)) (drop 1 rest))
    → ((s' : ℕ) (rest' : Bytes)
        → s < s'
        → s' < len
        → All (λ b. 0 < b) (take (len - s') rest')
        → Finds len s' rest' (format_loop n len s' rest' uri))
    → Finds len (s + 1) (drop 1 rest) (next_place n len s rest uri)
next_place-Finds n len s rest uri nonzero loop = elim (Option-cases (strchr b'/' (drop 1 rest))) [
  | inl e ↦
      let missing = strchr-none len (s + 1) (drop 1 rest) e nonzero in
      (uri, rw (next_place, e, missing) refl)
  | inr (r, e) ↦
      let (whole, others) = strchr-split (drop 1 rest) r.0 r.1 e in
      let at = s + 1 + length r.0 in
      let behind : Bytes = b'/' ∷ r.1 in
      let skipped : first_format len (s + 1) (drop 1 rest) ≡ first_format len at behind =
        ap (first_format len (s + 1)) whole ∙ first_format-skip len (s + 1) r.0 behind others in
      elim (Bool-cases (leb len at)) [
        | inl over ↦
            let short : leb 12 (len - at) ≡ false = ground (arith, over) in
            (uri, rw (next_place, e, over, skipped, first_format-short len at behind short) refl)
        | inr more ↦
            let positive =
              All-take-append (len - (s + 1)) r.0 behind
                (subst (λ x. All (λ b. 0 < b) (take (len - (s + 1)) x)) whole nonzero) in
            let left : len - (s + 1) - length r.0 ≡ len - at = omega arith in
            let (uri', run) =
              loop at behind (omega arith) (ground (arith, more))
                (subst (λ k. All (λ b. 0 < b) (take k behind)) left positive) in
            (uri', rw (next_place, e, more, skipped) run)
      ]
]

All-take-nil : (n : ℕ) → All (λ b. 0 < b) (take n [])
All-take-nil zero = tt
All-take-nil (suc n) = tt

All-take-drop :
    (n k : ℕ) (rest : Bytes)
    → All (λ b. 0 < b) (take n rest)
    → All (λ b. 0 < b) (take (n - k) (drop k rest))
All-take-drop n zero rest h =
    subst (λ i. All (λ b. 0 < b) (take i rest)) (let same : n ≡ n - 0 = omega arith in same) h
All-take-drop n (suc k) [] h = All-take-nil (n - suc k)
All-take-drop zero (suc k) (b ∷ bs) h =
    subst (λ i. All (λ x. 0 < x) (take i (drop k bs)))
      (let same : 0 ≡ zero - suc k = omega arith in same) tt
All-take-drop (suc n) (suc k) (b ∷ bs) h =
    subst (λ i. All (λ x. 0 < x) (take i (drop k bs)))
      (let same : n - k ≡ suc n - suc k = omega arith in same) (All-take-drop n k bs h.1)

drop-suc : (n : ℕ) (xs : Bytes) → drop (suc n) xs ≡ drop 1 (drop n xs)
drop-suc zero [] = refl
drop-suc zero (x ∷ xs) = refl
drop-suc (suc n) [] = refl
drop-suc (suc n) (x ∷ xs) = drop-suc n xs

-- The place where a format is named.
first_format-here :
    (len s : ℕ) (rest : Bytes) (f : PageFormat)
    → leb 12 (len - s) ≡ true
    → format_at rest ≡ some f
    → first_format len s rest ≡ some (f, s)
unfolding first_format
first_format-here len s [] f e h = absurd (none-ne-some f (unfold format_at strncasecmp_eq in h))
first_format-here len s (b ∷ bs) f e h = rw (first_format, e, h) refl

-- Behind `/format/` without a name that is known, its letters are skipped.
first_format-unnamed :
    (len s : ℕ) (rest : Bytes)
    → strncasecmp_eq format_text rest ≡ true
    → first_format len (s + 1) (drop 1 rest) ≡ first_format len (s + 6 + 1) (drop 1 (drop 6 rest))
unfolding strncasecmp_eq
first_format-unnamed len s [] h = ground (arith, h)
first_format-unnamed len s (y ∷ ys) h =
    let word : Bytes = b'f' ∷ b'o' ∷ b'r' ∷ b'm' ∷ b'a' ∷ b't' ∷ [] in
    let agree : strncasecmp_eq (word ++ b'/' ∷ []) ys ≡ true = ground (arith, h) in
    let moved : s + 1 + length word ≡ s + 6 + 1 = omega arith in
    first_format-word len (s + 1) word (b'/' ∷ []) ys (omega arith) agree
    ∙ ap (λ k. first_format len k (drop 6 ys)) moved
    ∙ ap (first_format len (s + 6 + 1)) (drop-suc 5 ys)

format_loop-Finds :
    (n len s : ℕ) (rest : Bytes) (uri : ℕ)
    → len - s < n
    → All (λ b. 0 < b) (take (len - s) rest)
    → Finds len s rest (format_loop n len s rest uri)
unfolding format_loop format_at
format_loop-Finds zero len s rest uri fuel nonzero = absurd (omega (arith, fuel))
format_loop-Finds (suc n) len s rest uri fuel nonzero =
    let loop : (s' : ℕ) (rest' : Bytes)
        → s < s'
        → s' < len
        → All (λ b. 0 < b) (take (len - s') rest')
        → (uri' : ℕ) → Finds len s' rest' (format_loop n len s' rest' uri') =
      λ s' rest' later inside positive uri'.
        format_loop-Finds n len s' rest' uri' (omega (arith, fuel, later, inside)) positive in
    elim (Bool-cases (leb 12 (len - s))) [
      | inr e ↦ (uri, rw (format_loop, e, first_format-short len s rest e) refl)
      | inl e ↦ elim (Bool-cases (strncasecmp_eq format_text rest)) [
        | inr miss ↦
            let none_here : format_at rest ≡ none = rw miss refl in
            let left : len - s - 1 ≡ len - (s + 1) = omega arith in
            let positive =
              subst (λ k. All (λ b. 0 < b) (take k (drop 1 rest))) left
                (All-take-drop (len - s) 1 rest nonzero) in
            let (uri', run) =
              next_place-Finds n len s rest uri positive
                (λ s' rest' later inside h. loop s' rest' later inside h uri) in
            let opened : format_loop (suc n) len s rest uri ≡ next_place n len s rest uri =
              rw (format_loop, e, miss) refl in
            (
              uri',
              opened
                  ∙ run
                  ∙ ap (λ r. some (loop_result r uri'))
                      (sym (first_format-step len s rest none_here)),
            )
        | inl hit ↦ elim (Option-cases (named_format formats (drop 8 rest))) [
          | inr (f, named) ↦
              let here : format_at rest ≡ some f = rw (format_at, hit, named) refl in
              let opened : format_loop (suc n) len s rest uri ≡ some (some f, s) =
                rw (format_loop, e, hit, named) refl in
              (
                uri,
                opened
                    ∙ ap (λ r. some (loop_result r uri))
                        (sym (first_format-here len s rest f e here)),
              )
          | inl unnamed ↦
              let none_here : format_at rest ≡ none = rw (format_at, hit, unnamed) refl in
              let left : len - s - 7 ≡ len - (s + 6 + 1) = omega arith in
              let positive =
                subst (λ xs. All (λ b. 0 < b) (take (len - (s + 6 + 1)) xs)) (drop-suc 6 rest)
                  (subst (λ k. All (λ b. 0 < b) (take k (drop 7 rest))) left
                    (All-take-drop (len - s) 7 rest nonzero)) in
              let (uri', run) =
                next_place-Finds n len (s + 6) (drop 6 rest) s positive
                  (λ s' rest' later inside h. loop s' rest' (omega (arith, later)) inside h s) in
              let opened : format_loop (suc n) len s rest uri
                  ≡ next_place n len (s + 6) (drop 6 rest) s =
                rw (format_loop, e, hit, unnamed) refl in
              let skipped : first_format len s rest
                  ≡ first_format len (s + 6 + 1) (drop 1 (drop 6 rest)) =
                first_format-step len s rest none_here ∙ first_format-unnamed len s rest hit in
              (uri', opened ∙ run ∙ ap (λ r. some (loop_result r uri')) (sym skipped))
        ]
      ]
    ]

-- The format and the text of the page, where the first format in the text is known.
abbrev pub page_result : PageFormat → Bytes → Option (PageFormat × ℕ) → ℕ → PageFormat × Bytes
page_result preset memory none uri = (preset, take uri memory)
page_result preset memory (some r) uri = (r.0, take r.1 memory)

-- What `find_format` makes of the result of the loop.
abbrev after_loop :
    PageFormat → Bytes → Option (Option PageFormat × ℕ) → Option (PageFormat × Bytes)
after_loop preset memory none = none
after_loop preset memory (some (none, uri)) = some (preset, take uri memory)
after_loop preset memory (some (some f, uri)) = some (f, take uri memory)

after_loop-page_result :
    (preset : PageFormat) (memory : Bytes) (r : Option (PageFormat × ℕ)) (uri : ℕ)
    → after_loop preset memory (some (loop_result r uri)) ≡ some (page_result preset memory r uri)
after_loop-page_result preset memory none uri = refl
after_loop-page_result preset memory (some r) uri = refl

-- On a text without zeros the search for a format ends. It finds the first place of the text at which
-- `/format/` and the name of a format stand, in any case and with twelve bytes of the text from there
-- on; the text of the page is then what stands in front. Where there is no such place, the format is that
-- of the configuration. The search goes from slash to slash, and behind a `/format/` without a
-- known name from its last slash on.
pub find_format_lem :
    (preset : PageFormat) (memory : Bytes) (len : ℕ)
    → All (λ b. 0 < b) (take len memory)
    → (uri : ℕ) × (find_format preset memory len
        ≡ some (page_result preset memory (first_format len 0 memory) uri))
unfolding find_format
find_format_lem preset memory len nonzero =
    let whole : ℕ = if len == 1 && strncmp_eq 1 memory (b'/' ∷ []) then 0 else len in
    let same : len ≡ len - 0 = omega arith in
    let (uri, run) =
      format_loop-Finds (len + 1) len 0 memory whole (omega arith)
        (subst (λ k. All (λ b. 0 < b) (take k memory)) same nonzero) in
    (
      uri,
      ap (after_loop preset memory) run
          ∙ after_loop-page_result preset memory (first_format len 0 memory) uri,
    )
