-- ===== src/Page/Places.antt =====
-- Where the text of a request names a format: the tests of the loop of `display_handler_default` in
-- ngx_metric_module/src/ngx_http_vhost_traffic_status_display.c.
use mathlib.Core.Path.{subst}
use mathlib.Core.Option.{none-ne-some, some-injective}
use metrics_server_example.Base.{
  ℕ, suc, ◌+◌, ◌-◌, ◌≡◌, ◌≢◌, ◌≤◌, ◌<◌, refl, ap, sym, ◌∙◌, inl, inr, ◌&&◌, true, false, Option,
  none, some, [], ◌∷◌, ◌++◌, arith, leb, ◌==◌, ==→eq, if◌then◌else◌, length, take, drop, All,
  Bool-cases, Option-cases,
}
use metrics_server_example.Text.{Bytes}
use metrics_server_example.RequestKeys.{strncasecmp_eq}
use metrics_server_example.SetFilter.Argument.{strchr}
use metrics_server_example.Page.{PageFormat, format_text, formats, named_format}

-- A format that is named at a place: `/format/` and a name in any case.
unfoldable pub format_at : Bytes → Option PageFormat
unfolding strncasecmp_eq named_format
format_at rest =
    if strncasecmp_eq format_text rest then named_format formats (drop 8 rest) else none

-- The first place of a text at which a format is named, with twelve bytes of the text from there on.
unfoldable pub first_format : ℕ → ℕ → Bytes → Option (PageFormat × ℕ)
unfolding format_at
first_format len s [] = none
first_format len s (b ∷ bs) = elim (leb 12 (len - s)) [
  | false ↦ none
  | true ↦ elim (format_at (b ∷ bs)) [ some f ↦ some (f, s) | none ↦ first_format len (s + 1) bs ]
]

-- No format is named at a byte other than a slash.
format_at-other : (b : ℕ) (bs : Bytes) → (b ≢ b'/') → format_at (b ∷ bs) ≡ none
unfolding format_at strncasecmp_eq
format_at-other b bs h =
    let miss : (b'/' == (if leb b'A' b && leb b b'Z' then b + 32 else b)) ≡ false =
      ground (arith, h) in
    rw miss refl

-- None is named with less than twelve bytes of the text.
pub first_format-short :
    (len s : ℕ) (rest : Bytes) → leb 12 (len - s) ≡ false → first_format len s rest ≡ none
unfolding first_format
first_format-short len s [] h = refl
first_format-short len s (b ∷ bs) h = rw (first_format, h) refl

-- A place at which none is named is skipped.
pub first_format-step :
    (len s : ℕ) (rest : Bytes)
    → format_at rest ≡ none
    → first_format len s rest ≡ first_format len (s + 1) (drop 1 rest)
unfolding first_format
first_format-step len s [] h = refl
first_format-step len s (b ∷ bs) h = elim (Bool-cases (leb 12 (len - s))) [
  | inl e ↦ rw (first_format, e, h) refl
  | inr e ↦
      let short : leb 12 (len - (s + 1)) ≡ false = ground (arith, e) in
      first_format-short len s (b ∷ bs) e ∙ sym (first_format-short len (s + 1) bs short)
]

-- Bytes other than a slash are skipped.
pub first_format-skip :
    (len s : ℕ) (part rest : Bytes)
    → All (λ b. b ≢ b'/') part
    → first_format len s (part ++ rest) ≡ first_format len (s + length part) rest
first_format-skip len s [] rest h =
    ap (λ k. first_format len k rest) (let same : s ≡ s + 0 = omega arith in same)
first_format-skip len s (b ∷ bs) rest h =
    let moved : s + 1 + length bs ≡ s + length (b ∷ bs) = omega arith in
    first_format-step len s (b ∷ (bs ++ rest)) (format_at-other b (bs ++ rest) h.0)
    ∙ first_format-skip len (s + 1) bs rest h.1
    ∙ ap (λ k. first_format len k rest) moved

-- Letters are skipped where a word of them agrees.
pub first_format-word :
    (len s : ℕ) (word more rest : Bytes)
    → All (λ c. (b'a' ≤ c) × (c ≤ b'z')) word
    → strncasecmp_eq (word ++ more) rest ≡ true
    → first_format len s rest ≡ first_format len (s + length word) (drop (length word) rest)
unfolding strncasecmp_eq
first_format-word len s [] more rest letters h =
    ap (λ k. first_format len k rest) (let same : s ≡ s + 0 = omega arith in same)
first_format-word len s (x ∷ xs) more [] letters h = ground (arith, h)
first_format-word len s (x ∷ xs) more (y ∷ ys) letters h =
    let other : y ≢ b'/' = ground (arith, h, letters.0) in
    let agree : strncasecmp_eq (xs ++ more) ys ≡ true = ground (arith, h, letters.0) in
    let moved : s + 1 + length xs ≡ s + length (x ∷ xs) = omega arith in
    first_format-step len s (y ∷ ys) (format_at-other y ys other)
    ∙ first_format-word len (s + 1) xs more ys letters.1 agree
    ∙ ap (λ k. first_format len k (drop (length xs) ys)) moved

-- The text in front of a slash.
pub strchr-split :
    (rest part behind : Bytes)
    → strchr b'/' rest ≡ some (part, behind)
    → (rest ≡ part ++ b'/' ∷ behind) × All (λ b. b ≢ b'/') part
unfolding strchr
strchr-split [] part behind h = absurd (none-ne-some (part, behind) h)
strchr-split (b ∷ bs) part behind h = elim (Bool-cases (b == b'/')) [
  | inl e ↦
      let here : strchr b'/' (b ∷ bs) ≡ some ([], bs) = rw e refl in
      let same : ([], bs) ≡ (part, behind) = some-injective _ _ (sym here ∙ h) in
      let slash : b ≡ b'/' = ==→eq b b'/' e in
      subst (λ (p : Bytes × Bytes). (b ∷ bs ≡ p.0 ++ b'/' ∷ p.1) × All (λ x. x ≢ b'/') p.0) same
        (ap (λ x. x ∷ bs) slash, tt)
  | inr other ↦ elim (Bool-cases (b == 0)) [
    | inl e ↦
        let here : strchr b'/' (b ∷ bs) ≡ none = rw (other, e) refl in
        absurd (none-ne-some (part, behind) (sym here ∙ h))
    | inr nonzero ↦ elim (Option-cases (strchr b'/' bs)) [
      | inl e ↦
          let here : strchr b'/' (b ∷ bs) ≡ none = rw (other, nonzero, strchr, e) refl in
          absurd (none-ne-some (part, behind) (sym here ∙ h))
      | inr (r, e) ↦
          let here : strchr b'/' (b ∷ bs) ≡ some (b ∷ r.0, r.1) =
            rw (other, nonzero, strchr, e) refl in
          let differs : b ≢ b'/' = ground (arith, other) in
          let rest = strchr-split bs r.0 r.1 e in
          let same : (b ∷ r.0, r.1) ≡ (part, behind) = some-injective _ _ (sym here ∙ h) in
          subst (λ (p : Bytes × Bytes). (b ∷ bs ≡ p.0 ++ b'/' ∷ p.1) × All (λ x. x ≢ b'/') p.0) same
            (ap (λ x. b ∷ x) rest.0, (differs, rest.1))
    ]
  ]
]

-- Without a slash up to a zero, none is named in a text without zeros.
pub strchr-none :
    (len s : ℕ) (rest : Bytes)
    → strchr b'/' rest ≡ none
    → All (λ b. 0 < b) (take (len - s) rest)
    → first_format len s rest ≡ none
unfolding strchr first_format
strchr-none len s [] h nonzero = refl
strchr-none len s (b ∷ bs) h nonzero = elim (Bool-cases (leb 12 (len - s))) [
  | inr e ↦ first_format-short len s (b ∷ bs) e
  | inl e ↦
      let left : len - s ≡ suc (len - (s + 1)) = ground (arith, e) in
      let positive = subst (λ n. All (λ x. 0 < x) (take n (b ∷ bs))) left nonzero in
      let differs : b ≢ b'/' = ground (arith, h) in
      let none_behind : strchr b'/' bs ≡ none = ground (arith, h, positive.0) in
      first_format-step len s (b ∷ bs) (format_at-other b bs differs)
      ∙ strchr-none len (s + 1) bs none_behind positive.1
]
