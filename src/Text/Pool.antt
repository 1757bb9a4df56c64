-- ===== src/Text/Pool.antt =====
-- `escape_json_pool` of ngx_metric_module/src/ngx_http_vhost_traffic_status_string.c and the
-- length that `ngx_strlen` gives its buffer.
use metrics_server_example.Base.{
  All-append, ℕ, zero, suc, ◌+◌, ◌-◌, ◌*◌, ◌<◌, ◌≡◌, refl, ap, inl, inr, Bool, true, false, ◌||◌,
  none, some, [], ◌∷◌, ◌++◌, append-nil, arith, ltb, if◌then◌else◌, Bool-cases, length,
  length-append, All, replicate,
}
use metrics_server_example.Text.{
  Bytes, escape_char, hex_digit, escape_json, strlen, escape_json_pool,
}
use metrics_server_example.Text.Escape.{length-escape_json-le}
use mathlib.Core.Option

-- Some byte is above 0x1f, so that it is not written as `\u00..`.
unfoldable pub has_printable : Bytes → Bool
has_printable [] = false
has_printable (b ∷ bs) = ltb 0x1f b || has_printable bs

abbrev NonZero : ℕ → Type 0
NonZero b = 0 < b

escape_char-NonZero : (ch : ℕ) → All NonZero (escape_char ch)
unfolding escape_char hex_digit
escape_char-NonZero ch = ground arith

escape_json-NonZero : (src : Bytes) → All NonZero (escape_json src)
unfolding escape_json
escape_json-NonZero [] = tt
escape_json-NonZero (ch ∷ src) =
    All-append NonZero (escape_char ch) (escape_json src) (escape_char-NonZero ch)
      (escape_json-NonZero src)

strlen-append :
    (xs ys : Bytes)
    → All NonZero xs
    → strlen (xs ++ ys) ≡ Option.map (λ n. length xs + n) (strlen ys)
unfolding strlen
strlen-append [] ys h = ground arith
strlen-append (x ∷ xs) ys h = ground (arith, strlen-append xs ys h.1)

escape_char-length :
    (ch : ℕ)
    → (ltb 0x1f ch ≡ true → length (escape_char ch) < 6)
      × (ltb 0x1f ch ≡ false → length (escape_char ch) ≡ 6)
unfolding escape_char
escape_char-length ch = (λ h. ground arith, λ h. ground arith)

length-escape_json-lt :
    (src : Bytes) → has_printable src ≡ true → length (escape_json src) < length src * 6
unfolding escape_json has_printable
length-escape_json-lt [] h = cc
length-escape_json-lt (ch ∷ src) h = ground (
  arith,
  length-append (escape_char ch) (escape_json src),
  escape_char-length ch,
  length-escape_json-le src,
  length-escape_json-lt src,
)

length-escape_json-eq :
    (src : Bytes) → has_printable src ≡ false → length (escape_json src) ≡ length src * 6
unfolding escape_json has_printable
length-escape_json-eq [] h = omega arith
length-escape_json-eq (ch ∷ src) h = ground (
  arith,
  length-append (escape_char ch) (escape_json src),
  escape_char-length ch,
  length-escape_json-eq src,
)

strlen-replicate : (n : ℕ) → 0 < n → strlen (replicate n 0) ≡ some 0
unfolding strlen
strlen-replicate zero h = absurd (omega arith)
strlen-replicate (suc n) h = refl

strlen-NonZero : (xs : Bytes) → All NonZero xs → strlen xs ≡ none
unfolding strlen
strlen-NonZero [] h = refl
strlen-NonZero (x ∷ xs) h = ground (arith, strlen-NonZero xs h.1)

-- The buffer of `escape_json_pool` is measured right exactly when some byte of the source is above
-- 0x1f: then the length is that of the escaped text. Otherwise the text fills the six bytes that
-- each source byte was given, the buffer holds no zero, and `ngx_strlen` reads past its end.
pub escape_json_pool-measures :
    (src : Bytes)
    → (escape_json_pool true src).1.len
      ≡ (if has_printable src then some (length (escape_json src)) else none)
unfolding escape_json_pool
escape_json_pool-measures src = elim (Bool-cases (has_printable src)) [
  | inl h ↦
      let spare : 0 < length src * 6 - length (escape_json src) =
        omega (arith, length-escape_json-lt src h) in
      rw (strlen-append (escape_json src) _ (escape_json-NonZero src), strlen-replicate _ spare, h)
        (ap some (omega arith))
  | inr h ↦
      let full : length src * 6 - length (escape_json src) ≡ 0 =
        omega (arith, length-escape_json-eq src h) in
      rw (full, append-nil (escape_json src), h)
        (strlen-NonZero (escape_json src) (escape_json-NonZero src))
]
