-- ===== src/Text/Escape.antt =====
-- `escape_json` of ngx_metric_module/src/ngx_http_vhost_traffic_status_string.c against a reader
-- of JSON strings.
use metrics_server_example.Base.{
  ℕ, zero, suc, ◌+◌, ◌-◌, ◌*◌, ◌/◌, ◌%◌, ◌≤◌, ◌≡◌, inl, inr, true, false, ◌||◌, Option, none, some,
  [], ◌∷◌, ◌++◌, append_assoc, append-nil, arith, leb, ltb, ◌==◌, if◌then◌else◌, Bool-cases, ap,
  length, length-append,
}
use metrics_server_example.Text.{
  Bytes, backslash, quote, hex_digit, escape_char, escape_json, escape_json_len, count_char,
}
use mathlib.Core.Option

-- Where a reader of the characters of a JSON string stands: between characters, behind a
-- backslash, or inside `\u`, with the digits left after the next one and the value so far.
data Mode : Type 0 where
  plain escaped : Mode
  hex : ℕ → ℕ → Mode

hex_value : ℕ → ℕ
hex_value c = if leb c b'9' then c - b'0' else c - b'A' + 10

-- Reads the text of a JSON string (RFC 8259, section 7, less the escapes that are not written
-- here); `none` where it is malformed.
read : Mode → Bytes → Option Bytes
unfolding hex_value
read plain [] = some []
read escaped [] = none
read (hex n acc) [] = none
read plain (c ∷ cs) = elim (c == backslash) [
  | true ↦ read escaped cs
  | false ↦ elim (leb c 0x1f || (c == quote)) [
    | true ↦ none
    | false ↦ Option.map (λ r. c ∷ r) (read plain cs)
  ]
]
read escaped (c ∷ cs) = elim (c == b'u') [
  | true ↦ read (hex 3 0) cs
  | false ↦ elim ((c == backslash) || (c == quote)) [
    | true ↦ Option.map (λ r. c ∷ r) (read plain cs)
    | false ↦ none
  ]
]
read (hex zero acc) (c ∷ cs) = Option.map (λ r. (acc * 16 + hex_value c) ∷ r) (read plain cs)
read (hex (suc n) acc) (c ∷ cs) = read (hex n (acc * 16 + hex_value c)) cs

pub unescape : Bytes → Option Bytes
unfolding read
unescape = read plain

-- The two digits of a control byte give the byte back.
nibbles :
    (ch : ℕ)
    → ltb 0x1f ch ≡ false
    → (0 + hex_value (b'0' + ch / 16)) * 16 + hex_value (hex_digit (ch % 16)) ≡ ch
unfolding hex_value hex_digit
nibbles ch h = ground arith

read-escape_char :
    (ch : ℕ) (rest : Bytes)
    → read plain (escape_char ch ++ rest) ≡ Option.map (λ r. ch ∷ r) (read plain rest)
unfolding escape_char read
read-escape_char ch rest = elim (Bool-cases (ltb 0x1f ch)) [
  | inl high ↦ ground arith
  | inr low ↦ rw low (ap (λ v. Option.map (λ r. v ∷ r) (read plain rest)) (nibbles ch low))
]

-- The reader gets back every byte sequence, whatever follows it.
read-escape_json :
    (src rest : Bytes)
    → read plain (escape_json src ++ rest) ≡ Option.map (λ r. src ++ r) (read plain rest)
unfolding escape_json
read-escape_json [] rest = ground arith
read-escape_json (ch ∷ src) rest =
    rw
      (append_assoc (escape_char ch) (escape_json src) rest, read-escape_char, read-escape_json src)
      (Option.map-map _ _ (read plain rest))

-- A JSON reader gets back exactly the bytes that were escaped: what `escape_json` writes is the
-- text of a well-formed JSON string, and no two byte sequences are written alike.
pub unescape-escape_json : (src : Bytes) → unescape (escape_json src) ≡ some src
unfolding unescape
unescape-escape_json src =
    rw (append-nil (escape_json src), append-nil src) at (read-escape_json src [])

-- What a byte becomes is one byte and what the count grows by.
length-escape_char :
    (len ch : ℕ)
    → (length (escape_char ch) + len ≡ suc (count_char len ch)) × (length (escape_char ch) ≤ 6)
unfolding escape_char count_char
length-escape_char len ch = ground arith

escape_json_len-add :
    (len : ℕ) (src : Bytes) → length (escape_json src) + len ≡ length src + escape_json_len len src
unfolding escape_json escape_json_len
escape_json_len-add len [] = omega arith
escape_json_len-add len (ch ∷ src) = omega (
  arith,
  length-append (escape_char ch) (escape_json src),
  (length-escape_char len ch).0,
  escape_json_len-add (count_char len ch) src,
)

pub length-escape_json-le : (src : Bytes) → length (escape_json src) ≤ length src * 6
unfolding escape_json
length-escape_json-le [] = omega arith
length-escape_json-le (ch ∷ src) = omega (
  arith,
  length-append (escape_char ch) (escape_json src),
  (length-escape_char 0 ch).1,
  length-escape_json-le src,
)

-- The count that `escape_json` gives with no destination is what the text grows by, and no byte
-- becomes more than six.
pub length-escape_json :
    (src : Bytes)
    → (length (escape_json src) ≡ length src + escape_json_len 0 src)
      × (length (escape_json src) ≤ length src * 6)
length-escape_json src = (omega (arith, escape_json_len-add 0 src), length-escape_json-le src)
