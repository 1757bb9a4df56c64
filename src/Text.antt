-- ===== src/Text.antt =====
-- ngx_metric_module/src/ngx_http_vhost_traffic_status_string.c. A text is the list of its bytes,
-- and `ngx_pcalloc` is its outcome: whether it gave memory.
pub mod Escape
pub mod Pool
pub mod Replace
pub mod Replaced
use metrics_server_example.Base.{
  ◌≡◌, ◌⊎◌, inl, inr, refl, ℕ, zero, suc, ◌+◌, ◌-◌, ◌*◌, ◌/◌, ◌%◌, Bool, true, false, ◌||◌, ◌&&◌,
  Option, none, some, List, [], ◌∷◌, ◌++◌, leb, ltb, ◌==◌, if◌then◌else◌, length, replicate,
}

abbrev pub Bytes : Type 0
Bytes = List ℕ

-- `NGX_OK` and `NGX_ERROR`.
pub data Status : Type 0 where
  ok error : Status

pub Status-cases : (s : Status) → (s ≡ ok) ⊎ (s ≡ error)
Status-cases ok = inl refl
Status-cases error = inr refl

abbrev pub backslash : ℕ
backslash = 0x5c

abbrev pub quote : ℕ
quote = 0x22

-- `(ch < 10) ? ('0' + ch) : ('A' + ch - 10)`
unfoldable pub hex_digit : ℕ → ℕ
hex_digit n = if ltb n 10 then b'0' + n else b'A' + n - 10

-- What one round of the loop of `escape_json` writes.
unfoldable pub escape_char : ℕ → Bytes
unfolding hex_digit
escape_char ch =
    if ltb 0x1f ch
    then (if (ch == backslash) || (ch == quote) then backslash ∷ ch ∷ [] else ch ∷ [])
    else backslash ∷ b'u' ∷ b'0' ∷ b'0' ∷ (b'0' + ch / 16) ∷ hex_digit (ch % 16) ∷ []

-- `escape_json` with a destination: the bytes that it writes there.
unfoldable pub escape_json : Bytes → Bytes
unfolding escape_char
escape_json [] = []
escape_json (ch ∷ src) = escape_char ch ++ escape_json src

-- One round of the counting loop of `escape_json`.
unfoldable pub count_char : ℕ → ℕ → ℕ
count_char len ch =
    if (ch == backslash) || (ch == quote) then len + 1 else (if leb ch 0x1f then len + 5 else len)

-- `escape_json` with no destination: the count `len` of extra bytes.
unfoldable pub escape_json_len : ℕ → Bytes → ℕ
unfolding count_char
escape_json_len len [] = len
escape_json_len len (ch ∷ src) = escape_json_len (count_char len ch) src

-- `ngx_strlen`: the bytes before the first zero, `none` if the memory at hand holds no zero.
unfoldable pub strlen : Bytes → Option ℕ
strlen [] = none
strlen (b ∷ bs) =
    let rest = strlen bs in
    if b == 0 then some 0 else elim rest [ none ↦ none | some n ↦ some (suc n) ]

-- The `ngx_str_t` that a function leaves behind: a length over the memory that `data` points to.
pub record Str : Type 0 where
  pub len : Option ℕ
  pub memory : Bytes

abbrev pub of_bytes : Bytes → Str
of_bytes bs = record { len = some (length bs); memory = bs }

-- `escape_json_pool` with its own `escape_json` (nginx before 1.7.9): the buffer is zeroed, holds
-- six bytes for each byte of `dst`, and is measured by `ngx_strlen`.
unfoldable pub escape_json_pool : Bool → Bytes → Status × Str
unfolding escape_json strlen
escape_json_pool false dst = (error, of_bytes dst)
escape_json_pool true dst =
    let escaped = escape_json dst in
    let memory = escaped ++ replicate (length dst * 6 - length escaped) 0 in
    (ok, record { len = strlen memory; memory = memory })

-- `copy_str`: the copy has one more byte, the terminating zero. On an error `buf` keeps its length
-- and has no memory.
unfoldable pub copy_str : Bool → Bytes → Status × Str
copy_str false dst = (error, record { len = some (length dst); memory = [] })
copy_str true dst = (ok, record { len = some (length dst); memory = dst ++ 0 ∷ [] })

-- `replace_chrc`: every byte `from` of the buffer becomes `to`.
unfoldable pub replace_chrc : Bytes → ℕ → ℕ → Bytes
replace_chrc [] from to = []
replace_chrc (b ∷ bs) from to = (if b == from then to else b) ∷ replace_chrc bs from to

-- A byte of memory; past the memory at hand it reads as zero.
abbrev head_or_zero : Bytes → ℕ
head_or_zero [] = 0
head_or_zero (b ∷ bs) = b

abbrev tail_or_nil : Bytes → Bytes
tail_or_nil [] = []
tail_or_nil (b ∷ bs) = bs

-- `ngx_strncmp(a, b, n) == 0`
unfoldable pub strncmp_eq : ℕ → Bytes → Bytes → Bool
strncmp_eq zero a b = true
strncmp_eq (suc n) a b =
    let rest = strncmp_eq n (tail_or_nil a) (tail_or_nil b) in
    if head_or_zero a == head_or_zero b then (if head_or_zero a == 0 then true else rest) else false

-- `ngx_memcmp(a, b, n) == 0` for `n` bytes on both sides.
unfoldable pub memcmp_eq : Bytes → Bytes → Bool
memcmp_eq [] [] = true
memcmp_eq (a ∷ as') (b ∷ bs) = (a == b) && memcmp_eq as' bs
memcmp_eq _ _ = false
