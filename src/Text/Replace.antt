-- ===== src/Text/Replace.antt =====
-- `replace_strc` of ngx_metric_module/src/ngx_http_vhost_traffic_status_string.c, on the memory of its
-- buffer.
use metrics_server_example.Base.{
  ℕ, zero, suc, ◌+◌, ◌-◌, ◌*◌, true, false, Option, none, some, [], ◌∷◌, ◌++◌, ltb, ◌==◌,
  if◌then◌else◌, length, take, drop, get_or,
}
use metrics_server_example.Text.{Bytes, Status, ok, error, strncmp_eq}

-- `ngx_str_t` over zero-terminated memory.
pub record Buffer : Type 0 where
  pub memory : Bytes
  pub len : ℕ

-- `ngx_strstrn`: how many bytes stand in front of the first place, before the zero, where the pattern
-- begins.
unfoldable pub strstrn : Bytes → Bytes → Option ℕ
unfolding strncmp_eq
strstrn pattern [] = none
strstrn pattern (b ∷ bs) =
    let rest = strstrn pattern bs in
    if b == 0
    then none
    else (if strncmp_eq (length pattern) (b ∷ bs) pattern
        then some 0
        else elim rest [ none ↦ none | some n ↦ some (suc n) ])

-- What stands behind the byte that was written, after the rest of the text was moved there.
unfoldable pub move : ℕ → ℕ → Bytes → Bytes
move d len behind = take len (drop (d - 1) behind) ++ drop len behind

-- The loop, on fuel: `n` replacements so far, the memory before `p` and from `p` on. `none` stands for
-- a length below 0, and for fuel that is used up.
unfoldable pub replace_loop : ℕ → Bytes → ℕ → ℕ → ℕ → Bytes → Bytes → Option (ℕ × Bytes)
unfolding strstrn move
replace_loop zero pattern c buf_len n before here = none
replace_loop (suc fuel) pattern c buf_len n before here = elim (strstrn pattern here) [
  | none ↦ some (n, before ++ here)
  | some k ↦
      let p = length before + k in
      let taken = p + suc n * length pattern in
      elim (ltb (buf_len + n) taken) [
        | true ↦ none
        | false ↦
            replace_loop fuel pattern c buf_len (suc n) (before ++ (take k here ++ c ∷ []))
              (move (length pattern) (buf_len + n - taken) (drop (suc k) here))
      ]
]

-- `replace_strc`
unfoldable pub replace_strc : Buffer → Bytes → ℕ → Option (Status × Buffer)
unfolding replace_loop
replace_strc buf pattern c =
    if get_or buf.memory buf.len 0 == 0
    then elim (replace_loop (suc (length buf.memory)) pattern c buf.len 0 [] buf.memory) [
      | none ↦ none
      | some (n, memory) ↦
          some (ok, record { memory = memory; len = buf.len + n - n * length pattern })
    ]
    else some (error, buf)
