-- ===== src/SetFilter/Texts.antt =====
-- The texts of `set_by_filter_init` of
-- ngx_metric_module/src/ngx_http_vhost_traffic_status_set.c.
use metrics_server_example.Base.{
  ℕ, suc, ◌≡◌, ◌≢◌, ◌<◌, refl, sym, ap, ◌∙◌, true, Option, none, some, [], ◌∷◌, ◌++◌, arith, length,
  take, drop, take-append, get_or, All,
}
use metrics_server_example.Text.{Bytes, Status, strncmp_eq, replace_chrc}
use metrics_server_example.Text.Replaced.{replace_strc-missing}
use metrics_server_example.Text.Replace.{Buffer, strstrn}
use metrics_server_example.Key.{separator}
use metrics_server_example.SetFilter.Argument.{strchr, alpha, slash, replaced, zone_text}

-- A part of the text: no slash and no zero.
abbrev pub IsPart : Bytes → Type 0
IsPart = All (λ b. (b ≢ b'/') × (0 < b))

pub strchr_lem :
    (part behind : Bytes) → IsPart part → strchr b'/' (part ++ b'/' ∷ behind) ≡ some (part, behind)
unfolding strchr
strchr_lem [] behind h = refl
strchr_lem (b ∷ bs) behind h = ground (arith, h.0.0, h.0.1, strchr_lem bs behind h.1)

-- No bracket opens, and there is no zero.
abbrev pub IsPlain : Bytes → Type 0
IsPlain = All (λ b. (b ≢ b'[') × (0 < b))

-- A pattern that begins with a bracket is not in a plain text.
strstrn-plain : (ps text : Bytes) → IsPlain text → strstrn (b'[' ∷ ps) (text ++ 0 ∷ []) ≡ none
unfolding strstrn strncmp_eq
strstrn-plain ps [] h = ground arith
strstrn-plain ps (b ∷ bs) h = ground (arith, h.0.0, h.0.1, strstrn-plain ps bs h.1)

get_or-end : (text : Bytes) → get_or (text ++ 0 ∷ []) (length text) 0 ≡ 0
get_or-end [] = refl
get_or-end (b ∷ bs) = get_or-end bs

pub replaced-plain :
    (ps text : Bytes) (c : ℕ)
    → IsPlain text
    → replaced (record { memory = text ++ 0 ∷ []; len = length text }) (b'[' ∷ ps) c
      ≡ some (record { memory = text ++ 0 ∷ []; len = length text })
unfolding replaced
replaced-plain ps text c h =
    ap (λ (o : Option (Status × Buffer)). elim o [ none ↦ none | some r ↦ some r.1 ])
      (replace_strc-missing (record { memory = text ++ 0 ∷ []; len = length text }) (b'[' ∷ ps) c
        (get_or-end text) (strstrn-plain ps text h))

pub IsPlain-replace_chrc :
    (text : Bytes) → IsPlain text → IsPlain (replace_chrc text b'@' separator)
unfolding replace_chrc
IsPlain-replace_chrc [] h = tt
IsPlain-replace_chrc (b ∷ bs) h =
    ((ground (arith, h.0.0), ground (arith, h.0.1)), IsPlain-replace_chrc bs h.1)

pub length-replace_chrc :
    (text : Bytes) (from to : ℕ) → length (replace_chrc text from to) ≡ length text
unfolding replace_chrc
length-replace_chrc [] from to = refl
length-replace_chrc (b ∷ bs) from to = ap suc (length-replace_chrc bs from to)

-- A plain zone has its `@` replaced, and nothing else.
pub zone_text-plain :
    (arg : Bytes) → IsPlain arg → zone_text true arg ≡ some (replace_chrc arg b'@' separator)
unfolding zone_text
zone_text-plain arg h =
    let text = replace_chrc arg b'@' separator in
    let plain = IsPlain-replace_chrc arg h in
    let buf : Buffer = record { memory = text ++ 0 ∷ []; len = length text } in
    let size = length-replace_chrc arg b'@' separator in
    let next : Option Buffer → Option Bytes = λ o. elim o [
      | none ↦ none
      | some first ↦ elim (replaced first slash b'/') [
        | none ↦ none
        | some second ↦ some (take second.len second.memory)
      ]
    ] in
    let last : Option Buffer → Option Bytes =
      λ o. elim o [ none ↦ none | some second ↦ some (take second.len second.memory) ] in
    ap (λ n. next (replaced (record { memory = text ++ 0 ∷ []; len = n }) alpha b'@')) (sym size)
    ∙ ap next (replaced-plain (drop 1 alpha) text b'@' plain)
    ∙ ap last (replaced-plain (drop 1 slash) text b'/' plain)
    ∙ ap some (take-append text (0 ∷ []))
