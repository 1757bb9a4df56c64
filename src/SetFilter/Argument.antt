-- ===== src/SetFilter/Argument.antt =====
-- The argument of the directive set_by_filter: `set_by_filter_init` of
-- ngx_metric_module/src/ngx_http_vhost_traffic_status_set.c.
use metrics_server_example.Base.{
  ℕ, Bool, true, false, ◌&&◌, Option, none, some, List, [], ◌∷◌, ◌++◌, ◌==◌, if◌then◌else◌, length,
  take,
}
use metrics_server_example.Text.{Bytes, replace_chrc}
use metrics_server_example.Text.Replace.{Buffer, replace_strc}
use metrics_server_example.Group.{upstream_no, upstream_ua, upstream_ug, upstream_cc, upstream_fg}
use metrics_server_example.Key.{separator}
use metrics_server_example.RequestKeys.{strncasecmp_eq}

-- `ngx_strchr`: the text in front of the byte and the text behind it, up to a zero.
unfoldable pub strchr : ℕ → Bytes → Option (Bytes × Bytes)
strchr c [] = none
strchr c (b ∷ bs) =
    let rest = strchr c bs in
    if b == c
    then some ([], bs)
    else (if b == 0
        then none
        else elim rest [ none ↦ none | some (before, behind) ↦ some (b ∷ before, behind) ])

-- The names of the groups and their numbers.
unfoldable pub group_names : List (Bytes × ℕ)
group_names =
    (b's' ∷ b'e' ∷ b'r' ∷ b'v' ∷ b'e' ∷ b'r' ∷ [], upstream_no)
    ∷ (
      b'u' ∷ b'p' ∷ b's' ∷ b't' ∷ b'r' ∷ b'e' ∷ b'a' ∷ b'm' ∷ b'@' ∷ b'a' ∷ b'l' ∷ b'o' ∷ b'n'
          ∷ b'e' ∷ [],
      upstream_ua,
    )
    ∷ (
      b'u' ∷ b'p' ∷ b's' ∷ b't' ∷ b'r' ∷ b'e' ∷ b'a' ∷ b'm' ∷ b'@' ∷ b'g' ∷ b'r' ∷ b'o' ∷ b'u'
          ∷ b'p' ∷ [],
      upstream_ug,
    )
    ∷ (b'c' ∷ b'a' ∷ b'c' ∷ b'h' ∷ b'e' ∷ [], upstream_cc)
    ∷ (b'f' ∷ b'i' ∷ b'l' ∷ b't' ∷ b'e' ∷ b'r' ∷ [], upstream_fg)
    ∷ []

-- The tests of the argument `group`: the length, and the text in any case.
unfoldable pub find_group : List (Bytes × ℕ) → Bytes → Option ℕ
unfolding strncasecmp_eq
find_group [] arg = none
find_group (e ∷ es) arg =
    let rest = find_group es arg in
    if length arg == length e.0 && strncasecmp_eq arg e.0 then some e.1 else rest

abbrev pub alpha : Bytes
alpha = b'[' ∷ b':' ∷ b'a' ∷ b'l' ∷ b'p' ∷ b'h' ∷ b'a' ∷ b':' ∷ b']' ∷ []

abbrev pub slash : Bytes
slash = b'[' ∷ b':' ∷ b's' ∷ b'l' ∷ b'a' ∷ b's' ∷ b'h' ∷ b':' ∷ b']' ∷ []

-- The buffer after `replace_strc`, whose status is only logged.
unfoldable pub replaced : Buffer → Bytes → ℕ → Option Buffer
unfolding replace_strc
replaced buf pattern c = elim (replace_strc buf pattern c) [ none ↦ none | some r ↦ some r.1 ]

-- `control->zone`: the copy of the argument, where there is memory, with its replacements.
unfoldable pub zone_text : Bool → Bytes → Option Bytes
unfolding replace_chrc replaced
zone_text memory arg = elim memory [
  | false ↦ none
  | true ↦
      let copy : Buffer = record {
        memory = replace_chrc arg b'@' separator ++ 0 ∷ [];
        len = length arg;
      } in
      elim (replaced copy alpha b'@') [
        | none ↦ none
        | some first ↦ elim (replaced first slash b'/') [
          | none ↦ none
          | some second ↦ some (take second.len second.memory)
        ]
      ]
]

-- What `set_by_filter_init` makes of a text: an error, nothing that C defines, or the group, the zone
-- and the member.
pub data Parsed : Type 0 where
  refused undefined : Parsed
  parsed : ℕ → Bytes → Bytes → Parsed

-- `set_by_filter_init`
unfoldable pub filter_init : Bool → Bytes → Parsed
unfolding strchr find_group group_names zone_text
filter_init memory uri = elim (strchr b'/' uri) [
  | none ↦ refused
  | some (arg_group, behind) ↦ elim (strchr b'/' behind) [
    | none ↦ refused
    | some (arg_zone, arg_name) ↦ elim (find_group group_names arg_group) [
      | none ↦ refused
      | some group ↦ elim (zone_text memory arg_zone) [
        | none ↦ undefined
        | some zone ↦ parsed group zone arg_name
      ]
    ]
  ]
]
