-- ===== src/Tests/Texts.antt =====
-- Texts, keys, groups and clocks.
use metrics_server_example.Base.{◌≡◌, refl, true, none, some, [], ◌∷◌, ltb, if◌then◌else◌, length}
use metrics_server_example.Text.{Bytes, ok, error, escape_json, escape_json_pool}
use metrics_server_example.Text.Escape.{unescape, unescape-escape_json}
use metrics_server_example.Text.Pool.{has_printable, escape_json_pool-measures}
use metrics_server_example.Group.{group_to_string, string_to_group}
use metrics_server_example.Key.{generate_key, position_key, separator}
use metrics_server_example.Key.Fields.{split, get_elem?, field_or_error, position-generate_key}
use metrics_server_example.Clock.{Instant, request_time}

-- A backslash, a control byte and a letter.
abbrev mixed : Bytes
mixed = 0x5c ∷ 0x0a ∷ b'x' ∷ []

unescape-escape_json_example : unescape (escape_json mixed) ≡ some mixed
unescape-escape_json_example = unescape-escape_json mixed

escape_json-mixed :
    escape_json mixed ≡ 0x5c ∷ 0x5c ∷ 0x5c ∷ b'u' ∷ b'0' ∷ b'0' ∷ b'0' ∷ b'A' ∷ b'x' ∷ []
unfolding escape_json
escape_json-mixed = refl

-- One control byte alone.
abbrev control : Bytes
control = 0x0a ∷ []

escape_json_pool-measures_example :
    (escape_json_pool true control).1.len
    ≡ (if has_printable control then some (length (escape_json control)) else none)
escape_json_pool-measures_example = escape_json_pool-measures control

-- Two fields, `a` and an empty one.
abbrev fields : Bytes
fields = b'a' ∷ separator ∷ []

position_key-fields : position_key fields 1 ≡ (error, fields)
unfolding position_key
position_key-fields = refl

position-generate_key_example :
    (position_key (generate_key true (b'a' ∷ []) 4).1 0 ≡ (ok, group_to_string 4))
    × (position_key (generate_key true (b'a' ∷ []) 4).1 1
        ≡ field_or_error (generate_key true (b'a' ∷ []) 4).1 (get_elem? (split (b'a' ∷ [])) 0))
    × (string_to_group (generate_key true (b'a' ∷ []) 4).1 ≡ (if ltb 4 4 then 0 else 4))
position-generate_key_example = position-generate_key (b'a' ∷ []) 4 0

abbrev begun : Instant
begun = record { sec = 1; msec = 900 }

abbrev ended : Instant
ended = record { sec = 2; msec = 100 }

request_time-ended : request_time ended begun ≡ 200
unfolding request_time
request_time-ended = refl
