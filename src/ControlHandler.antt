-- ===== src/ControlHandler.antt =====
-- The arguments of a request to the control interface: the first half of `display_handler_control` of
-- ngx_metric_module/src/ngx_http_vhost_traffic_status_display.c, up to the command and its range. How
-- nginx finds an argument (`ngx_http_arg`) is part of the request here. `none` as a result is a read or
-- write that C leaves undefined.
pub mod Parsed
pub mod Executed
use metrics_server_example.Base.{
  ℕ, ◌&&◌, Bool, true, false, Option, none, some, [], ◌∷◌, ◌++◌, ◌==◌, if◌then◌else◌, length, take,
}
use metrics_server_example.Text.{Bytes, strncmp_eq, replace_chrc}
use metrics_server_example.Text.Replace.{Buffer}
use metrics_server_example.Key.{separator}
use metrics_server_example.RbTree.{Tree, Nginx}
use metrics_server_example.Zone.{Zone}
use metrics_server_example.Control.{
  Selector, unset, any, group, Control, range_none, control_range_set, Pool, delete, reset,
}
use metrics_server_example.SetFilter.Argument.{find_group, group_names, alpha, replaced}

-- `CONTROL_CMD_*`
pub data Command : Type 0 where
  cmd_none cmd_status cmd_delete cmd_reset : Command

-- Whether the request has arguments, and what `ngx_http_arg` finds for their names.
pub record Args : Type 0 where
  pub present : Bool
  pub cmd : Option Bytes
  pub group : Option Bytes
  pub zone : Option Bytes

-- What the surroundings give: whether there is memory for `control`, its `zone`, the copy of the
-- argument, the `shm_info` of the command `status` and the buffer of the answer; and whether the request
-- ends with its header, for the method HEAD.
pub record Memory : Type 0 where
  pub control : Bool
  pub zone : Bool
  pub copy : Bool
  pub info : Bool
  pub buffer : Bool
  pub header_only : Bool

-- What the request is answered with.
pub data Answer : Type 0 where
  server_error header : Answer
  sent : Bytes → Answer

abbrev status_text : Bytes
status_text = b's' ∷ b't' ∷ b'a' ∷ b't' ∷ b'u' ∷ b's' ∷ []

abbrev pub delete_text : Bytes
delete_text = b'd' ∷ b'e' ∷ b'l' ∷ b'e' ∷ b't' ∷ b'e' ∷ []

abbrev pub reset_text : Bytes
reset_text = b'r' ∷ b'e' ∷ b's' ∷ b'e' ∷ b't' ∷ []

-- The tests of the argument `cmd`.
unfoldable pub command_of : Bytes → Command
unfolding strncmp_eq
command_of arg =
    if length arg == 6 && strncmp_eq 6 arg status_text
    then cmd_status
    else (if length arg == 6 && strncmp_eq 6 arg delete_text
        then cmd_delete
        else (if length arg == 5 && strncmp_eq 5 arg reset_text then cmd_reset else cmd_none))

-- The tests of the argument `group`; `none` is the last `else`, which takes the command back.
unfoldable pub selector_of : Bytes → Option Selector
unfolding strncmp_eq find_group group_names
selector_of arg =
    if length arg == 1 && strncmp_eq 1 arg (b'*' ∷ [])
    then some any
    else elim (find_group group_names arg) [ none ↦ none | some n ↦ some (group n) ]

-- `control->zone`: the copy of the argument, where there is memory, with its replacements.
unfoldable pub zone_of : Bool → Bytes → Option Bytes
unfolding replace_chrc replaced
zone_of memory arg = elim memory [
  | false ↦ none
  | true ↦
      let copy : Buffer = record {
        memory = replace_chrc arg b'@' separator ++ 0 ∷ [];
        len = length arg;
      } in
      elim (replaced copy alpha b'@') [ none ↦ none | some b ↦ some (take b.len b.memory) ]
]

-- The command after the argument `cmd`.
unfoldable pub command_arg : Option Bytes → Command
unfolding command_of
command_arg none = cmd_none
command_arg (some arg) = command_of arg

-- The command and the selector after the argument `group`.
unfoldable pub select : Command → Option Bytes → Command × Selector
unfolding selector_of
select command none = (command, unset)
select command (some arg) = elim (selector_of arg) [
  | none ↦ (cmd_none, unset)
  | some s ↦ (command, s)
]

-- The command where there is no argument `zone`.
unfoldable pub without_zone : Command → Selector → Command
without_zone command any = command
without_zone command _ = cmd_none

abbrev pub control_of : Selector → Bytes → Control
control_of s zone = record { selector = s; zone = zone; range = range_none; count = 0 }

-- The command and its `control` after the argument `zone`.
unfoldable pub parse_zone : Bool → Command → Selector → Option Bytes → Option (Command × Control)
unfolding without_zone zone_of control_range_set
parse_zone memory command s none =
    some (without_zone command s, control_range_set (control_of s []))
parse_zone memory command s (some arg) = elim (zone_of memory arg) [
  | none ↦ none
  | some zone ↦ some (command, control_range_set (control_of s zone))
]

-- The command and its `control` after all arguments.
unfoldable pub parse : Bool → Args → Option (Command × Control)
unfolding command_arg select parse_zone
parse memory a =
    let s = select (command_arg a.cmd) a.group in
    if a.present then parse_zone memory s.0 s.1 a.zone else some (cmd_none, control_of unset [])
