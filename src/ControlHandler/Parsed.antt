-- ===== src/ControlHandler/Parsed.antt =====
-- What the arguments of a request to the control interface name: `display_handler_control` of
-- ngx_metric_module/src/ngx_http_vhost_traffic_status_display.c.
use mathlib.Core.Path.{subst}
use mathlib.Core.Option.{some-injective, none-ne-some}
use metrics_server_example.Base.{
  ◌≡◌, ◌≢◌, refl, ap, sym, ◌∙◌, inl, inr, ◌⊎◌, ℕ, true, false, map, take, drop, ◌++◌, ◌==◌, ==→eq,
  if◌then◌else◌, take-append, Bool, Option, none, some, [], ◌∷◌, Option-cases, Bool-cases, arith,
}
use metrics_server_example.Text.{Bytes, replace_chrc}
use metrics_server_example.Text.Replace.{Buffer}
use metrics_server_example.Key.{separator}
use metrics_server_example.SetFilter.Argument.{alpha, replaced}
use metrics_server_example.SetFilter.Texts.{
  IsPlain, replaced-plain, IsPlain-replace_chrc, length-replace_chrc,
}
use metrics_server_example.Control.{
  Selector, unset, any, group, Range, range_none, range_all, range_group, range_zone, Control,
  control_range_set,
}
use metrics_server_example.ControlHandler.{
  Command, cmd_none, cmd_status, cmd_delete, cmd_reset, Args, command_of, selector_of, command_arg,
  select, without_zone, parse_zone, zone_of, parse, control_of,
}

-- The argument `group` is not there, or names the selector.
abbrev pub Groups : Option Bytes → Selector → Type 0
Groups g s = ((g ≡ none) × (s ≡ unset)) ⊎ ((t : Bytes) × (g ≡ some t) × (selector_of t ≡ some s))

-- A text with the separator of keys in the place of every `@`.
abbrev pub with_separators : Bytes → Bytes
with_separators t = map (λ b. if b == b'@' then separator else b) t

-- The argument `zone` is there, and its text is the zone, with separators where it has no `[` and no
-- zero; or it is not there, and the group is `*`.
abbrev pub Zones : Option Bytes → Selector → Bytes → Type 0
Zones arg s zone =
    ((t : Bytes) × (arg ≡ some t) × (IsPlain t → zone ≡ with_separators t))
    ⊎ ((arg ≡ none) × (s ≡ any) × (zone ≡ []))

-- The range: everything for the group `*`, and for any other nothing without a zone, the group for the
-- zone `*`, and else the zone.
pub record Ranges (s : Selector) (zone : Bytes) (r : Range) : Type 0 where
  pub all : s ≡ any → r ≡ range_all
  pub nothing : s ≢ any → zone ≡ [] → r ≡ range_none
  pub whole_group : s ≢ any → zone ≡ b'*' ∷ [] → r ≡ range_group
  pub one : s ≢ any → zone ≢ [] → zone ≢ b'*' ∷ [] → r ≡ range_zone

-- What the arguments name, if they name a command at all.
pub record Named (a : Args) (command : Command) (c : Control) : Type 0 where
  pub cmd : (t : Bytes) × (a.cmd ≡ some t) × (command_of t ≡ command)
  pub groups : Groups a.group c.selector
  pub count : c.count ≡ 0
  pub zone : Zones a.zone c.selector c.zone
  pub range : Ranges c.selector c.zone c.range

command_arg-Named :
    (cmd : Option Bytes)
    → command_arg cmd ≢ cmd_none
    → (t : Bytes) × (cmd ≡ some t) × (command_of t ≡ command_arg cmd)
unfolding command_arg
command_arg-Named none h = absurd (h refl)
command_arg-Named (some t) h = (t, refl, refl)

select-Groups :
    (command : Command) (g : Option Bytes)
    → (select command g).0 ≢ cmd_none
    → ((select command g).0 ≡ command) × Groups g (select command g).1
unfolding select
select-Groups command none h = (refl, inl (refl, refl))
select-Groups command (some t) h = elim (Option-cases (selector_of t)) [
  | inl e ↦ absurd (h (rw (select, e) refl))
  | inr (s, e) ↦ rw (select, e) (refl, inr (t, refl, e))
]

control_range_set-selector :
    (s : Selector) (zone : Bytes)
    → ((control_range_set (control_of s zone)).selector ≡ s)
      × ((control_range_set (control_of s zone)).count ≡ 0)
unfolding control_range_set
control_range_set-selector any zone = (refl, refl)
control_range_set-selector unset [] = (refl, refl)
control_range_set-selector unset (b ∷ []) = (refl, refl)
control_range_set-selector unset (b ∷ b' ∷ bs) = (refl, refl)
control_range_set-selector (group n) [] = (refl, refl)
control_range_set-selector (group n) (b ∷ []) = (refl, refl)
control_range_set-selector (group n) (b ∷ b' ∷ bs) = (refl, refl)

control_range_set-zone :
    (s : Selector) (zone : Bytes) → (control_range_set (control_of s zone)).zone ≡ zone
unfolding control_range_set
control_range_set-zone any zone = refl
control_range_set-zone unset [] = refl
control_range_set-zone unset (b ∷ []) = refl
control_range_set-zone unset (b ∷ b' ∷ bs) = refl
control_range_set-zone (group n) [] = refl
control_range_set-zone (group n) (b ∷ []) = refl
control_range_set-zone (group n) (b ∷ b' ∷ bs) = refl

abbrev range_of_one : ℕ → Range
range_of_one b = if b == b'*' then range_group else range_zone

one-differs : (b : ℕ) → b ∷ [] ≢ b'*' ∷ [] → (b == b'*') ≡ false
one-differs b h = elim (Bool-cases (b == b'*')) [
  | inl e ↦ absurd (h (ap (λ x. x ∷ []) (==→eq b b'*' e)))
  | inr e ↦ e
]

-- The range of a zone of one byte.
one_byte : (s : Selector) (b : ℕ) → s ≢ any → Ranges s (b ∷ []) (range_of_one b)
one_byte s b other = record {
  all = λ e. absurd (other e);
  nothing = λ n e. absurd (ground (arith, e));
  whole_group = λ n e. let same : (b == b'*') ≡ true = ground (arith, e) in rw same refl;
  one = λ n e star. let differs : (b == b'*') ≡ false = one-differs b star in rw differs refl;
}

longer : (s : Selector) (b b' : ℕ) (bs : Bytes) → s ≢ any → Ranges s (b ∷ b' ∷ bs) range_zone
longer s b b' bs other = record {
  all = λ e. absurd (other e);
  nothing = λ n e. absurd (ground (arith, e));
  whole_group = λ n e. absurd (ground (arith, e));
  one = λ n e star. refl;
}

no_bytes : (s : Selector) → s ≢ any → Ranges s [] range_none
no_bytes s other = record {
  all = λ e. absurd (other e);
  nothing = λ n e. refl;
  whole_group = λ n e. absurd (ground (arith, e));
  one = λ n e star. absurd (e refl);
}

control_range_set-Ranges :
    (s : Selector) (zone : Bytes) → Ranges s zone (control_range_set (control_of s zone)).range
unfolding control_range_set
control_range_set-Ranges any zone = record {
  all = λ e. refl;
  nothing = λ n e. absurd (n refl);
  whole_group = λ n e. absurd (n refl);
  one = λ n e star. absurd (n refl);
}
control_range_set-Ranges unset [] = no_bytes unset (ground arith)
control_range_set-Ranges unset (b ∷ []) = one_byte unset b (ground arith)
control_range_set-Ranges unset (b ∷ b' ∷ bs) = longer unset b b' bs (ground arith)
control_range_set-Ranges (group n) [] = no_bytes (group n) (ground arith)
control_range_set-Ranges (group n) (b ∷ []) = one_byte (group n) b (ground arith)
control_range_set-Ranges (group n) (b ∷ b' ∷ bs) = longer (group n) b b' bs (ground arith)

replace_chrc-with_separators : (t : Bytes) → replace_chrc t b'@' separator ≡ with_separators t
unfolding replace_chrc
replace_chrc-with_separators [] = refl
replace_chrc-with_separators (b ∷ bs) =
    ap (λ r. (if b == b'@' then separator else b) ∷ r) (replace_chrc-with_separators bs)

-- The zone of a plain argument.
zone_of-plain :
    (memory : Bool) (t z : Bytes) → zone_of memory t ≡ some z → IsPlain t → z ≡ with_separators t
unfolding zone_of
zone_of-plain false t z e h = absurd (none-ne-some z e)
zone_of-plain true t z e h =
    let text = replace_chrc t b'@' separator in
    let last : Option Buffer → Option Bytes =
      λ o. elim o [ none ↦ none | some b ↦ some (take b.len b.memory) ] in
    let run : zone_of true t ≡ some text =
      ap (λ n. last (replaced (record { memory = text ++ 0 ∷ []; len = n }) alpha b'@'))
        (sym (length-replace_chrc t b'@' separator))
      ∙ ap last (replaced-plain (drop 1 alpha) text b'@' (IsPlain-replace_chrc t h))
      ∙ ap some (take-append text (0 ∷ [])) in
    some-injective _ _ (sym e ∙ run) ∙ replace_chrc-with_separators t

without_zone-any :
    (command : Command) (s : Selector)
    → without_zone command s ≢ cmd_none
    → (s ≡ any) × (without_zone command s ≡ command)
unfolding without_zone
without_zone-any command any h = (refl, refl)
without_zone-any command unset h = absurd (h refl)
without_zone-any command (group n) h = absurd (h refl)

-- What `parse_zone` leaves of a command that is not `cmd_none`.
abbrev Kept : Option Bytes → Command → Selector → Command → Control → Type 0
Kept zone command s command' c =
    (command' ≡ command)
    × (c.selector ≡ s)
    × (c.count ≡ 0)
    × Zones zone s c.zone
    × Ranges s c.zone c.range

parse_zone-Kept :
    (memory : Bool) (command : Command) (s : Selector) (zone : Option Bytes) (command' : Command)
    (c : Control)
    → parse_zone memory command s zone ≡ some (command', c)
    → command' ≢ cmd_none
    → Kept zone command s command' c
unfolding parse_zone
parse_zone-Kept memory command s none command' c e h =
    let same = some-injective _ _ e in
    let kept = without_zone-any command s (λ n. h (ap (λ r. r.0) (sym same) ∙ n)) in
    (
      ap (λ r. r.0) (sym same) ∙ kept.1,
      ap (λ r. r.1.selector) (sym same) ∙ (control_range_set-selector s []).0,
      ap (λ r. r.1.count) (sym same) ∙ (control_range_set-selector s []).1,
      inr (refl, kept.0, ap (λ r. r.1.zone) (sym same) ∙ control_range_set-zone s []),
      subst (λ (r : Command × Control). Ranges s r.1.zone r.1.range) same
          (subst (λ z. Ranges s z (control_range_set (control_of s [])).range)
            (sym (control_range_set-zone s [])) (control_range_set-Ranges s [])),
    )
parse_zone-Kept memory command s (some t) command' c e h = elim (Option-cases (zone_of memory t)) [
  | inl n ↦ absurd (none-ne-some _ (sym (rw (parse_zone, n) refl) ∙ e))
  | inr (z, f) ↦
      let run : parse_zone memory command s (some t)
          ≡ some (command, control_range_set (control_of s z)) =
        rw (parse_zone, f) refl in
      let same = some-injective _ _ (sym run ∙ e) in
      (
        ap (λ r. r.0) (sym same),
        ap (λ r. r.1.selector) (sym same) ∙ (control_range_set-selector s z).0,
        ap (λ r. r.1.count) (sym same) ∙ (control_range_set-selector s z).1,
        inl (
          t,
          refl,
          λ plain.
              ap (λ r. r.1.zone) (sym same)
              ∙ control_range_set-zone s z
              ∙ zone_of-plain memory t z f plain,
        ),
        subst (λ (r : Command × Control). Ranges s r.1.zone r.1.range) same
            (subst (λ z'. Ranges s z' (control_range_set (control_of s z)).range)
              (sym (control_range_set-zone s z)) (control_range_set-Ranges s z)),
      )
]

-- A request whose command is not `cmd_none` names it by its argument `cmd`; its argument `group` is
-- left out or names the group; its argument `zone` is there unless the group is `*`, and the zone is its
-- text with separators; and the range is that of the group and the zone.
pub parse-Named :
    (memory : Bool) (a : Args) (command : Command) (c : Control)
    → parse memory a ≡ some (command, c)
    → command ≢ cmd_none
    → Named a command c
unfolding parse
parse-Named memory a command c e h = elim (Bool-cases a.present) [
  | inl p ↦
      let s = select (command_arg a.cmd) a.group in
      let kept = parse_zone-Kept memory s.0 s.1 a.zone command c (sym (rw (parse, p) refl) ∙ e) h in
      let groups = select-Groups (command_arg a.cmd) a.group (λ n. h (kept.0 ∙ n)) in
      let cmd = command_arg-Named a.cmd (λ n. h (kept.0 ∙ groups.0 ∙ n)) in
      record {
        cmd = (cmd.0, cmd.1, cmd.2 ∙ sym groups.0 ∙ sym kept.0);
        groups = subst (Groups a.group) (sym kept.1) groups.1;
        zone = subst (λ g. Zones a.zone g c.zone) (sym kept.1) kept.3;
        range = subst (λ g. Ranges g c.zone c.range) (sym kept.1) kept.4;
        count = kept.2;
      }
  | inr p ↦
      let none_run : parse memory a ≡ some (cmd_none, control_of unset []) = rw (parse, p) refl in
      absurd (h (ap (λ r. r.0) (some-injective _ _ (sym e ∙ none_run))))
]

pub Command-cases : (command : Command) → (command ≡ cmd_none) ⊎ (command ≢ cmd_none)
Command-cases cmd_none = inl refl
Command-cases cmd_status = inr (ground arith)
Command-cases cmd_delete = inr (ground arith)
Command-cases cmd_reset = inr (ground arith)
