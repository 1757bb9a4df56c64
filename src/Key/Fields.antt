-- ===== src/Key/Fields.antt =====
-- The keys of ngx_metric_module/src/ngx_http_vhost_traffic_status_node.c (`node_generate_key`,
-- `node_position_key`) as lists of fields.
use metrics_server_example.Base.{
  ◌≢◌, ℕ, zero, suc, ◌+◌, ◌-◌, ◌<◌, ◌≡◌, refl, ap, ◌∙◌, sym, true, false, Option, none, some, List,
  [], ◌∷◌, ◌++◌, append_assoc, append-nil, arith, ltb, ◌==◌, if◌then◌else◌, length, length-append,
  take, drop, take-append, drop-append, Bool-cases, inl, inr,
}
use metrics_server_example.Text.{Bytes, Status, ok, error}
use metrics_server_example.Group.{group_to_string, string_to_group}
use metrics_server_example.Key.{separator, generate_key, Position, position_loop, position_key}

-- A byte in front of the first field.
abbrev cons_head : ℕ → List Bytes → List Bytes
cons_head b [] = (b ∷ []) ∷ []
cons_head b (f ∷ fs) = (b ∷ f) ∷ fs

-- The fields of a key.
unfoldable pub split : Bytes → List Bytes
split [] = [] ∷ []
split (b ∷ bs) = if b == separator then [] ∷ split bs else cons_head b (split bs)

abbrev pub get_elem? {ℓ} : {A : Type ℓ} → List A → ℕ → Option A
get_elem? [] i = none
get_elem? (x ∷ xs) zero = some x
get_elem? (x ∷ xs) (suc i) = get_elem? xs i

-- `node_position_key` should return the field of that number if there is one and it is not empty.
abbrev pub field_or_error : Bytes → Option Bytes → Status × Bytes
field_or_error buf none = (error, buf)
field_or_error buf (some []) = (error, buf)
field_or_error buf (some (b ∷ bs)) = (ok, b ∷ bs)

-- Bytes in front of the first field.
abbrev prepend : Bytes → List Bytes → List Bytes
prepend cur [] = cur ∷ []
prepend cur (f ∷ fs) = (cur ++ f) ∷ fs

prepend-snoc :
    (cur : Bytes) (b : ℕ) (fs : List Bytes)
    → fs ≢ []
    → prepend cur (cons_head b fs) ≡ prepend (cur ++ b ∷ []) fs
prepend-snoc cur b [] h = absurd (h refl)
prepend-snoc cur b (f ∷ fs) h = ap (λ g. g ∷ fs) (sym (append_assoc cur (b ∷ []) f))

cons_head-ne-nil : (b : ℕ) (fs : List Bytes) → cons_head b fs ≢ []
cons_head-ne-nil b [] = λ e. cc
cons_head-ne-nil b (f ∷ fs) = λ e. cc

split-ne-nil : (bs : Bytes) → split bs ≢ []
unfolding split
split-ne-nil [] = λ e. cc
split-ne-nil (b ∷ bs) = ground (arith, cons_head-ne-nil b (split bs))

prepend-nil : (fs : List Bytes) → fs ≢ [] → prepend [] fs ≡ fs
prepend-nil [] h = absurd (h refl)
prepend-nil (f ∷ fs) h = refl

slice : (pre cur rest : Bytes) → take (length cur) (drop (length pre) (pre ++ (cur ++ rest))) ≡ cur
slice pre cur rest = rw (drop-append pre (cur ++ rest)) (take-append cur rest)

-- What the loop has found, for the field that was looked for.
abbrev Found : Bytes → ℕ → Option Bytes → Position → Type 0
Found buf pos none r = r.count < pos
Found buf pos (some f) r =
    (r.count ≡ pos) × (r.len ≡ length f) × (take r.len (drop r.start buf) ≡ f)

-- The loop stands behind the bytes `cur` of field `c`, which begins behind `pre`.
position_loop-Found :
    (rest pre cur buf : Bytes) (pos k s p c len : ℕ)
    → buf ≡ pre ++ (cur ++ rest)
    → s ≡ length pre
    → p ≡ s + length cur
    → len ≡ length cur
    → c + k ≡ pos
    → Found buf pos (get_elem? (prepend cur (split rest)) k) (position_loop rest pos s p c len)
unfolding position_loop split
position_loop-Found [] pre cur buf pos zero s p c len eb es ep el ec =
    rw append-nil (omega arith, el, rw (eb, es, el) (slice pre cur []))
position_loop-Found [] pre cur buf pos (suc k) s p c len eb es ep el ec = omega arith
position_loop-Found (b ∷ rest) pre cur buf pos zero s p c len eb es ep el ec =
    elim (Bool-cases (b == separator)) [
      | inl at_end ↦
          let here : (pos == c) ≡ true = ground arith in
          rw (at_end, position_loop, here, append-nil)
            (omega arith, el, rw (eb, es, el) (slice pre cur (b ∷ rest)))
      | inr inside ↦
          rw (inside, position_loop, prepend-snoc cur b (split rest) (split-ne-nil rest))
            (position_loop-Found rest pre (cur ++ b ∷ []) buf pos zero s (p + 1) c (p + 1 - s)
              (eb ∙ ap (λ r. pre ++ r) (sym (append_assoc cur (b ∷ []) rest))) es
              (omega (arith, length-append cur (b ∷ [])))
              (omega (arith, length-append cur (b ∷ []))) ec)
    ]
position_loop-Found (b ∷ rest) pre cur buf pos (suc k) s p c len eb es ep el ec =
    elim (Bool-cases (b == separator)) [
      | inl at_end ↦
          let later : (pos == c) ≡ false = ground arith in
          let next =
            position_loop-Found rest (pre ++ (cur ++ b ∷ [])) [] buf pos k (p + 1) (p + 1) (c + 1)
              (p + 1 - (p + 1))
              (eb
                ∙ ap (λ r. pre ++ r) (sym (append_assoc cur (b ∷ []) rest))
                ∙ sym (append_assoc pre (cur ++ b ∷ []) rest))
              (omega (arith, length-append pre (cur ++ b ∷ []), length-append cur (b ∷ [])))
              (omega arith) (omega arith) (omega arith) in
          rw (at_end, position_loop, later)
            (rw (prepend-nil (split rest) (split-ne-nil rest)) at next)
      | inr inside ↦
          rw (inside, position_loop, prepend-snoc cur b (split rest) (split-ne-nil rest))
            (position_loop-Found rest pre (cur ++ b ∷ []) buf pos (suc k) s (p + 1) c (p + 1 - s)
              (eb ∙ ap (λ r. pre ++ r) (sym (append_assoc cur (b ∷ []) rest))) es
              (omega (arith, length-append cur (b ∷ [])))
              (omega (arith, length-append cur (b ∷ []))) ec)
    ]

position_key-found :
    (buf : Bytes) (pos : ℕ) (o : Option Bytes)
    → Found buf pos o (position_loop buf pos 0 0 0 0)
    → position_key buf pos ≡ field_or_error buf o
unfolding position_key
position_key-found buf pos none h = ground arith
position_key-found buf pos (some []) h = ground arith
position_key-found buf pos (some (b ∷ bs)) h = ground arith

-- `node_position_key` returns the field of the given number, counted from 0, if the text has so many
-- fields and that one is not empty, and otherwise an error with the text unchanged.
pub position_key_lem :
    (buf : Bytes) (pos : ℕ) → position_key buf pos ≡ field_or_error buf (get_elem? (split buf) pos)
position_key_lem buf pos = position_key-found buf pos (get_elem? (split buf) pos) (
    rw (prepend-nil (split buf) (split-ne-nil buf)) at
      (position_loop-Found buf [] [] buf pos pos 0 0 0 0 refl refl refl refl (omega arith)))

-- The key of a group: its name is a field of its own, and reads back as the group.
abbrev HasGroup : ℕ → Type 0
HasGroup t =
    (dst : Bytes)
    → let key = (generate_key true dst t).1 in
      (split key ≡ group_to_string t ∷ split dst)
      × (position_key key 0 ≡ (ok, group_to_string t))
      × (string_to_group key ≡ (if ltb 4 t then 0 else t))

group_to_string-above : (n : ℕ) → ltb 4 n ≡ true → group_to_string n ≡ group_to_string 0
unfolding group_to_string
group_to_string-above n h = rw h

HasGroup-zero : HasGroup 0
unfolding generate_key split string_to_group
HasGroup-zero dst = (refl, position_key_lem _ 0, refl)

generate_key-HasGroup : (t : ℕ) → HasGroup t
unfolding generate_key split string_to_group
generate_key-HasGroup zero dst = HasGroup-zero dst
generate_key-HasGroup (suc zero) dst = (refl, position_key_lem _ 0, refl)
generate_key-HasGroup (suc (suc zero)) dst = (refl, position_key_lem _ 0, refl)
generate_key-HasGroup (suc (suc (suc zero))) dst = (refl, position_key_lem _ 0, refl)
generate_key-HasGroup (suc (suc (suc (suc zero)))) dst = (refl, position_key_lem _ 0, refl)
generate_key-HasGroup (suc (suc (suc (suc (suc t))))) dst =
    let n = suc (suc (suc (suc (suc t)))) in
    let above : ltb 4 n ≡ true = ground arith in
    rw (group_to_string-above n above, above) (HasGroup-zero dst)

-- What `node_generate_key` builds is taken apart again: field 0 is the name of the group, field
-- `pos + 1` is field `pos` of the given name, and `string_to_group` gives the group back (the first
-- group, where the number is none of the five).
pub position-generate_key :
    (dst : Bytes) (type pos : ℕ)
    → let key = (generate_key true dst type).1 in
      (position_key key 0 ≡ (ok, group_to_string type))
      × (position_key key (suc pos) ≡ field_or_error key (get_elem? (split dst) pos))
      × (string_to_group key ≡ (if ltb 4 type then 0 else type))
position-generate_key dst type pos =
    let key = (generate_key true dst type).1 in
    let g = generate_key-HasGroup type dst in (g.1, rw g.0 at (position_key_lem key (suc pos)), g.2)
