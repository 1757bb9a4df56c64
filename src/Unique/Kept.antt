-- ===== src/Unique/Kept.antt =====
-- The entries that `filter_unique` of
-- ngx_metric_module/src/ngx_http_vhost_traffic_status_filter.c and `limit_traffic_unique` of
-- ngx_http_vhost_traffic_status_limit.c keep.
use mathlib.Core.Path.{subst}
use mathlib.Core.List.{Permᴰ}
use metrics_server_example.Base.{
  ℕ, zero, suc, ◌+◌, ◌-◌, ◌*◌, ◌^◌, ◌≡◌, ◌≤◌, ◌<◌, refl, ap, ◌∙◌, false, Option, none, some, List,
  [], ◌∷◌, ◌++◌, map, arith, inl, inr, compare, ltb, ◌==◌, if◌then◌else◌, length, All, All-mono,
  Bool-cases, found_with, found_with-append,
}
use metrics_server_example.Text.{Bytes, ok}
use metrics_server_example.Unique.{Uniq, cmp_hashs, Ascending, Core, hash_all, push_entry, keep}

-- On hashes that are less than 2^31 apart the comparison is that of numbers.
pub cmp_hashs-compare :
    (low a b : ℕ)
    → (low ≤ a) × (a < low + 2 ^ 31)
    → (low ≤ b) × (b < low + 2 ^ 31)
    → a < 2 ^ 32
    → b < 2 ^ 32
    → cmp_hashs a b ≡ compare a b
unfolding cmp_hashs
cmp_hashs-compare low a b p q small small' = ground arith

module _ {ℓ} {A : Type ℓ} where
  -- How many entries have a hash.
  unfoldable pub occurrences : (A → ℕ) → ℕ → List A → ℕ
  occurrences h g [] = 0
  occurrences h g (a ∷ as') = if h a == g then suc (occurrences h g as') else occurrences h g as'

  pub All-perm : (P : A → Type 0) {xs ys : List A} → Permᴰ xs ys → All P xs → All P ys
  All-perm P Permᴰ.nil h = tt
  All-perm P (Permᴰ.cons e d) h = (subst P e h.0, All-perm P d h.1)
  All-perm P (Permᴰ.swap e e') h = (subst P e' h.1.0, (subst P e h.0, h.1.1))
  All-perm P (Permᴰ.trans d d') h = All-perm P d' (All-perm P d h)

  pub occurrences-perm :
      (h : A → ℕ) (g : ℕ) {xs ys : List A} → Permᴰ xs ys → occurrences h g xs ≡ occurrences h g ys
  unfolding occurrences
  occurrences-perm h g Permᴰ.nil = refl
  occurrences-perm h g (Permᴰ.cons e d) = ground (arith, ap h e, occurrences-perm h g d)
  occurrences-perm h g (Permᴰ.swap e e') = ground (arith, ap h e, ap h e')
  occurrences-perm h g (Permᴰ.trans d d') = occurrences-perm h g d ∙ occurrences-perm h g d'

  pub length-perm : {xs ys : List A} → Permᴰ xs ys → length xs ≡ length ys
  length-perm Permᴰ.nil = refl
  length-perm (Permᴰ.cons e d) = ap suc (length-perm d)
  length-perm (Permᴰ.swap e e') = refl
  length-perm (Permᴰ.trans d d') = length-perm d ∙ length-perm d'

-- `1` for some, `0` for none.
abbrev pub at_most_one : ℕ → ℕ
at_most_one zero = 0
at_most_one (suc n) = 1

module _ {ℓ} {A : Type ℓ} where
  -- The entries that the second loop keeps, given the hash before them.
  unfoldable pub distinct : List (Uniq A) → ℕ → List (Uniq A)
  distinct [] hash = []
  distinct (u ∷ us) hash = if u.hash == hash then distinct us hash else u ∷ distinct us u.hash

  pub length-distinct : (us : List (Uniq A)) (hash : ℕ) → length (distinct us hash) ≤ length us
  unfolding distinct
  length-distinct [] hash = omega arith
  length-distinct (u ∷ us) hash = ground (arith, length-distinct us hash, length-distinct us u.hash)

  pub distinct-all :
      (us : List (Uniq A)) (hash : ℕ)
      → length (distinct us hash) ≡ length us
      → distinct us hash ≡ us
  unfolding distinct
  distinct-all [] hash e = refl
  distinct-all (u ∷ us) hash e = ground (arith, e, length-distinct us hash, distinct-all us u.hash)

  pub All-distinct :
      (P : Uniq A → Type 0) (us : List (Uniq A)) (hash : ℕ) → All P us → All P (distinct us hash)
  unfolding distinct
  All-distinct P [] hash h = tt
  All-distinct P (u ∷ us) hash h = elim (Bool-cases (u.hash == hash)) [
    | inl same ↦ rw same (All-distinct P us hash h.1)
    | inr other ↦ rw other (h.0, All-distinct P us u.hash h.1)
  ]

  occurrences_above :
      (us : List (Uniq A)) (g : ℕ) → All (λ u. g < u.hash) us → occurrences (λ u. u.hash) g us ≡ 0
  unfolding occurrences
  occurrences_above [] g h = refl
  occurrences_above (u ∷ us) g h = ground (arith, h.0, occurrences_above us g h.1)

  below :
      (us : List (Uniq A)) (g hash : ℕ)
      → All (λ v. hash ≤ v.hash) us
      → g < hash
      → occurrences (λ (u : Uniq A). u.hash) g us ≡ 0
  below us g hash h less =
      occurrences_above us g (All-mono (λ (v : Uniq A). hash ≤ v.hash) us (λ v le. omega arith) h)

  -- In ascending order one entry is kept of each hash, but for the hash to start with.
  pub occurrences-distinct :
      (us : List (Uniq A)) (hash g : ℕ)
      → Ascending us
      → All (λ u. hash ≤ u.hash) us
      → occurrences (λ u. u.hash) g (distinct us hash)
        ≡ (if g == hash then 0 else at_most_one (occurrences (λ u. u.hash) g us))
  unfolding distinct occurrences
  occurrences-distinct [] hash g s h = ground arith
  occurrences-distinct (u ∷ us) hash g s h = elim (Bool-cases (u.hash == hash)) [
    | inl same ↦ ground (arith, same, occurrences-distinct us hash g s.1 h.1)
    | inr differs ↦
        ground
          (arith, differs, h.0, occurrences-distinct us u.hash g s.1 s.0, below us g u.hash s.0)
  ]

module _ {ℓ} {A : Type ℓ} (core : Core A) (text : A → Bytes) where
  -- The hash of an entry.
  abbrev pub hash_of : A → ℕ
  hash_of a = core.crc32_short (text a)

  abbrev pub uniq : A → Uniq A
  uniq a = record { hash = hash_of a; entry = a }

  pub hash_all_lem :
      (keys : List A) (room : ℕ)
      → 2 * length keys ≤ room
      → hash_all core text keys room ≡ some (room - 2 * length keys, map uniq keys)
  unfolding hash_all
  hash_all_lem [] room h = ap (λ n. some (n, [])) (omega arith)
  hash_all_lem (a ∷ as') room h =
      let few : ltb room 2 ≡ false = ground (arith, h) in
      let rest = hash_all_lem as' (room - 2) (omega arith) in
      rw (hash_all, few, rest) (ap (λ n. some (n, uniq a ∷ map uniq as')) (omega arith))

  push_entry_lem :
      (kept : Option (List A)) (a : A) (room : ℕ)
      → 2 ≤ room
      → (room' : ℕ) × (kept' : List A) × (push_entry core text kept a room ≡ some (room', kept'))
        × (some kept' ≡ found_with kept (a ∷ []))
        × (room ≤ room' + 2)
  unfolding push_entry
  push_entry_lem none a room h =
      let few : ltb room 2 ≡ false = ground (arith, h) in
      (room - 2, a ∷ [], rw few refl, refl, omega arith)
  push_entry_lem (some kept) a room h =
      let few : ltb room 1 ≡ false = ground (arith, h) in
      (room - 1, kept ++ a ∷ [], rw few refl, refl, omega arith)

  pub keep_lem :
      (us : List (Uniq A)) (hash : ℕ) (kept : Option (List A)) (room : ℕ)
      → 2 * length us ≤ room
      → keep core text us hash kept room
        ≡ (ok, found_with kept (map (λ u. u.entry) (distinct us hash)))
  unfolding keep distinct
  keep_lem [] hash kept room h = refl
  keep_lem (u ∷ us) hash kept room h = elim (Bool-cases (u.hash == hash)) [
    | inl same ↦ rw (keep, same) (keep_lem us hash kept room (omega arith))
    | inr other ↦
        let (room', kept', pushed, e, enough) = push_entry_lem kept u.entry room (omega arith) in
        let rest = keep_lem us u.hash (some kept') room' (omega arith) in
        let entries = map (λ (v : Uniq A). v.entry) (distinct us u.hash) in
        rw (keep, other, pushed)
          (rest
            ∙ ap (λ o. (ok, o))
                (ap (λ o. found_with o entries) e ∙ found_with-append kept (u.entry ∷ []) entries))
  ]
