-- ===== src/Unique/Hashes.antt =====
-- `filter_unique` of ngx_metric_module/src/ngx_http_vhost_traffic_status_filter.c and
-- `limit_traffic_unique` of ngx_http_vhost_traffic_status_limit.c, on hashes.
use mathlib.Core.List.{Permᴰ}
use mathlib.Core.List.Permᴰ
use mathlib.Core.Path.{subst}
use metrics_server_example.Base.{
  ℕ, zero, suc, ◌+◌, ◌-◌, ◌*◌, ◌^◌, ◌≡◌, ◌≢◌, ◌≤◌, ◌<◌, refl, sym, ap, ◌∙◌, none, some, List, [],
  ◌∷◌, map, arith, inl, inr, ◌⊎◌, compare, ◌==◌, ==→eq, length, All, All-mono, Bool-cases,
  length-map, found_with,
}
use metrics_server_example.Text.{Bytes, ok}
use metrics_server_example.Unique.{Uniq, cmp_hashs, Core, IsSorting, unique}
use metrics_server_example.Unique.Kept.{
  cmp_hashs-compare, occurrences, All-perm, occurrences-perm, length-perm, distinct, distinct-all,
  All-distinct, at_most_one, occurrences-distinct, hash_of, uniq, hash_all_lem, keep_lem,
}

All-map {ℓ ℓ'} :
    {A : Type ℓ} {B : Type ℓ'} (P : B → Type 0) (f : A → B) (xs : List A)
    → All (λ x. P (f x)) xs
    → All P (map f xs)
All-map P f [] h = tt
All-map P f (x ∷ xs) h = (h.0, All-map P f xs h.1)

-- Hashes of 32 bits that are less than 2^31 apart, and none is 0.
abbrev pub Close : ℕ → ℕ → Type 0
Close low h = (low ≤ h) × (h < low + 2 ^ 31) × (h < 2 ^ 32) × (0 < h)

module _ {ℓ} {A : Type ℓ} (core : Core A) (text : A → Bytes) where
  abbrev hash : A → ℕ
  hash = hash_of core text

  occurrences-entry :
      (us : List (Uniq A)) (g : ℕ)
      → All (λ u. u.hash ≡ hash u.entry) us
      → occurrences hash g (map (λ u. u.entry) us) ≡ occurrences (λ u. u.hash) g us
  unfolding occurrences
  occurrences-entry [] g h = refl
  occurrences-entry (u ∷ us) g h = ground (arith, h.0, occurrences-entry us g h.1)

  occurrences-uniq :
      (as' : List A) (g : ℕ)
      → occurrences (λ u. u.hash) g (map (uniq core text) as') ≡ occurrences hash g as'
  unfolding occurrences
  occurrences-uniq [] g = refl
  occurrences-uniq (a ∷ as') g = ground (arith, occurrences-uniq as' g)

  All-true : (as' : List A) → All (λ a. hash a ≡ hash a) as'
  All-true [] = tt
  All-true (a ∷ as') = (refl, All-true as')

  compares :
      (low : ℕ) (as' : List A)
      → All (λ a. Close low (hash a)) as'
      → All
          (λ (u : Uniq A).
            All
              (λ (v : Uniq A). cmp_hashs u.hash v.hash ≡ compare u.hash v.hash)
              (map (uniq core text) as'))
          (map (uniq core text) as')
  compares low as' close =
      All-map
        (λ (u : Uniq A).
          All (λ (v : Uniq A). cmp_hashs u.hash v.hash ≡ compare u.hash v.hash)
            (map (uniq core text) as'))
        (uniq core text) as'
        (All-mono (λ a. Close low (hash a)) as'
          (λ a p.
            All-map (λ (v : Uniq A). cmp_hashs (hash a) v.hash ≡ compare (hash a) v.hash)
              (uniq core text) as'
              (All-mono (λ b. Close low (hash b)) as'
                (λ b q. cmp_hashs-compare low (hash a) (hash b) (p.0, p.1) (q.0, q.1) p.2 q.2)
                close))
          close)

  list-cases : (bs : List A) → (bs ≡ []) ⊎ ((c : A) × (cs : List A) × (bs ≡ c ∷ cs))
  list-cases [] = inl refl
  list-cases (c ∷ cs) = inr (c, cs, refl)

  -- An array with one entry of each hash of `as'`, and only entries of `as'`.
  abbrev pub OneEach : List A → List A → Type (ℓ ⊔ 1)
  OneEach as' kept =
      ((g : ℕ) → occurrences hash g kept ≡ at_most_one (occurrences hash g as'))
      × ((P : A → Type 0) → All P as' → All P kept)

  occurs : (as' : List A) → 0 < length as' → (g : ℕ) × (0 < occurrences hash g as')
  unfolding occurrences
  occurs [] h = absurd (omega arith)
  occurs (a ∷ as') h = (hash a, ground arith)

  module _ (sorting : IsSorting core) (low : ℕ) (as' : List A)
      (close : All (λ a. Close low (hash a)) as') where
    sorted : List (Uniq A)
    sorted = core.qsort cmp_hashs (map (uniq core text) as')

    sorted-perm : Permᴰ sorted (map (uniq core text) as')
    unfolding sorted
    sorted-perm = sorting.perm cmp_hashs (map (uniq core text) as')

    All-sorted : (P : Uniq A → Type 0) → All (λ a. P (uniq core text a)) as' → All P sorted
    All-sorted P h = All-perm P (Permᴰ.symm sorted-perm) (All-map P (uniq core text) as' h)

    occurrences-sorted : (g : ℕ) → occurrences (λ u. u.hash) g sorted ≡ occurrences hash g as'
    occurrences-sorted g =
        occurrences-perm (λ (u : Uniq A). u.hash) g sorted-perm ∙ occurrences-uniq as' g

    entries : List A
    entries = map (λ (u : Uniq A). u.entry) (distinct sorted 0)

    occurrences-zero : (bs : List A) → All (λ a. Close low (hash a)) bs → occurrences hash 0 bs ≡ 0
    unfolding occurrences
    occurrences-zero [] h = refl
    occurrences-zero (b ∷ bs) h = ground (arith, h.0.3, occurrences-zero bs h.1)

    entries-OneEach : OneEach as' entries
    unfolding entries
    entries-OneEach = (
      λ g.
          occurrences-entry (distinct sorted 0) g (
            All-distinct (λ u. u.hash ≡ hash u.entry) sorted 0
              (All-sorted (λ u. u.hash ≡ hash u.entry) (All-true as')))
          ∙ occurrences-distinct sorted 0 g
              (unfold sorted in
                sorting.sorted cmp_hashs (map (uniq core text) as') (compares low as' close))
              (All-sorted (λ u. 0 ≤ u.hash)
                (All-mono (λ a. Close low (hash a)) as' (λ a p. omega arith) close))
          ∙ ground (arith, occurrences-sorted g, occurrences-zero as' close),
      λ P h.
          All-map P (λ (u : Uniq A). u.entry) (distinct sorted 0)
            (All-distinct (λ u. P u.entry) sorted 0 (All-sorted (λ u. P u.entry) h)),
    )

    -- Where no entry was dropped, the array itself has one entry of each hash.
    same-OneEach : length as' ≡ length entries → OneEach as' as'
    unfolding entries
    same-OneEach e =
        let whole : distinct sorted 0 ≡ sorted = distinct-all sorted 0 (
          sym (length-map (λ (u : Uniq A). u.entry) (distinct sorted 0))
          ∙ sym e
          ∙ sym (length-map (uniq core text) as')
          ∙ sym (length-perm sorted-perm)) in
        let each = entries-OneEach in
        (
          λ g.
              sym (occurrences-sorted g)
              ∙ sym (
                  occurrences-entry sorted g
                    (All-sorted (λ u. u.hash ≡ hash u.entry) (All-true as')))
              ∙ ap (λ us. occurrences hash g (map (λ (u : Uniq A). u.entry) us)) (sym whole)
              ∙ each.0 g,
          λ P h. h,
        )

    entries-ne-nil : 0 < length as' → entries ≢ []
    entries-ne-nil some_length e =
        let (g, many) = occurs as' some_length in
        let each = entries-OneEach.0 g in
        let gone = ap (occurrences hash g) e in
        unfold occurrences in ground (arith, many, each, gone)

    unique_lem :
        (room : ℕ)
        → 0 < length as'
        → 4 * length as' ≤ room
        → (kept : List A) × (unique core text (some as') (suc room) ≡ some (ok, some kept))
          × OneEach as' kept
    unfolding unique entries sorted
    unique_lem room some_length enough =
        let read = hash_all_lem core text as' room (omega arith) in
        let size = length-perm sorted-perm in
        let size' = length-map (uniq core text) as' in
        let kept =
          keep_lem core text sorted 0 none (room - 2 * length as') (omega (arith, size, size')) in
        elim (list-cases entries) [
          | inl nil ↦ absurd (entries-ne-nil some_length nil)
          | inr (b, bs, e) ↦
              let found = kept ∙ ap (λ es. (ok, found_with none es)) e in
              rw (unique, read, found, found)
                (elim (Bool-cases (length as' == length (b ∷ bs))) [
                  | inl same ↦ rw same (
                    as',
                    refl,
                    same-OneEach (==→eq (length as') (length (b ∷ bs)) same ∙ sym (ap length e)),
                  )
                  | inr fewer ↦ rw fewer (b ∷ bs, refl, subst (OneEach as') e entries-OneEach)
                ])
        ]

-- `filter_unique` and `limit_traffic_unique`, one code for two types, leave an array in which each hash
-- of the entries they were given has one entry, and whose entries are all among those. This is for an
-- `ngx_qsort` that sorts, for at least one entry, for hashes of 32 bits of which none is 0 and which are
-- less than 2^31 apart, and for a pool with room for the arrays and keys.
pub unique-occurrences {ℓ} :
    {A : Type ℓ} (core : Core A) (text : A → Bytes) (low : ℕ) (keys : List A) (room : ℕ)
    → IsSorting core
    → All (λ a. Close low (core.crc32_short (text a))) keys
    → 0 < length keys
    → 4 * length keys < room
    → (kept : List A) × (unique core text (some keys) room ≡ some (ok, some kept))
      × ((g : ℕ)
          → occurrences (λ a. core.crc32_short (text a)) g kept
            ≡ at_most_one (occurrences (λ a. core.crc32_short (text a)) g keys))
      × ((P : A → Type 0) → All P keys → All P kept)
unique-occurrences core text low keys zero sorting close some_length enough = absurd (omega arith)
unique-occurrences core text low keys (suc room) sorting close some_length enough =
    let (kept, e, each) =
      unique_lem core text sorting low keys close room some_length (omega arith) in
    (kept, e, each.0, each.1)

distinct-zero {ℓ} :
    {A : Type ℓ} (us : List (Uniq A)) → All (λ u. u.hash ≡ 0) us → distinct us 0 ≡ []
unfolding distinct
distinct-zero [] h = refl
distinct-zero (u ∷ us) h = ground (arith, h.0, distinct-zero us h.1)

-- Where every entry has the hash 0, both read the size of an array that is not there, for at least one
-- entry, for a pool with room, and for an `ngx_qsort` that sorts.
pub unique-zero {ℓ} :
    {A : Type ℓ} (core : Core A) (text : A → Bytes) (keys : List A) (room : ℕ)
    → IsSorting core
    → All (λ a. core.crc32_short (text a) ≡ 0) keys
    → 4 * length keys < room
    → unique core text (some keys) room ≡ none
unfolding unique
unique-zero core text keys zero sorting zeros enough = absurd (omega arith)
unique-zero core text keys (suc room) sorting zeros enough =
    let us = map (uniq core text) keys in
    let sorted' = core.qsort cmp_hashs us in
    let perm = sorting.perm cmp_hashs us in
    let read = hash_all_lem core text keys room (omega arith) in
    let kept =
      keep_lem core text sorted' 0 none (room - 2 * length keys)
        (omega (arith, length-perm perm, length-map (uniq core text) keys)) in
    let nothing = distinct-zero sorted' (
      All-perm (λ (u : Uniq _). u.hash ≡ 0) (Permᴰ.symm perm)
        (All-map (λ (u : Uniq _). u.hash ≡ 0) (uniq core text) keys zeros)) in
    let found =
      kept ∙ ap (λ es. (ok, found_with none (map (λ (u : Uniq _). u.entry) es))) nothing in
    rw (unique, read, found, found) refl
