-- ===== src/Unique.antt =====
-- The removal of duplicates from the filters and from the limits of a location:
-- `filter_unique` of ngx_metric_module/src/ngx_http_vhost_traffic_status_filter.c and
-- `limit_traffic_unique` of ngx_http_vhost_traffic_status_limit.c, which are one code for two types.
-- The array is `none` for `NULL`.
pub mod Kept
pub mod Hashes
use Prim.Native.Nat.Ordering.{lt, eq, gt}
use mathlib.Core.List.{Permᴰ}
use metrics_server_example.Base.{
  ℕ, zero, suc, ◌+◌, ◌-◌, ◌%◌, ◌^◌, ◌≡◌, ◌≤◌, Bool, true, false, Option, none, some, List, [], ◌∷◌,
  ◌++◌, Ordering, compare, ltb, ◌==◌, if◌then◌else◌, length, All,
}
use metrics_server_example.Text.{Bytes, Status, ok, error}

-- `filter_uniq_t`: the hash, and the entry of the array in place of its index.
pub record Uniq {ℓ} (A : Type ℓ) : Type ℓ where
  pub hash : ℕ
  pub entry : A

-- `filter_cmp_hashs`: the difference of two 32-bit words, read as an `int`.
unfoldable pub cmp_hashs : ℕ → ℕ → Ordering
cmp_hashs a b =
    let d = (a + 2 ^ 32 - b) % 2 ^ 32 in if d == 0 then eq else (if ltb d (2 ^ 31) then gt else lt)

-- Hashes that do not fall.
abbrev pub Ascending {ℓ} : {A : Type ℓ} → List (Uniq A) → Type 0
Ascending [] = Unit
Ascending (u ∷ us) = All (λ v. u.hash ≤ v.hash) us × Ascending us

-- `ngx_qsort`, for a comparison of the hashes, and `ngx_crc32_short`.
pub record Core {ℓ} (A : Type ℓ) : Type ℓ where
  pub qsort : (ℕ → ℕ → Ordering) → List (Uniq A) → List (Uniq A)
  pub crc32_short : Bytes → ℕ

-- `ngx_qsort` rearranges the array, into ascending order where the comparison is that of numbers.
pub record IsSorting {ℓ} {A : Type ℓ} (core : Core A) : Type ℓ where
  pub perm : (cmp : ℕ → ℕ → Ordering) (us : List (Uniq A)) → Permᴰ (core.qsort cmp us) us
  pub sorted :
      (cmp : ℕ → ℕ → Ordering) (us : List (Uniq A))
      → All (λ (u : Uniq A). All (λ (v : Uniq A). cmp u.hash v.hash ≡ compare u.hash v.hash) us) us
      → Ascending (core.qsort cmp us)

-- `room`: how many allocations from the pool succeed before one fails.
module _ {ℓ} {A : Type ℓ} (core : Core A) (text : A → Bytes) where
  -- The first loop: each round allocates a key and an entry.
  unfoldable pub hash_all : List A → ℕ → Option (ℕ × List (Uniq A))
  hash_all [] room = some (room, [])
  hash_all (a ∷ as') room = elim (ltb room 2) [
    | true ↦ none
    | false ↦ elim (hash_all as' (room - 2)) [
      | none ↦ none
      | some (room', us) ↦ some (room', record { hash = core.crc32_short (text a); entry = a } ∷ us)
    ]
  ]

  -- `ngx_array_create`, where there is no array yet, and `ngx_array_push`.
  unfoldable pub push_entry : Option (List A) → A → ℕ → Option (ℕ × List A)
  push_entry none a room = if ltb room 2 then none else some (room - 2, a ∷ [])
  push_entry (some kept) a room = if ltb room 1 then none else some (room - 1, kept ++ a ∷ [])

  -- The second loop: an entry is kept where its hash is not that of the one before.
  unfoldable pub keep : List (Uniq A) → ℕ → Option (List A) → ℕ → Status × Option (List A)
  unfolding push_entry
  keep [] hash kept room = (ok, kept)
  keep (u ∷ us) hash kept room = elim (u.hash == hash) [
    | true ↦ keep us hash kept room
    | false ↦ elim (push_entry kept u.entry room) [
      | none ↦ (error, kept)
      | some (room', kept') ↦ keep us u.hash (some kept') room'
    ]
  ]

  -- The whole function: the status, and the array afterwards. `none` is the read through `NULL` where
  -- nothing was kept.
  unfoldable pub unique : Option (List A) → ℕ → Option (Status × Option (List A))
  unfolding hash_all cmp_hashs keep
  unique none room = some (ok, none)
  unique (some keys) zero = some (error, some keys)
  unique (some keys) (suc room) = elim (hash_all keys room) [
    | none ↦ some (error, some keys)
    | some (room', us) ↦
        let r = keep (core.qsort cmp_hashs us) 0 none room' in
        elim r.0 [
          | error ↦ some (error, some keys)
          | ok ↦ elim r.1 [
            | none ↦ none
            | some kept ↦ some (ok, some (if length keys == length kept then keys else kept))
          ]
        ]
  ]

-- `filter_t`, as it is configured.
pub record FilterText : Type 0 where
  pub filter_key : Bytes
  pub filter_name : Bytes

-- `filter_unique`
unfoldable pub filter_unique :
    Core FilterText → Option (List FilterText) → ℕ → Option (Status × Option (List FilterText))
unfolding unique
filter_unique core keys room = unique core (λ f. f.filter_key ++ f.filter_name) keys room

-- `limit_t`, as it is configured.
pub record LimitText : Type 0 where
  pub key : Bytes
  pub variable : Bytes
  pub type : ℕ
  pub size : ℕ
  pub code : ℕ

-- `limit_traffic_unique`
unfoldable pub limit_traffic_unique :
    Core LimitText → Option (List LimitText) → ℕ → Option (Status × Option (List LimitText))
unfolding unique
limit_traffic_unique core keys room = unique core (λ l. l.key ++ l.variable) keys room
