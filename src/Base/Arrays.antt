-- ===== src/Base/Arrays.antt =====
-- An array of the request's pool that is created when its first entry comes; `none` for `NULL`.
use Prim.Native.Nat.{ℕ, ◌+◌}
use mathlib.Core.Path.{◌≡◌, refl, sym, ap}
use mathlib.Core.Option.{Option, none, some}
use mathlib.Core.List.{List, [], ◌∷◌, ◌++◌, append_assoc, append-nil}
use native.Mathlib.Omega.{arith}
use metrics_server_example.Base.Lists.{length, length-append}

module _ {ℓ} {A : Type ℓ} where
  -- The array after more entries.
  abbrev pub found_with : Option (List A) → List A → Option (List A)
  found_with o [] = o
  found_with none (m ∷ ms) = some (m ∷ ms)
  found_with (some ns) (m ∷ ms) = some (ns ++ m ∷ ms)

  pub found_with-append :
      (o : Option (List A)) (xs ys : List A)
      → found_with (found_with o xs) ys ≡ found_with o (xs ++ ys)
  found_with-append o [] ys = refl
  found_with-append none (x ∷ xs) [] = ap (λ zs. some (x ∷ zs)) (sym (append-nil xs))
  found_with-append none (x ∷ xs) (y ∷ ys) = refl
  found_with-append (some ns) (x ∷ xs) [] = ap (λ zs. some (ns ++ x ∷ zs)) (sym (append-nil xs))
  found_with-append (some ns) (x ∷ xs) (y ∷ ys) = ap some (append_assoc ns (x ∷ xs) (y ∷ ys))

  abbrev pub size : Option (List A) → ℕ
  size none = 0
  size (some ns) = length ns

  pub size-found_with :
      (o : Option (List A)) (xs : List A) → size (found_with o xs) ≡ size o + length xs
  size-found_with none [] = refl
  size-found_with (some ns) [] = omega arith
  size-found_with none (x ∷ xs) = omega arith
  size-found_with (some ns) (x ∷ xs) = length-append ns (x ∷ xs)
