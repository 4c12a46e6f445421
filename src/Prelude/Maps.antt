-- ===== src/Prelude/Maps.antt =====
-- Go maps with string keys, as association lists. The order of the list stands for the order in
-- which `range` visits the keys: a statement over every list covers every order.
use Prim.Native.Nat.{suc}
use Prim.Native.String.{String}
use mathlib.Core.Path.{◌≡◌, refl, ap, ◌∙◌}
use mathlib.Core.Bool.{Bool, true, false}
use mathlib.Core.Option.{Option, none, some}
use mathlib.Core.List.{List, [], ◌∷◌}
use native.Mathlib.Omega.{arith}
use text.Mathlib.Text.{◌==◌}
use text.Mathlib.TextEquality.{eq_iff}
use shar.Prelude.Tests.{if◌then◌else◌}
use shar.Prelude.Lists.{length}

abbrev pub Map {ℓ} : Type ℓ → Type ℓ
Map V = List (String × V)

abbrev pub is_some {ℓ} : {A : Type ℓ} → Option A → Bool
is_some none = false
is_some (some a) = true

module _ {ℓ} {V : Type ℓ} where
  -- v, ok := m[k]
  unfoldable pub lookup : String → Map V → Option V
  lookup key [] = none
  lookup key ((head, value) ∷ tail) = if head == key then some value else lookup key tail

  -- m[k] = v
  unfoldable pub insert : String → V → Map V → Map V
  insert key value [] = (key, value) ∷ []
  insert key value ((head, old) ∷ tail) =
      if head == key then (key, value) ∷ tail else (head, old) ∷ insert key value tail

  abbrev pub has_key : String → Map V → Bool
  has_key k m = is_some (lookup k m)

  pub lookup-insert :
      (written read : String) (value : V) (entries : Map V)
      → lookup read (insert written value entries)
        ≡ (if written == read then some value else lookup read entries)
  unfolding lookup insert
  lookup-insert written read value [] = refl
  lookup-insert written read value ((head, old) ∷ tail) = ground (
    lookup-insert written read value tail,
    eq_iff head written,
    eq_iff head read,
    eq_iff written read,
    arith,
  )

  pub has_key-insert :
      (read written : String) (value : V) (entries : Map V)
      → has_key read (insert written value entries)
        ≡ (if written == read then true else has_key read entries)
  has_key-insert read written value entries =
      ap is_some (lookup-insert written read value entries) ∙ go (written == read)
    where
      go :
          (b : Bool)
          → is_some (if b then some value else lookup read entries)
            ≡ (if b then true else has_key read entries)
      go true = refl
      go false = refl

  -- A write to a new key makes the map longer by one, and any other write does not.
  pub length-insert :
      (k : String) (v : V) (m : Map V)
      → length (insert k v m) ≡ (if has_key k m then length m else suc (length m))
  unfolding lookup insert
  length-insert k v [] = refl
  length-insert k v ((i, w) ∷ m) = ground (arith, length-insert k v m)

abbrev pub keys {ℓ} : {V : Type ℓ} → Map V → List String
keys [] = []
keys ((k, v) ∷ m) = k ∷ keys m

pub length-keys {ℓ} : {V : Type ℓ} (m : Map V) → length (keys m) ≡ length m
length-keys [] = refl
length-keys ((k, v) ∷ m) = ap suc (length-keys m)

-- A Go map holds each key once.
abbrev pub UniqueKeys {ℓ} : {V : Type ℓ} → Map V → Type ℓ
UniqueKeys [] = Unit
UniqueKeys ((k, v) ∷ m) = (lookup k m ≡ none) × UniqueKeys m
