-- ===== src/Prelude/Names.antt =====
-- A namespace of Kubernetes, as the list of the names in it.
use mathlib.Core.Path.{◌≡◌, refl}
use mathlib.Core.Bool.{Bool, true, false}
use mathlib.Core.List.{List, [], ◌∷◌}
use Prim.Native.String.{String}
use native.Mathlib.Omega.{arith}
use text.Mathlib.Text.{◌==◌ as str_eq}
use text.Mathlib.TextEquality.{eq_iff}
use obarena.Prelude.Tests.{if◌then◌else◌}

unfoldable pub holds : String → List String → Bool
holds name [] = false
holds name (x ∷ xs) = let rest = holds name xs in if str_eq x name then true else rest

unfoldable pub without : String → List String → List String
without name [] = []
without name (x ∷ xs) = let rest = without name xs in if str_eq x name then rest else x ∷ rest

without-absent : (name : String) (xs : List String) → holds name xs ≡ false → without name xs ≡ xs
unfolding holds without
without-absent name [] absent = refl
without-absent name (x ∷ xs) absent = ground (arith, absent, without-absent name xs)

pub without-added :
    (name : String) (xs : List String) → holds name xs ≡ false → without name (name ∷ xs) ≡ xs
unfolding without
without-added name xs absent = ground (arith, eq_iff name name, without-absent name xs absent)

pub holds-without : (name : String) (xs : List String) → holds name (without name xs) ≡ false
unfolding holds without
holds-without name [] = refl
holds-without name (x ∷ xs) = ground (arith, holds-without name xs)
