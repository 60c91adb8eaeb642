-- ===== src/Prelude/Assoc.antt =====
-- A table with a text key (`HashMap<String, _>`, or a SQL table whose primary key is TEXT), as an
-- association list, with its laws.
use Prim.Native.String.{String}
use mathlib.Core.Path.{◌≡◌, refl}
use mathlib.Core.Option.{Option, none, some}
use mathlib.Core.List.{List, [], ◌∷◌}
use native.Mathlib.Omega.{arith}
use text.Mathlib.Text.{◌==◌}
use text.Mathlib.TextEquality.{eq_iff}
use text.Mathlib.TextPositions.{eq_refl}
use corpus.Prelude.Tests.{if◌then◌else◌}

abbrev pub Assoc {ℓ} : Type ℓ → Type ℓ
Assoc V = List (String × V)

module _ {ℓ} {V : Type ℓ} where
  -- `HashMap::remove`, `fs::remove_file`
  unfoldable pub remove : String → Assoc V → Assoc V
  remove key [] = []
  remove key ((name, value) ∷ table) =
      let rest = remove key table in if name == key then rest else (name, value) ∷ rest

  -- `INSERT … ON CONFLICT(key) DO UPDATE`, `HashMap::insert`
  unfoldable pub insert : String → V → Assoc V → Assoc V
  insert key new [] = (key, new) ∷ []
  insert key new ((name, value) ∷ table) =
      let rest = insert key new table in
      if name == key then (key, new) ∷ table else (name, value) ∷ rest

  unfoldable pub lookup : String → Assoc V → Option V
  lookup key [] = none
  lookup key ((name, value) ∷ table) =
      let rest = lookup key table in if name == key then some value else rest

  pub lookup-insert :
      (key other : String) (new : V) (table : Assoc V)
      → lookup other (insert key new table)
        ≡ (if key == other then some new else lookup other table)
  unfolding lookup insert
  lookup-insert key other new [] = ground arith
  lookup-insert key other new ((name, value) ∷ table) =
      let rest = lookup-insert key other new table in
      ground (arith, rest, eq_iff name key, eq_iff name other, eq_iff key other)

  pub lookup-remove :
      (key other : String) (table : Assoc V)
      → lookup other (remove key table) ≡ (if key == other then none else lookup other table)
  unfolding lookup remove
  lookup-remove key other [] = ground arith
  lookup-remove key other ((name, value) ∷ table) =
      let rest = lookup-remove key other table in
      ground (arith, rest, eq_iff name key, eq_iff name other, eq_iff key other)

  -- Removing a key that is not there changes nothing.
  pub remove_of_absent : (k : String) (m : Assoc V) → lookup k m ≡ none → remove k m ≡ m
  unfolding lookup remove
  remove_of_absent k [] h = refl
  remove_of_absent k ((j, v) ∷ m) h = ground (arith, remove_of_absent k m)

  -- A file that is created under a fresh name and then removed leaves the directory as it was.
  pub remove-cons_self :
      (k : String) (v : V) (m : Assoc V) → lookup k m ≡ none → remove k ((k, v) ∷ m) ≡ m
  unfolding lookup remove
  remove-cons_self k v m h = ground (arith, eq_refl k, remove_of_absent k m)

  pub lookup-cons_self : (k : String) (v : V) (m : Assoc V) → lookup k ((k, v) ∷ m) ≡ some v
  unfolding lookup
  lookup-cons_self k v m = ground (arith, eq_refl k)
