-- ===== src/Base/Keys.antt =====
-- Tables whose keys differ: each row is the one that a query by its key finds.
use Prim.Native.String.{String}
use mathlib.Core.Path.{◌≡◌}
use mathlib.Core.Option.{none, some}
use mathlib.Core.List.{[], ◌∷◌}
use native.Mathlib.Omega.{arith}
use text.Mathlib.TextEquality.{eq_iff}
use shared_mind.Base.Tables.{Table, find, insert, update, find-update}

module _ {ℓ} {V : Type ℓ} where
  -- No key stands twice.
  abbrev pub HasKeys : Table V → Type ℓ
  HasKeys [] = Unit
  HasKeys ((k, v) ∷ t) = (find k t ≡ none) × HasKeys t

  -- Each row, as it stands in the table, satisfies `P`.
  abbrev pub Entries {κ} : (String → V → Type κ) → Table V → Type κ
  Entries P [] = Unit
  Entries P ((k, v) ∷ t) = P k v × Entries P t

  pub Entries-map {κ ι} :
      (P : String → V → Type κ) (Q : String → V → Type ι) (t : Table V)
      → ((k : String) (v : V) → P k v → Q k v)
      → Entries P t
      → Entries Q t
  Entries-map P Q [] f h = tt
  Entries-map P Q ((k, v) ∷ t) f h = (f k v h.0, Entries-map P Q t f h.1)

  pub HasKeys-insert :
      (k : String) (v : V) (t : Table V) → find k t ≡ none → HasKeys t → HasKeys (insert k v t)
  unfolding insert
  HasKeys-insert k v t new h = (new, h)

  pub HasKeys-update : (k : String) (f : V → V) (t : Table V) → HasKeys t → HasKeys (update k f t)
  unfolding update find
  HasKeys-update k f [] h = tt
  HasKeys-update k f ((j, v) ∷ t) h =
      ground (arith, HasKeys-update k f t h.1, find-update j k f t, eq_iff j k)

  -- In a table whose keys differ every row is found under its key.
  pub Entries-found : (t : Table V) → HasKeys t → Entries (λ k v. find k t ≡ some v) t
  unfolding find
  Entries-found [] h = tt
  Entries-found ((k, v) ∷ t) h = (
    ground (arith, eq_iff k k),
    Entries-map (λ j w. find j t ≡ some w) (λ j w. find j ((k, v) ∷ t) ≡ some w) t
        (λ j w p. ground (arith, eq_iff k j, p, h.0)) (Entries-found t h.1),
  )
