-- ===== src/Base/Tables.antt =====
-- A table with a text primary key: its rows, the last inserted first.
use Prim.Native.String.{String}
use mathlib.Core.Path.{◌≡◌, refl, subst}
use mathlib.Core.Logic.{inl, inr}
use mathlib.Core.Option
use mathlib.Core.Option.{Option, none, some}
use mathlib.Core.List.{List, [], ◌∷◌}
use native.Mathlib.Omega.{arith}
use text.Mathlib.Text.{◌==◌}
use text.Mathlib.TextEquality.{eq_iff}
use shared_mind.Base.Tests.{if◌then◌else◌, Bool-cases}

abbrev pub Table {ℓ} : Type ℓ → Type ℓ
Table V = List (String × V)

module _ {ℓ} {V : Type ℓ} where
  -- SELECT ... WHERE key = ?
  unfoldable pub find : String → Table V → Option V
  find k [] = none
  find k ((j, v) ∷ t) = if j == k then some v else find k t

  -- INSERT, of a key that the caller has found absent
  unfoldable pub insert : String → V → Table V → Table V
  insert k v t = (k, v) ∷ t

  -- UPDATE ... WHERE key = ?, of the one row with the key
  unfoldable pub update : String → (V → V) → Table V → Table V
  update k f [] = []
  update k f ((j, v) ∷ t) = if j == k then (j, f v) ∷ t else (j, v) ∷ update k f t

  pub find-insert :
      (j k : String) (v : V) (t : Table V)
      → find j (insert k v t) ≡ (if k == j then some v else find j t)
  unfolding find insert
  find-insert j k v t = refl

  pub find-update :
      (j k : String) (f : V → V) (t : Table V)
      → find j (update k f t) ≡ (if k == j then Option.map f (find j t) else find j t)
  unfolding find update
  find-update j k f [] = ground arith
  find-update j k f ((i, w) ∷ t) =
      ground (arith, eq_iff k j, eq_iff i k, eq_iff i j, find-update j k f t)

  -- Two updates that agree on the row with the key do the same.
  pub update_congr :
      (k : String) (f g : V → V) (t : Table V) (v : V)
      → find k t ≡ some v
      → f v ≡ g v
      → update k f t ≡ update k g t
  unfolding find update
  update_congr k f g [] v p e = refl
  update_congr k f g ((j, w) ∷ t) v p e = ground (arith, update_congr k f g t v)

  -- Each row that a query can find satisfies `P`.
  abbrev pub All {κ} : (String → V → Type κ) → Table V → Type (ℓ ⊔ κ)
  All P t = (k : String) (v : V) → find k t ≡ some v → P k v

  pub All-insert {κ} :
      (P : String → V → Type κ) (k : String) (v : V) (t : Table V)
      → All P t
      → P k v
      → All P (insert k v t)
  All-insert P k v t all new j w e = elim (Bool-cases (k == j)) [
    | inl same ↦
        subst (λ x. P x w) ((eq_iff k j).0 same)
          (subst (P k) (ground (arith, find-insert j k v t, e, same)) new)
    | inr other ↦ all j w (ground (arith, find-insert j k v t, e, other))
  ]

  pub All-update {κ} :
      (P : String → V → Type κ) (k : String) (f : V → V) (t : Table V)
      → All P t
      → ((v : V) → find k t ≡ some v → P k (f v))
      → All P (update k f t)
  All-update P k f t all new j w e = elim (Bool-cases (k == j)) [
    | inr other ↦ all j w (ground (arith, find-update j k f t, e, other))
    | inl same ↦ updated ((eq_iff k j).0 same) (find j t) refl
  ]
    where
      updated : k ≡ j → (o : Option V) → find j t ≡ o → P j w
      updated p none q = absurd (ground (arith, find-update j k f t, e, q, eq_iff k j, p))
      updated p (some u) q =
          subst (λ x. P x w) p
            (subst (P k) (ground (arith, find-update j k f t, e, q, eq_iff k j, p))
              (new u (rw p q)))

  -- A new key hides no row.
  pub find-insert_old :
      (j k : String) (w : V) (t : Table V) {v : V}
      → find j t ≡ none
      → find k t ≡ some v
      → find k (insert j w t) ≡ some v
  find-insert_old j k w t new old = ground (arith, find-insert k j w t, eq_iff j k, new, old)

  -- An update keeps every row, up to what it does to the row of its key.
  pub update_step {κ} :
      (R : V → V → Type κ) (j k : String) (f : V → V) (t : Table V) (v : V)
      → find k t ≡ some v
      → R v v
      → (j ≡ k → R v (f v))
      → (w : V) × (find k (update j f t) ≡ some w) × R v w
  update_step R j k f t v old same step = elim (Bool-cases (j == k)) [
    | inl p ↦ (f v, ground (arith, find-update k j f t, old, p), step ((eq_iff j k).0 p))
    | inr p ↦ (v, ground (arith, find-update k j f t, old, p), same)
  ]
