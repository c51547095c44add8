-- ===== src/Base/Maps.antt =====
-- A store of entities as the list of its keys and values: `load_entity` reads the first entry of a key, and `save_entity`
-- replaces it or adds one.
use Prim.Native.Nat.{ℕ, ◌+◌, ◌≤◌}
use mathlib.Core.Path.{◌≡◌, refl, sym, subst, ap}
use mathlib.Core.Logic.{◌↔◌, inl, inr}
use mathlib.Core.Bool.{Bool, true, ◌&&◌}
use mathlib.Core.Option.{Option, none, some}
use mathlib.Core.List.{List, [], ◌∷◌}
use native.Mathlib.Omega.{arith}
use stability_protocol.Base.Compare.{◌==◌, if◌then◌else◌, Bool-cases}
use stability_protocol.Base.Int.{ℤ, pos, pos_part, neg_part, ◌+ℤ◌, int_laws}

pub record Key (K : Type 0) : Type 0 where
  pub same : K → K → Bool
  pub same_iff : (a b : K) → (same a b ≡ true) ↔ (a ≡ b)

pub number_iff : (a b : ℕ) → ((a == b) ≡ true) ↔ (a ≡ b)
number_iff a b = (λ h. ground arith, λ h. ground arith)

instance abbrev pub number_key : Key ℕ
number_key = record { same = λ a b. a == b; same_iff = number_iff }

module _ {K L : Type 0} ⦃key : Key K⦄ ⦃other : Key L⦄ where
  pub pair_iff : (a b : K × L) → ((key.same a.0 b.0 && other.same a.1 b.1) ≡ true) ↔ (a ≡ b)
  pair_iff a b = ground (arith, key.same_iff a.0 b.0, other.same_iff a.1 b.1)

  abbrev pub product_key : Key (K × L)
  product_key = record { same = λ a b. key.same a.0 b.0 && other.same a.1 b.1; same_iff = pair_iff }

instance abbrev pub pair_key : Key (ℕ × ℕ)
pair_key = product_key

instance abbrev pub triple_key : Key (ℕ × (ℕ × ℕ))
triple_key = product_key

abbrev pub Map : Type 0 → Type 0 → Type 0
Map K V = List (K × V)

-- A predicate on what was found, if something was.
abbrev pub OnSome : {V : Type 0} → (V → Type 0) → Option V → Type 0
OnSome P none = Unit
OnSome P (some v) = P v

pub anything : {V : Type 0} (o : Option V) → OnSome (λ _. Unit {0}) o
anything none = tt
anything (some v) = tt

pub on_some :
    {V : Type 0} (P Q : V → Type 0) (o : Option V) → OnSome P o → ((v : V) → P v → Q v) → OnSome Q o
on_some P Q none p up = tt
on_some P Q (some v) p up = up v p

module _ {K V : Type 0} ⦃key : Key K⦄ where
  unfoldable pub load_entity : K → Map K V → Option V
  load_entity k [] = none
  load_entity k ((j, v) ∷ m) = if key.same j k then some v else load_entity k m

  unfoldable pub save_entity : K → V → Map K V → Map K V
  save_entity k v [] = (k, v) ∷ []
  save_entity k v ((j, w) ∷ m) = if key.same j k then (j, v) ∷ m else (j, w) ∷ save_entity k v m

  pub load_entity-save_entity :
      (k j : K) (v : V) (m : Map K V)
      → load_entity j (save_entity k v m) ≡ (if key.same k j then some v else load_entity j m)
  unfolding load_entity save_entity
  load_entity-save_entity k j v [] = refl
  load_entity-save_entity k j v ((i, w) ∷ m) =
      ground (
        arith,
        key.same_iff k j,
        key.same_iff i k,
        key.same_iff i j,
        load_entity-save_entity k j v m,
      )

  -- What an entry contributes to a sum, nothing if it is missing.
  abbrev pub part : (K → V → ℕ) → K → Option V → ℕ
  part f k none = 0
  part f k (some v) = f k v

  abbrev pub count_by : (K → V → ℕ) → Map K V → ℕ
  count_by f [] = 0
  count_by f ((k, v) ∷ m) = f k v + count_by f m

  -- Saving exchanges the part of the old entry for that of the new one.
  pub count_by-save_entity :
      (f : K → V → ℕ) (k : K) (v : V) (m : Map K V)
      → count_by f (save_entity k v m) + part f k (load_entity k m) ≡ count_by f m + f k v
  unfolding load_entity save_entity
  count_by-save_entity f k v [] = omega arith
  count_by-save_entity f k v ((j, w) ∷ m) =
      ground (arith, key.same_iff j k, count_by-save_entity f k v m)

  pub part-le-count_by :
      (f : K → V → ℕ) (k : K) (m : Map K V) → part f k (load_entity k m) ≤ count_by f m
  unfolding load_entity
  part-le-count_by f k [] = omega arith
  part-le-count_by f k ((j, w) ∷ m) = ground (arith, key.same_iff j k, part-le-count_by f k m)

  abbrev pub part_ℤ : (K → V → ℤ) → K → Option V → ℤ
  part_ℤ f k none = pos 0
  part_ℤ f k (some v) = f k v

  abbrev pub sum_by : (K → V → ℤ) → Map K V → ℤ
  sum_by f [] = pos 0
  sum_by f ((k, v) ∷ m) = f k v +ℤ sum_by f m

  pub sum_by-save_entity :
      (f : K → V → ℤ) (k : K) (v : V) (m : Map K V)
      → sum_by f (save_entity k v m) +ℤ part_ℤ f k (load_entity k m) ≡ sum_by f m +ℤ f k v
  unfolding load_entity save_entity
  sum_by-save_entity f k v [] = omega int_laws
  sum_by-save_entity f k v ((j, w) ∷ m) = elim (Bool-cases (key.same j k)) [
    | inl e ↦ rw e (rw ((key.same_iff j k).0 e) (omega int_laws))
    | inr e ↦ rw e (
        omega (
          int_laws,
          ap pos_part (sum_by-save_entity f k v m),
          ap neg_part (sum_by-save_entity f k v m),
        ))
  ]

  -- A predicate on every entry.
  abbrev pub All : (K → V → Type 0) → Map K V → Type 0
  All P [] = Unit
  All P ((k, v) ∷ m) = P k v × All P m

  pub All-save_entity :
      (P : K → V → Type 0) (k : K) (v : V) (m : Map K V)
      → P k v
      → All P m
      → All P (save_entity k v m)
  unfolding save_entity
  All-save_entity P k v [] p h = (p, tt)
  All-save_entity P k v ((j, w) ∷ m) p (q, h) = elim (Bool-cases (key.same j k)) [
    | inl e ↦ rw e (subst (λ i. P i v) (sym ((key.same_iff j k).0 e)) p, h)
    | inr e ↦ rw e (q, All-save_entity P k v m p h)
  ]

  pub load_entity-All :
      (P : K → V → Type 0) (k : K) (m : Map K V) → All P m → OnSome (P k) (load_entity k m)
  unfolding load_entity
  load_entity-All P k [] h = tt
  load_entity-All P k ((j, w) ∷ m) (q, h) = elim (Bool-cases (key.same j k)) [
    | inl e ↦ rw e (subst (λ i. P i w) ((key.same_iff j k).0 e) q)
    | inr e ↦ rw e (load_entity-All P k m h)
  ]
