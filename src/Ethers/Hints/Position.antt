-- ===== src/Ethers/Hints/Position.antt =====
-- What the list of Troves promises to the search for hints, and what the search promises of its hints. The list itself is kept
-- by a contract, which is outside the SDK.
use stability_protocol.Base.{
  ℕ, ◌≤◌, ◌≡◌, ◌≢◌, false, ◌==◌, List, [], ◌∷◌, ◌++◌, if◌then◌else◌, refl, ap, sym, ◌∙◌, Bool-cases,
  inl, inr, ==-refl,
}
use stability_protocol.Base.Lists.{length}
use stability_protocol.Ethers.Hints.{HintContracts}

-- The address at the end of a part of the list that is nearer, or `AddressZero`.
abbrev pub first_of : List ℕ → ℕ
first_of [] = 0
first_of (a ∷ bs) = a

abbrev pub last_of : List ℕ → ℕ
last_of [] = 0
last_of (a ∷ []) = a
last_of (a ∷ b ∷ rest) = last_of (b ∷ rest)

abbrev pub without : ℕ → List ℕ → List ℕ
without a [] = []
without a (b ∷ bs) = if b == a then without a bs else b ∷ without a bs

abbrev pub AllAddresses : (ℕ → Type 0) → List ℕ → Type 0
AllAddresses P [] = Unit
AllAddresses P (a ∷ bs) = P a × AllAddresses P bs

-- The two addresses are neighbours in the list, and a Trove of the ratio may stand between them: the list
-- falls along the ratios.
pub record IsPosition (ratio_of : ℕ → ℕ) (list : List ℕ) (ratio : ℕ) (at : ℕ × ℕ) : Type 0 where
  pub before : List ℕ
  pub after : List ℕ
  pub cut : list ≡ before ++ after
  pub above : AllAddresses (λ a. ratio ≤ ratio_of a) before
  pub below : AllAddresses (λ a. ratio_of a ≤ ratio) after
  pub prev_is_last : at.0 ≡ last_of before
  pub next_is_first : at.1 ≡ first_of after

-- The contracts keep a list of distinct addresses that are not zero, and answer of it.
pub record ListLaws (c : HintContracts) (list : List ℕ) (ratio_of : ℕ → ℕ) : Type 0 where
  pub counted : c.number_of_troves ≡ length list
  pub no_zero : AllAddresses (λ a. a ≢ 0) list
  pub distinct :
      (a : ℕ) (xs ys : List ℕ) → list ≡ xs ++ a ∷ ys → (without a xs ≡ xs) × (without a ys ≡ ys)
  pub first_law : c.get_first ≡ first_of list
  pub prev_law : (a : ℕ) (xs ys : List ℕ) → list ≡ xs ++ a ∷ ys → c.get_prev a ≡ last_of xs
  pub next_law : (a : ℕ) (xs ys : List ℕ) → list ≡ xs ++ a ∷ ys → c.get_next a ≡ first_of ys
  pub insert_law :
      (ratio prev next : ℕ)
      → IsPosition ratio_of list ratio (c.find_insert_position ratio prev next)

pub without-append : (a : ℕ) (xs ys : List ℕ) → without a (xs ++ ys) ≡ without a xs ++ without a ys
without-append a [] ys = refl
without-append a (x ∷ xs) ys = elim (Bool-cases (x == a)) [
  | inl same ↦ rw same (without-append a xs ys)
  | inr other ↦ rw other (ap (◌∷◌ x) (without-append a xs ys))
]

pub AllAddresses-without :
    (P : ℕ → Type 0) (a : ℕ) (xs : List ℕ) → AllAddresses P xs → AllAddresses P (without a xs)
AllAddresses-without P a [] h = tt
AllAddresses-without P a (x ∷ xs) (p, h) = elim (Bool-cases (x == a)) [
  | inl same ↦ rw same (AllAddresses-without P a xs h)
  | inr other ↦ rw other (p, AllAddresses-without P a xs h)
]

-- A nonempty part ends with its last address.
abbrev pub but_last : List ℕ → List ℕ
but_last [] = []
but_last (a ∷ []) = []
but_last (a ∷ b ∷ rest) = a ∷ but_last (b ∷ rest)

pub last_of_split : (x : ℕ) (xs : List ℕ) → x ∷ xs ≡ but_last (x ∷ xs) ++ (last_of (x ∷ xs) ∷ [])
last_of_split x [] = refl
last_of_split x (y ∷ xs) = ap (◌∷◌ x) (last_of_split y xs)

pub last_of-append : (xs : List ℕ) (a : ℕ) → last_of (xs ++ (a ∷ [])) ≡ a
last_of-append [] a = refl
last_of-append (x ∷ []) a = refl
last_of-append (x ∷ y ∷ xs) a = last_of-append (y ∷ xs) a

pub first_of-without :
    (a : ℕ) (xs : List ℕ) → (first_of xs == a) ≡ false → first_of (without a xs) ≡ first_of xs
first_of-without a [] other = refl
first_of-without a (x ∷ xs) other = rw other refl

pub last_of-without :
    (a : ℕ) (xs : List ℕ) → (last_of xs == a) ≡ false → last_of (without a xs) ≡ last_of xs
last_of-without a [] other = refl
last_of-without a (x ∷ xs) other =
    let e = last_of_split x xs in
    let cut : without a (but_last (x ∷ xs) ++ (last_of (x ∷ xs) ∷ []))
        ≡ without a (but_last (x ∷ xs)) ++ (last_of (x ∷ xs) ∷ []) =
      without-append a (but_last (x ∷ xs)) (last_of (x ∷ xs) ∷ [])
      ∙ ap (λ ys. without a (but_last (x ∷ xs)) ++ ys) (rw other refl) in
    ap (λ ys. last_of (without a ys)) e
    ∙ ap last_of cut
    ∙ last_of-append (without a (but_last (x ∷ xs))) (last_of (x ∷ xs))

pub append_assoc : (xs ys zs : List ℕ) → (xs ++ ys) ++ zs ≡ xs ++ (ys ++ zs)
append_assoc [] ys zs = refl
append_assoc (x ∷ xs) ys zs = ap (◌∷◌ x) (append_assoc xs ys zs)

append-[] : (xs : List ℕ) → xs ++ [] ≡ xs
append-[] [] = refl
append-[] (x ∷ xs) = ap (◌∷◌ x) (append-[] xs)

-- Removing the last address removes it from what stands before it, and nothing else.
pub without_last :
    (a x : ℕ) (xs : List ℕ)
    → last_of (x ∷ xs) ≡ a
    → without a (but_last (x ∷ xs)) ≡ without a (x ∷ xs)
without_last a x xs is_last =
    sym (append-[] (without a (but_last (x ∷ xs))))
    ∙ ap (λ ys. without a (but_last (x ∷ xs)) ++ ys)
        (let e : [] ≡ without a (last_of (x ∷ xs) ∷ []) = rw (is_last, ==-refl a) refl in e)
    ∙ sym (without-append a (but_last (x ∷ xs)) (last_of (x ∷ xs) ∷ []))
    ∙ ap (without a) (sym (last_of_split x xs))

-- The end of a part whose addresses are not zero is zero only if the part is empty.
pub last_of-zero :
    (xs ys : List ℕ) → AllAddresses (λ a. a ≢ 0) (xs ++ ys) → last_of xs ≡ 0 → xs ≡ []
last_of-zero [] ys h e = refl
last_of-zero (x ∷ []) ys (p, h) e = absurd (p e)
last_of-zero (x ∷ y ∷ xs) ys (p, h) e = absurd (cons_nil (last_of-zero (y ∷ xs) ys h e))
  where
    cons_nil : {z : ℕ} {zs : List ℕ} → z ∷ zs ≢ []
    cons_nil same = cc

pub first_of-zero :
    (xs ys : List ℕ) → AllAddresses (λ a. a ≢ 0) (xs ++ ys) → first_of ys ≡ 0 → ys ≡ []
first_of-zero [] [] h e = refl
first_of-zero [] (y ∷ ys) (p, h) e = absurd (p e)
first_of-zero (x ∷ xs) ys (p, h) e = first_of-zero xs ys h e
