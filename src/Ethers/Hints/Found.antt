-- ===== src/Ethers/Hints/Found.antt =====
-- The hints that the search finds (packages/lib-ethers/src/PopulatableEthersLiquity.ts).
use stability_protocol.Base.{
  ℕ, ◌<◌, ◌≡◌, ◌≢◌, false, ◌==◌, ==-refl, Option, none, some, List, [], ◌∷◌, ◌++◌, refl, arith, ap,
  sym, ◌∙◌, subst, Bool-cases, inl, inr, ◌⊎◌, ok,
}
use stability_protocol.Base.Lists.{length}
use stability_protocol.Decimal.{Decimal, infinite}
use stability_protocol.Ethers.Gas.{ceil_ten_sqrt, ceil_ten_sqrt-pos}
use stability_protocol.Ethers.Trials.{generate_trials, generate_trials-total, IsCut}
use stability_protocol.Ethers.Hints.{
  HintContracts, ApproxHint, collect_approx_hint, collect_all, closest_from, closest, approx_hint,
  jump_over, without_zero, search_hints, find_hints_for_nominal_collateral_ratio,
}
use stability_protocol.Ethers.Hints.Position.{
  first_of, last_of, without, AllAddresses, IsPosition, ListLaws, without-append,
  AllAddresses-without, but_last, last_of_split, first_of-without, last_of-without, append_assoc,
  without_last, last_of-zero, first_of-zero,
}

-- The Troves among which the hints are wanted.
abbrev pub others : Option ℕ → List ℕ → List ℕ
others none list = list
others (some own_address) list = without own_address list

abbrev pub IsAddress : Option ℕ → Type 0
IsAddress none = Unit
IsAddress (some own_address) = own_address ≢ 0

collect_all-some :
    (c : HintContracts) (ratio : Decimal) (r : ApproxHint) (rs : List ApproxHint) (seed : ℕ)
    (ns : List ℕ)
    → (more : List ApproxHint) × ((collect_all c ratio
          (record { latest_random_seed = seed; results = r ∷ rs })
          ns).results
        ≡ r ∷ more)
unfolding collect_all collect_approx_hint
collect_all-some c ratio r rs seed [] = (rs, refl)
collect_all-some c ratio r rs seed (n ∷ ns) =
    collect_all-some c ratio r (rs ++ (c.get_approx_hint ratio n seed ∷ []))
      (c.get_approx_hint ratio n seed).latest_random_seed ns

approx_hint-some :
    (c : HintContracts) (ratio : Decimal) (seed n : ℕ) (ns : List ℕ)
    → (hint : ApproxHint) × (approx_hint c ratio seed (n ∷ ns) ≡ ok hint)
unfolding approx_hint collect_approx_hint closest
approx_hint-some c ratio seed n ns =
    let (more, e) =
      collect_all-some c ratio (c.get_approx_hint ratio n seed) []
        (c.get_approx_hint ratio n seed).latest_random_seed ns in
    (closest_from (c.get_approx_hint ratio n seed) more, rw e refl)

-- The position in the whole list is one in the list without the own address, once the search jumps over it.
module _ (c : HintContracts) (list : List ℕ) (ratio_of : ℕ → ℕ)
    (laws : ListLaws c list ratio_of) where
  remove :
      (ratio own : ℕ) (at new : ℕ × ℕ) (p : IsPosition ratio_of list ratio at)
      → new.0 ≡ last_of (without own p.before)
      → new.1 ≡ first_of (without own p.after)
      → IsPosition ratio_of (without own list) ratio new
  remove ratio own at new p e f = record {
    before = without own p.before;
    after = without own p.after;
    cut = ap (without own) p.cut ∙ without-append own p.before p.after;
    above = AllAddresses-without _ own p.before p.above;
    below = AllAddresses-without _ own p.after p.below;
    prev_is_last = e;
    next_is_first = f;
  }

  last-without :
      (own : ℕ) (xs ys : List ℕ)
      → own ≢ 0
      → list ≡ xs ++ ys
      → last_of xs ≡ own
      → c.get_prev own ≡ last_of (without own xs) × (without own ys ≡ ys)
  last-without own [] ys valid e is_own = absurd (valid (sym is_own))
  last-without own (x ∷ xs) ys valid e is_own =
      let split : list ≡ but_last (x ∷ xs) ++ own ∷ ys =
        e ∙ ap (λ zs. zs ++ ys) (last_of_split x xs) ∙ rw is_own (append_assoc _ _ ys) in
      let (before, after) = laws.distinct own (but_last (x ∷ xs)) ys split in
      (
        laws.prev_law own (but_last (x ∷ xs)) ys split
            ∙ ap last_of (sym before)
            ∙ ap last_of (without_last own x xs is_own),
        after,
      )

  first-without :
      (own : ℕ) (xs ys : List ℕ)
      → own ≢ 0
      → list ≡ xs ++ ys
      → first_of ys ≡ own
      → c.get_next own ≡ first_of (without own ys)
  first-without own xs [] valid e is_own = absurd (valid (sym is_own))
  first-without own xs (y ∷ ys) valid e is_own =
      let split : list ≡ xs ++ own ∷ ys = e ∙ ap (λ z. xs ++ z ∷ ys) is_own in
      let (before, after) = laws.distinct own xs ys split in
      let gone : without own ys ≡ without own (y ∷ ys) = rw (is_own, ==-refl own) refl in
      laws.next_law own xs ys split ∙ ap first_of (sym after ∙ gone)

  jump_over-IsPosition :
      (ratio : ℕ) (own : Option ℕ) (at : ℕ × ℕ)
      → IsAddress own
      → IsPosition ratio_of list ratio at
      → IsPosition ratio_of (others own list) ratio (jump_over c own at)
  unfolding jump_over
  jump_over-IsPosition ratio none (prev, next) valid p = p
  jump_over-IsPosition ratio (some own) (prev, next) valid p = elim (Bool-cases (prev == own)) [
    | inl is_prev ↦
        let e : prev ≡ own = ground arith in
        let (jumped, after) =
          last-without own p.before p.after valid p.cut (sym p.prev_is_last ∙ e) in
        rw is_prev (
          remove ratio own (prev, next) (c.get_prev prev, next) p (ap c.get_prev e ∙ jumped)
            (p.next_is_first ∙ ap first_of (sym after)))
    | inr other ↦ elim (Bool-cases (next == own)) [
      | inl is_next ↦
          let e : next ≡ own = ground arith in
          let jumped = first-without own p.before p.after valid p.cut (sym p.next_is_first ∙ e) in
          rw (other, is_next)
            (remove ratio own (prev, next) (prev, c.get_next next) p
              (p.prev_is_last ∙ sym (last_of-without own p.before (rw (sym p.prev_is_last) other)))
              (ap c.get_next e ∙ jumped))
      | inr also ↦
          rw (other, also)
            (remove ratio own (prev, next) (prev, next) p
              (p.prev_is_last ∙ sym (last_of-without own p.before (rw (sym p.prev_is_last) other)))
              (p.next_is_first
                ∙ sym (first_of-without own p.after (rw (sym p.next_is_first) also))))
    ]
  ]

-- The two neighbours, but `AddressZero` at an end of the list is replaced by the other one.
abbrev pub AreEndsReplaced : ℕ × ℕ → ℕ × ℕ → Type 0
AreEndsReplaced at hints =
    (at.0 ≢ 0) × (at.1 ≢ 0) × (hints ≡ at)
    ⊎ (at.0 ≡ 0) × (hints ≡ (at.1, at.1))
    ⊎ (at.1 ≡ 0) × (hints ≡ (at.0, at.0))

-- Neighbours between which a Trove of the ratio may stand, an end of the list being replaced by the other neighbour. Neither
-- hint is `AddressZero`, unless the list is empty.
abbrev pub AreHints : (ℕ → ℕ) → List ℕ → ℕ → ℕ × ℕ → Type 0
AreHints ratio_of list ratio hints =
    (at : ℕ × ℕ) × IsPosition ratio_of list ratio at
    × AreEndsReplaced at hints
    × ((list ≡ []) ⊎ ((hints.0 ≢ 0) × (hints.1 ≢ 0)))

without_zero-AreEndsReplaced :
    (prev next : ℕ) → AreEndsReplaced (prev, next) (without_zero (prev, next))
unfolding without_zero
without_zero-AreEndsReplaced prev next = elim (Bool-cases (prev == 0)) [
  | inl at_start ↦ inr (inl (ground arith, rw at_start refl))
  | inr inside ↦ elim (Bool-cases (next == 0)) [
    | inl at_end ↦ inr (inr (ground arith, rw (inside, at_end) refl))
    | inr also ↦ inl (ground arith, ground arith, rw (inside, also) refl)
  ]
]

without_zero-AreHints :
    (ratio_of : ℕ → ℕ) (list : List ℕ) (ratio : ℕ) (at : ℕ × ℕ)
    → AllAddresses (λ a. a ≢ 0) list
    → IsPosition ratio_of list ratio at
    → AreHints ratio_of list ratio (without_zero at)
unfolding without_zero
without_zero-AreHints ratio_of list ratio (prev, next) no_zero p =
    ((prev, next), p, without_zero-AreEndsReplaced prev next, sides)
  where
    parts : AllAddresses (λ a. a ≢ 0) (p.before ++ p.after)
    parts = subst (AllAddresses (λ a. a ≢ 0)) p.cut no_zero

    sides :
        (list ≡ []) ⊎ (((without_zero (prev, next)).0 ≢ 0) × ((without_zero (prev, next)).1 ≢ 0))
    sides = elim (Bool-cases (prev == 0)) [
      | inl at_start ↦ elim (Bool-cases (next == 0)) [
        | inl at_end ↦
            let start =
              last_of-zero p.before p.after parts
                (sym p.prev_is_last ∙ (let e : prev ≡ 0 = ground arith in e)) in
            let end =
              first_of-zero p.before p.after parts
                (sym p.next_is_first ∙ (let e : next ≡ 0 = ground arith in e)) in
            inl (p.cut ∙ rw (start, end) refl)
        | inr inside ↦ inr (ground arith)
      ]
      | inr inside ↦ inr (ground arith)
    ]

others-no_zero :
    (own : Option ℕ) (list : List ℕ)
    → AllAddresses (λ a. a ≢ 0) list
    → AllAddresses (λ a. a ≢ 0) (others own list)
others-no_zero none list h = h
others-no_zero (some own) list h = AllAddresses-without _ own list h

search_hints-AreHints :
    (c : HintContracts) (list : List ℕ) (ratio_of : ℕ → ℕ)
    → ListLaws c list ratio_of
    → (seed : ℕ) (ratio : Decimal) (own : Option ℕ) → 0 < c.number_of_troves
    → IsAddress own
    → (hints : ℕ × ℕ) × (search_hints c seed ratio own ≡ ok hints)
      × AreHints ratio_of (others own list) ratio hints
unfolding search_hints
search_hints-AreHints c list ratio_of laws seed ratio own some_trove valid = found (
    generate_trials-total (ceil_ten_sqrt c.number_of_troves)
      (ceil_ten_sqrt-pos c.number_of_troves some_trove))
  where
    found :
        (ns : List ℕ) × (generate_trials (ceil_ten_sqrt c.number_of_troves) ≡ ok ns)
          × IsCut (ceil_ten_sqrt c.number_of_troves) ns
        → (hints : ℕ × ℕ) × (search_hints c seed ratio own ≡ ok hints)
          × AreHints ratio_of (others own list) ratio hints
    found ([], e, cut) =
        absurd (omega (arith, cut.0, ceil_ten_sqrt-pos c.number_of_troves some_trove))
    found (n ∷ ns, e, _) =
        let (hint, h) = approx_hint-some c ratio seed n ns in
        let at = c.find_insert_position ratio hint.hint_address hint.hint_address in
        (
          without_zero (jump_over c own at),
          rw (e, h) refl,
          without_zero-AreHints ratio_of (others own list) ratio (jump_over c own at)
              (others-no_zero own list laws.no_zero)
              (jump_over-IsPosition c list ratio_of laws ratio own at valid
                (laws.insert_law ratio hint.hint_address hint.hint_address)),
        )

none_at_all : {ratio_of : ℕ → ℕ} {ratio : ℕ} → AreHints ratio_of [] ratio (0, 0)
none_at_all = (
  (0, 0),
  record {
    before = [];
    after = [];
    cut = refl;
    above = tt;
    below = tt;
    prev_is_last = refl;
    next_is_first = refl;
  },
  inr (inl (refl, refl)),
  inl refl,
)

empty-AreHints :
    (ratio_of : ℕ → ℕ) (list : List ℕ) (ratio : ℕ) (own : Option ℕ)
    → length list ≡ 0
    → AreHints ratio_of (others own list) ratio (0, 0)
empty-AreHints ratio_of [] ratio none e = none_at_all
empty-AreHints ratio_of [] ratio (some own) e = none_at_all
empty-AreHints ratio_of (x ∷ xs) ratio own e = absurd (omega arith)

-- The search for the hints of a ratio that is not infinite ends, whatever the approximate hints and the random seed, and finds
-- neighbours in the list without the Trove that is reinserted, between which a Trove of the ratio may stand: an end of the list
-- is replaced by the other neighbour, and neither hint is `AddressZero` unless no other Trove exists. The contracts keep a list
-- of distinct addresses that are not zero and answer of it, and the reinserted Trove's address is not zero.
pub find_hints-AreHints :
    (c : HintContracts) (list : List ℕ) (ratio_of : ℕ → ℕ)
    → ListLaws c list ratio_of
    → (seed : ℕ) (ratio : Decimal) (own : Option ℕ) → infinite ratio ≡ false
    → IsAddress own
    → (hints : ℕ × ℕ) × (find_hints_for_nominal_collateral_ratio c seed ratio own ≡ ok hints)
      × AreHints ratio_of (others own list) ratio hints
unfolding find_hints_for_nominal_collateral_ratio
find_hints-AreHints c list ratio_of laws seed ratio own finite valid =
    elim (Bool-cases (c.number_of_troves == 0)) [
      | inl no_trove ↦
          let e : length list ≡ 0 =
            sym laws.counted ∙ (let z : c.number_of_troves ≡ 0 = ground arith in z) in
          ((0, 0), rw no_trove refl, empty-AreHints ratio_of list ratio own e)
      | inr some_trove ↦
          let (hints, e, found) =
            search_hints-AreHints c list ratio_of laws seed ratio own (ground arith) valid in
          (hints, rw (some_trove, finite, e) refl, found)
    ]
