-- ===== src/Ethers/Trials.antt =====
-- `generateTrials` (packages/lib-ethers/src/PopulatableEthersLiquity.ts): the trials of a search for hints, cut into
-- chunks of at most 2500.
use stability_protocol.Base.{
  ℕ, zero, suc, ◌+◌, ◌-◌, ◌*◌, ◌≤◌, ◌<◌, ◌≡◌, ltb, ◌==◌, Option, none, some, List, [], ◌∷◌, arith,
  if◌then◌else◌, refl, Result, ok, err, ◌>>◌, guard, assertion_failed, out_of_fuel, Bool-cases, inl,
  inr,
}
use stability_protocol.Base.Lists.{length}

abbrev pub max_number_of_trials_at_once : ℕ
max_number_of_trials_at_once = 2500

abbrev pub lesser : ℕ → ℕ → ℕ
lesser a b = if ltb b a then b else a

abbrev more : ℕ → Option (List ℕ) → Option (List ℕ)
more n none = none
more n (some rest) = some (n ∷ rest)

-- The loop, on fuel.
unfoldable pub trials_loop : ℕ → ℕ → Option (List ℕ)
trials_loop zero total = if total == 0 then some [] else none
trials_loop (suc fuel) total =
    let number_of_trials = lesser total max_number_of_trials_at_once in
    let rest = trials_loop fuel (total - number_of_trials) in
    if total == 0 then some [] else more number_of_trials rest

abbrev pub trials_end : Option (List ℕ) → Result (List ℕ)
trials_end none = err out_of_fuel
trials_end (some trials) = ok trials

unfoldable pub generate_trials : ℕ → Result (List ℕ)
generate_trials total = do
  guard (ltb 0 total) assertion_failed
  trials_end (trials_loop total total)

abbrev pub sum : List ℕ → ℕ
sum [] = 0
sum (n ∷ ns) = n + sum ns

-- Every chunk is at least 1 and at most 2500.
abbrev pub AreChunks : List ℕ → Type 0
AreChunks [] = Unit
AreChunks (n ∷ ns) = (0 < n) × (n ≤ 2500) × AreChunks ns

-- The chunks add up to the total, and there are no more of them than needed.
abbrev pub IsCut : ℕ → List ℕ → Type 0
IsCut total ns = (sum ns ≡ total) × AreChunks ns × (length ns * 2500 < total + 2500)

IsCut-more :
    (total : ℕ) (ns : List ℕ)
    → 0 < total
    → IsCut (total - lesser total 2500) ns
    → IsCut total (lesser total 2500 ∷ ns)
IsCut-more total ns pos (s, c, l) = (ground arith, (ground arith, ground arith, c), ground arith)

trials_loop-IsCut :
    (fuel total : ℕ)
    → total ≤ fuel
    → (ns : List ℕ) × (trials_loop fuel total ≡ some ns) × IsCut total ns
unfolding trials_loop
trials_loop-IsCut zero total le = ([], ground arith, ground arith)
trials_loop-IsCut (suc fuel) total le = elim (Bool-cases (total == 0)) [
  | inl none_left ↦ ([], rw none_left refl, ground arith)
  | inr some_left ↦
      let (ns, e, cut) = trials_loop-IsCut fuel (total - lesser total 2500) (ground arith) in
      (lesser total 2500 ∷ ns, rw (some_left, e) refl, IsCut-more total ns (ground arith) cut)
]

-- The generator ends for every positive number of trials: its chunks add up to that number, each of them is
-- at least 1 and at most 2500, and there are no more of them than needed.
pub generate_trials-total :
    (total : ℕ) → 0 < total → (ns : List ℕ) × (generate_trials total ≡ ok ns) × IsCut total ns
unfolding generate_trials
generate_trials-total total pos =
    let (ns, e, cut) = trials_loop-IsCut total total (omega arith) in (ns, rw e (ground arith), cut)
