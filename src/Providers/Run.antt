-- ===== src/Providers/Run.antt =====
-- The batching provider over any sequence of calls and of timers that fire
-- (packages/providers/src/BatchedProvider.ts).
use stability_protocol.Base.{
  ℕ, suc, Bool, true, false, if◌then◌else◌, List, [], ◌∷◌, ◌++◌, ◌≡◌, refl,
}
use stability_protocol.Providers.{Tag, Request, Provider, Node, Settled, call, fire}
use stability_protocol.Providers.Answers.{Asked, AreAnswers, IsWaiting}

-- The provider, the calls so far and the number of the next promise.
pub record Client : Type 0 where
  pub provider : Provider
  pub asked : List Asked
  pub next : ℕ

pub data Input : Type 0 where
  requested : (now : ℕ) (request : Request) (tag : Tag) → Input
  fired : (id : ℕ) → Input

abbrev asking : ℕ → Request → Tag → Asked
asking p r tag = record { promise = p; request = r; tag = tag }

unfoldable pub step : Node → Input → Client → Client × List (ℕ × Settled)
step node (requested now r tag) s =
    let called = call node now s.next r tag s.provider in
    (
      record { provider = called.0; asked = asking s.next r tag ∷ s.asked; next = suc s.next },
      called.1,
    )
step node (fired id) s =
    let after = fire node id s.provider in (record s { provider = after.0 }, after.1)

unfoldable pub run : Node → List Input → Client → Client × List (ℕ × Settled)
run node [] s = (s, [])
run node (i ∷ is) s =
    let first = step node i s in let rest = run node is first.0 in (rest.0, first.1 ++ rest.1)

-- What a step keeps and gives.
abbrev IsServed : ℕ → Node → List Asked → Provider × List (ℕ × Settled) → Type 0
IsServed contract node asked (s, settled) =
    IsWaiting asked s × AreAnswers contract node asked settled

pub if_case :
    {A : Type 0} (P : A → Type 0) (b : Bool) (x y : A)
    → (b ≡ true → P x)
    → (b ≡ false → P y)
    → P (if b then x else y)
if_case P true x y p q = p refl
if_case P false x y p q = q refl
