-- ===== src/Subgraph/Frame.antt =====
-- What an operation of the subgraph leaves alone, and the rules for chains and branches.
pub mod Untouched
pub mod Aside
pub mod Across
use stability_protocol.Base.{
  ℕ, Bool, true, false, if◌then◌else◌, Option, none, some, ◌≡◌, refl, ◌∙◌, ap, arith,
}
use stability_protocol.Base.Int.{ℤ}
use stability_protocol.Base.Maps.{Map, OnSome}
use stability_protocol.Subgraph.Entities.{
  Global, TroveEntity, TokenEntity, TokenBalance, UserEntity, TransactionEntity,
}
use stability_protocol.Subgraph.Graph.{
  Graph, Handler, pure, gets, get_or_abort, ◌>>=◌, ◌>>◌, Done, unless, modify, Event, global_or_new,
  get_global, save_global, Counter, increase_counter, found_or, save_user, get_user,
  get_transaction, save_transaction,
}

-- The operation, if it does not abort, leaves what `view` reads as it was.
unfoldable pub Keeps : {V : Type 0} {A : Type 0} → (Graph → V) → Handler A → Type 0
Keeps view m = (g : Graph) → OnSome (λ r. view r.1 ≡ view g) (m g)

-- The counters of Troves.
pub record Census : Type 0 where
  pub open_troves : ℕ
  pub liquidated : ℕ
  pub redeemed : ℕ
  pub by_owner : ℕ
  pub total : ℕ

abbrev pub counts_of : Global → Census
counts_of global = record {
  open_troves = global.number_of_open_troves;
  liquidated = global.number_of_liquidated_troves;
  redeemed = global.number_of_redeemed_troves;
  by_owner = global.number_of_troves_closed_by_owner;
  total = global.total_number_of_troves;
}

abbrev pub census : Graph → Census
census g = counts_of (global_or_new g.global)

pub record Register : Type 0 where
  pub counts : Census
  pub troves : Map ℕ TroveEntity

abbrev pub register : Graph → Register
register g = record { counts = census g; troves = g.troves }

pub record Ledger : Type 0 where
  pub tokens : Map ℕ TokenEntity
  pub balances : Map (ℕ × ℕ) TokenBalance

abbrev pub ledger : Graph → Ledger
ledger g = record { tokens = g.tokens; balances = g.balances }

abbrev pub books : Graph → Register × Ledger
books g = (register g, ledger g)

module _ {V : Type 0} (view : Graph → V) {A : Type 0} where
  pub Keeps-pure : (a : A) → Keeps view (pure a)
  unfolding Keeps pure
  Keeps-pure a g = refl

  pub Keeps-gets : (f : Graph → A) → Keeps view (gets f)
  unfolding Keeps gets
  Keeps-gets f g = refl

  pub Keeps-get_or_abort : (o : Option A) → Keeps view (get_or_abort o)
  unfolding Keeps get_or_abort
  Keeps-get_or_abort none g = tt
  Keeps-get_or_abort (some a) g = refl

  pub Keeps-found_or :
      (o : Option A) (make : Handler A) → Keeps view make → Keeps view (found_or o make)
  unfolding Keeps found_or pure
  Keeps-found_or none make kept g = kept g
  Keeps-found_or (some a) make kept g = refl

  last-Keeps :
      {v : V} {h : Graph} (o : Option (A × Graph))
      → OnSome (λ r. view r.1 ≡ view h) o
      → view h ≡ v
      → OnSome (λ r. view r.1 ≡ v) o
  last-Keeps none e f = tt
  last-Keeps (some r) e f = e ∙ f

module _ {V : Type 0} (view : Graph → V) {A B : Type 0} where
  then-Keeps :
      (v : V) (k : A → Handler B)
      → ((a : A) → Keeps view (k a))
      → (o : Option (A × Graph)) → OnSome (λ r. view r.1 ≡ v) o
      → OnSome (λ r. view r.1 ≡ v) (elim o [ none ↦ none | some (a, h) ↦ k a h ])
  unfolding Keeps
  then-Keeps v k kept none e = tt
  then-Keeps v k kept (some (a, h)) e = last-Keeps view (k a h) (kept a h) e

  pub Keeps->>= :
      (m : Handler A) (k : A → Handler B)
      → Keeps view m
      → ((a : A) → Keeps view (k a))
      → Keeps view (m >>= k)
  unfolding Keeps ◌>>=◌
  Keeps->>= m k first kept g = then-Keeps (view g) k kept (m g) (first g)

  pub Keeps->> : (m : Handler A) (k : Handler B) → Keeps view m → Keeps view k → Keeps view (m >> k)
  unfolding Keeps ◌>>◌ ◌>>=◌
  Keeps->> m k first kept g = then-Keeps (view g) (λ _. k) (λ _. kept) (m g) (first g)

pub Keeps-unless :
    {V : Type 0} (view : Graph → V) (b : Bool) (m : Handler Done)
    → Keeps view m
    → Keeps view (unless b m)
unfolding Keeps unless pure
Keeps-unless view true m kept g = refl
Keeps-unless view false m kept g = kept g

pub Keeps-if :
    {V A : Type 0} (view : Graph → V) (b : Bool) (m k : Handler A)
    → Keeps view m
    → Keeps view k
    → Keeps view (if b then m else k)
Keeps-if view true m k kept other = kept
Keeps-if view false m k kept other = other

pub ruleset keeps_rules = (
  Keeps-pure, Keeps-gets, Keeps-get_or_abort, Keeps-found_or, Keeps->>=, Keeps->>, Keeps-unless,
  Keeps-if,
)

pub Keeps-modify :
    {V : Type 0} (view : Graph → V) (f : Graph → Graph)
    → ((g : Graph) → view (f g) ≡ view g)
    → Keeps view (modify f)
unfolding Keeps modify
Keeps-modify view f same g = same g

part-Keeps :
    {V W A : Type 0} (view : Graph → V) (f : V → W) (v : V) (o : Option (A × Graph))
    → OnSome (λ r. view r.1 ≡ v) o
    → OnSome (λ r. f (view r.1) ≡ f v) o
part-Keeps view f v none e = tt
part-Keeps view f v (some r) e = ap f e

pub Keeps-register : {A : Type 0} (m : Handler A) → Keeps books m → Keeps register m
unfolding Keeps
Keeps-register m kept g = part-Keeps books (λ b. b.0) (books g) (m g) (kept g)

pub Keeps-ledger : {A : Type 0} (m : Handler A) → Keeps books m → Keeps ledger m
unfolding Keeps
Keeps-ledger m kept g = part-Keeps books (λ b. b.1) (books g) (m g) (kept g)

pub Keeps-at :
    {V A : Type 0} (view : Graph → V) (m : Handler A)
    → Keeps view m
    → (g : Graph) → OnSome (λ r. view r.1 ≡ view g) (m g)
unfolding Keeps
Keeps-at view m kept = kept

-- What holds after a chain is what holds after its second part.
pub after->>= :
    {A B : Type 0} (P : A × Graph → Type 0) (Q : B × Graph → Type 0) (m : Handler A)
    (k : A → Handler B) (g : Graph)
    → OnSome P (m g)
    → ((a : A) (h : Graph) → P (a, h) → OnSome Q (k a h))
    → OnSome Q ((m >>= k) g)
unfolding ◌>>=◌
after->>= {A = A} {B = B} P Q m k g first second = after_first (m g) first
  where
    after_first :
        (o : Option (A × Graph))
        → OnSome P o
        → OnSome Q (elim o [ none ↦ none | some (a, h) ↦ k a h ])
    after_first none p = tt
    after_first (some (a, h)) p = second a h p

pub after->> :
    {A B : Type 0} (P : A × Graph → Type 0) (Q : B × Graph → Type 0) (m : Handler A) (k : Handler B)
    (g : Graph)
    → OnSome P (m g)
    → ((a : A) (h : Graph) → P (a, h) → OnSome Q (k h))
    → OnSome Q ((m >> k) g)
unfolding ◌>>◌
after->> P Q m k g first second = after->>= P Q m (λ _. k) g first second

pub after-if :
    {A : Type 0} (P : A × Graph → Type 0) (b : Bool) (m k : Handler A) (g : Graph)
    → (b ≡ true → OnSome P (m g))
    → (b ≡ false → OnSome P (k g))
    → OnSome P ((if b then m else k) g)
after-if P true m k g p q = p refl
after-if P false m k g p q = q refl

pub after-unless :
    (P : Done × Graph → Type 0) (b : Bool) (m : Handler Done) (g : Graph)
    → (b ≡ true → P (tt, g))
    → (b ≡ false → OnSome P (m g))
    → OnSome P (unless b m g)
unfolding unless pure
after-unless P true m g p q = p refl
after-unless P false m g p q = q refl

pub get_global_same :
    (g : Graph) → OnSome (λ r. (r.0 ≡ global_or_new g.global) × (r.1 ≡ g)) (get_global g)
unfolding get_global gets
get_global_same g = (refl, refl)

pub get_or_abort_same :
    {A : Type 0} (o : Option A) (g : Graph)
    → OnSome (λ r. (o ≡ some r.0) × (r.1 ≡ g)) (get_or_abort o g)
unfolding get_or_abort
get_or_abort_same none g = tt
get_or_abort_same (some a) g = (refl, refl)

pub pure_same : {A : Type 0} (a : A) (g : Graph) → OnSome (λ r. (r.0 ≡ a) × (r.1 ≡ g)) (pure a g)
unfolding pure
pure_same a g = (refl, refl)
