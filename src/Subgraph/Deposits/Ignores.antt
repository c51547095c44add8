-- ===== src/Subgraph/Deposits/Ignores.antt =====
-- The operations on stability deposits that neither read nor change `tmpDepositUpdate`
-- (packages/subgraph/src/entities/StabilityDeposit.ts).
use stability_protocol.Base.{
  ℕ, Bool, true, false, if◌then◌else◌, Option, none, some, ◌≡◌, refl, ap, ◌∙◌, arith,
}
use stability_protocol.Base.Int.{ℤ}
use stability_protocol.Subgraph.Entities.{
  SystemState, UserEntity, DepositEntity, TransactionEntity, ChangeEntity, DepositOperation,
  DepositChangeEntity,
}
use stability_protocol.Subgraph.Graph.{
  Graph, Handler, Done, pure, gets, modify, unless, found_or, ◌>>=◌, ◌>>◌, Event, global_or_new,
  get_global, save_global, change_global, Counter, increase_counter, save_user, get_user,
  save_transaction, get_transaction,
}
use stability_protocol.Subgraph.Changes.{
  save_system_state, find_current_system_state, get_current_system_state, bump_system_state,
  begin_change, finish_change, update_system_state_by_stability_deposit_change,
}
use stability_protocol.Subgraph.Deposits.{
  create_deposit, get_stability_deposit, save_deposit, save_deposit_change,
  update_stability_deposit_by_operation, withdraw_gain,
  withdraw_collateral_gain_from_stability_deposit,
}

-- The store with another value of `tmpDepositUpdate`.
abbrev pub with_tmp : Option ℤ → Graph → Graph
with_tmp x g = record g {
  global = some (record (global_or_new g.global) { tmp_deposit_update = x });
}

abbrev pub then_with_tmp : {A : Type 0} → Option ℤ → Option (A × Graph) → Option (A × Graph)
then_with_tmp x none = none
then_with_tmp x (some (a, g)) = some (a, with_tmp x g)

-- The operation neither reads nor changes `tmpDepositUpdate`.
unfoldable pub Ignores : {A : Type 0} → Handler A → Type 0
Ignores m = (x : Option ℤ) (g : Graph) → m (with_tmp x g) ≡ then_with_tmp x (m g)

module _ {A : Type 0} where
  Ignores-pure : (a : A) → Ignores (pure a)
  unfolding Ignores pure
  Ignores-pure a x g = refl

  Ignores-found_or : (o : Option A) (make : Handler A) → Ignores make → Ignores (found_or o make)
  unfolding Ignores found_or pure
  Ignores-found_or none make ignores x g = ignores x g
  Ignores-found_or (some a) make ignores x g = refl

  Ignores-if : (b : Bool) (m k : Handler A) → Ignores m → Ignores k → Ignores (if b then m else k)
  Ignores-if true m k p q = p
  Ignores-if false m k p q = q

module _ {A B : Type 0} where
  -- What a chain does after its first part.
  abbrev pub and_then : (A → Handler B) → Option (A × Graph) → Option (B × Graph)
  and_then k none = none
  and_then k (some (a, h)) = k a h

  >>=-and_then : (m : Handler A) (k : A → Handler B) (g : Graph) → (m >>= k) g ≡ and_then k (m g)
  unfolding ◌>>=◌
  >>=-and_then m k g = refl

  next-Ignores :
      (k : A → Handler B)
      → ((a : A) → Ignores (k a))
      → (x : Option ℤ) (o : Option (A × Graph))
      → and_then k (then_with_tmp x o) ≡ then_with_tmp x (and_then k o)
  unfolding Ignores
  next-Ignores k ignores x none = refl
  next-Ignores k ignores x (some (a, h)) = ignores a x h

  Ignores->>= :
      (m : Handler A) (k : A → Handler B)
      → Ignores m
      → ((a : A) → Ignores (k a))
      → Ignores (m >>= k)
  unfolding Ignores ◌>>=◌
  Ignores->>= m k first second x g = ap (and_then k) (first x g) ∙ next-Ignores k second x (m g)

  Ignores->> : (m : Handler A) (k : Handler B) → Ignores m → Ignores k → Ignores (m >> k)
  unfolding ◌>>◌
  Ignores->> m k first second = Ignores->>= m (λ _. k) first λ _. second

Ignores-unless : (b : Bool) (m : Handler Done) → Ignores m → Ignores (unless b m)
unfolding Ignores unless pure
Ignores-unless true m ignores x g = refl
Ignores-unless false m ignores x g = ignores x g

-- Reading and writing what is not `Global`.
Ignores-gets :
    {A : Type 0} (f : Graph → A)
    → ((x : Option ℤ) (g : Graph) → f (with_tmp x g) ≡ f g)
    → Ignores (gets f)
unfolding Ignores gets
Ignores-gets f same x g = ap (λ a. some (a, with_tmp x g)) (same x g)

Ignores-modify :
    (f : Graph → Graph)
    → ((x : Option ℤ) (g : Graph) → f (with_tmp x g) ≡ with_tmp x (f g))
    → Ignores (modify f)
unfolding Ignores modify
Ignores-modify f same x g = ap (λ h. some (tt, h)) (same x g)

ruleset ignores_rules = (
  Ignores-pure, Ignores-found_or, Ignores-if, Ignores->>=, Ignores->>, Ignores-unless, Ignores-gets,
)

Ignores-save_user : (e : UserEntity) → Ignores (save_user e)
unfolding save_user
Ignores-save_user e = Ignores-modify _ λ x g. refl

Ignores-save_transaction : (e : TransactionEntity) → Ignores (save_transaction e)
unfolding save_transaction
Ignores-save_transaction e = Ignores-modify _ λ x g. refl

Ignores-save_system_state : (e : SystemState) → Ignores (save_system_state e)
unfolding save_system_state
Ignores-save_system_state e = Ignores-modify _ λ x g. refl

Ignores-save_deposit : (e : DepositEntity) → Ignores (save_deposit e)
unfolding save_deposit
Ignores-save_deposit e = Ignores-modify _ λ x g. refl

Ignores-save_deposit_change : (e : DepositChangeEntity) → Ignores (save_deposit_change e)
unfolding save_deposit_change
Ignores-save_deposit_change e = Ignores-modify _ λ x g. refl

ruleset ignored_saves = (
  Ignores-save_user, Ignores-save_transaction, Ignores-save_system_state, Ignores-save_deposit,
  Ignores-save_deposit_change,
)

Ignores-increase_counter : (c : Counter) → Ignores (increase_counter c)
unfolding increase_counter get_global save_global Ignores pure gets modify ◌>>=◌ ◌>>◌
Ignores-increase_counter c x g = ground arith

Ignores-find_current_system_state : Ignores find_current_system_state
unfolding find_current_system_state get_global Ignores gets ◌>>=◌
Ignores-find_current_system_state x g = refl

Ignores-set_current_system_state :
    (n : ℕ) → Ignores (change_global λ global. record global { current_system_state = some n })
unfolding change_global get_global save_global Ignores gets modify ◌>>=◌
Ignores-set_current_system_state n x g = refl

Ignores-get_user : (a : ℕ) → Ignores (get_user a)
unfolding get_user
Ignores-get_user a = search (ignores_rules, ignored_saves) depth 20 fits 8000

Ignores-get_transaction : (e : Event) → Ignores (get_transaction e)
unfolding get_transaction
Ignores-get_transaction e =
    search (ignores_rules, ignored_saves, Ignores-increase_counter) depth 20 fits 8000

Ignores-get_current_system_state : Ignores get_current_system_state
unfolding get_current_system_state
Ignores-get_current_system_state =
    search
      (
        ignores_rules, ignored_saves, Ignores-find_current_system_state,
        Ignores-set_current_system_state, Ignores-increase_counter,
      )
      depth 20 fits 8000

Ignores-bump_system_state : (s : SystemState) → Ignores (bump_system_state s)
unfolding bump_system_state
Ignores-bump_system_state s =
    search
      (ignores_rules, ignored_saves, Ignores-set_current_system_state, Ignores-increase_counter)
      depth 20 fits 8000

Ignores-begin_change : (e : Event) → Ignores (begin_change e)
unfolding begin_change
Ignores-begin_change e =
    search
      (
        ignores_rules, ignored_saves, Ignores-increase_counter, Ignores-get_transaction,
        Ignores-get_current_system_state,
      )
      depth 20 fits 8000

Ignores-finish_change : (c : ChangeEntity) → Ignores (finish_change c)
unfolding finish_change
Ignores-finish_change c =
    search (ignores_rules, ignored_saves, Ignores-get_current_system_state) depth 20 fits 8000

Ignores-update_system_state_by_stability_deposit_change :
    (c : DepositChangeEntity) → Ignores (update_system_state_by_stability_deposit_change c)
unfolding update_system_state_by_stability_deposit_change
Ignores-update_system_state_by_stability_deposit_change c =
    search
      (ignores_rules, ignored_saves, Ignores-get_current_system_state, Ignores-bump_system_state)
      depth 20 fits 8000

Ignores-create_deposit : (a : ℕ) → Ignores (create_deposit a)
unfolding create_deposit
Ignores-create_deposit a =
    search (ignores_rules, ignored_saves, Ignores-get_user) depth 20 fits 8000

Ignores-get_stability_deposit : (a : ℕ) → Ignores (get_stability_deposit a)
unfolding get_stability_deposit
Ignores-get_stability_deposit a =
    search (ignores_rules, ignored_saves, Ignores-create_deposit) depth 20 fits 8000

Ignores-update_stability_deposit_by_operation :
    (e : Event) (d : DepositEntity) (o : DepositOperation) (n : ℤ) (w : Option ℤ)
    → Ignores (update_stability_deposit_by_operation e d o n w)
unfolding update_stability_deposit_by_operation
Ignores-update_stability_deposit_by_operation e d o n w =
    search
      (
        ignores_rules, ignored_saves, Ignores-begin_change, Ignores-finish_change,
        Ignores-update_system_state_by_stability_deposit_change,
      )
      depth 20 fits 8000

Ignores-withdraw_gain : (e : Event) (a : ℕ) (n l : ℤ) → Ignores (withdraw_gain e a n l)
unfolding withdraw_gain
Ignores-withdraw_gain e a n l =
    search
      (
        ignores_rules, ignored_saves, Ignores-get_stability_deposit,
        Ignores-update_stability_deposit_by_operation,
      )
      depth 20 fits 8000

pub Ignores-withdraw_collateral_gain_from_stability_deposit :
    (e : Event) (a : ℕ) (n l : ℤ)
    → Ignores (withdraw_collateral_gain_from_stability_deposit e a n l)
unfolding withdraw_collateral_gain_from_stability_deposit
Ignores-withdraw_collateral_gain_from_stability_deposit e a n l =
    search (ignores_rules, ignored_saves, Ignores-withdraw_gain) depth 20 fits 8000
