-- ===== src/Subgraph/Census/Update.antt =====
-- The count of Troves through `updateTrove` (packages/subgraph/src/entities/Trove.ts).
use stability_protocol.Base.{ℕ, true, false, Option, none, some, ◌≡◌, ◌≢◌, refl, sym, subst}
use stability_protocol.Base.Int.{ℤ, pos}
use stability_protocol.Base.Maps.{
  Map, number_key, load_entity, OnSome, All, All-save_entity, load_entity-All,
}
use stability_protocol.Subgraph.Entities.{
  TroveStatus, opened, closed_by_owner, closed_by_liquidation, closed_by_redemption, TroveEntity,
  UserEntity,
}
use stability_protocol.Subgraph.Graph.{
  Graph, pure, gets, ◌>>=◌, modify, get_global, save_global, change_global, found_or, get_user,
  save_user,
}
use stability_protocol.Subgraph.Counters.{
  increase_number_of_open_troves, increase_number_of_liquidated_troves,
  decrease_number_of_liquidated_troves, increase_number_of_redeemed_troves,
  decrease_number_of_redeemed_troves, increase_number_of_troves_closed_by_owner,
  decrease_number_of_troves_closed_by_owner,
}
use stability_protocol.Subgraph.Troves.{
  new_trove, create_after_user, create_trove, get_trove, same_status, count_status,
  set_trove_status, save_trove,
}
use stability_protocol.Subgraph.Frame.{
  Register, register, census, Keeps-register, Keeps-at, after->>=, after->>, after-if,
}
use stability_protocol.Subgraph.Frame.Untouched.{Keeps-get_user, Keeps-save_user}
use stability_protocol.Subgraph.Census.{
  Tally, Agrees, with_one, without, IsSettled, IsCounted, IsPending, tally-save, stored-IsPending,
  new-IsPending, count_closed-Agrees, count_opened-Agrees,
}

-- An event of a Trove without collateral has no debt, and the first event of a Trove has collateral.
abbrev pub IsPlausible : ℤ → ℤ → Option TroveEntity → Type 0
IsPlausible coll debt stored = (coll ≡ pos 0 → debt ≡ pos 0) × (stored ≡ none → coll ≢ pos 0)

-- The Trove in hand is settled and pending, and it is counted if it holds `coll`.
abbrev pub InHandAt : ℕ → ℤ → Register → TroveEntity → Register → Type 0
InHandAt id coll r trove now =
    (now.troves ≡ r.troves)
    × IsPending id trove.status now
    × IsSettled id trove
    × (coll ≡ trove.collateral → IsCounted now)

abbrev pub IsInHand : ℕ → ℤ → Register → TroveEntity × Graph → Type 0
IsInHand id coll r (trove, h) = InHandAt id coll r trove (register h)

same_status_iff : (s t : TroveStatus) → same_status s t ≡ true → s ≡ t
same_status_iff opened opened e = refl
same_status_iff closed_by_owner closed_by_owner e = refl
same_status_iff closed_by_liquidation closed_by_liquidation e = refl
same_status_iff closed_by_redemption closed_by_redemption e = refl
same_status_iff _ _ e = cc

IsSettled-stored :
    (id : ℕ) (trove : TroveEntity) (troves : Map ℕ TroveEntity)
    → load_entity id troves ≡ some trove
    → All IsSettled troves
    → IsSettled id trove
IsSettled-stored id trove troves stored settled =
    subst (OnSome (IsSettled id)) stored (load_entity-All IsSettled id troves settled)

stored-IsInHand :
    (id : ℕ) (coll : ℤ) (trove : TroveEntity) (g : Graph)
    → load_entity id g.troves ≡ some trove
    → IsCounted (register g)
    → IsInHand id coll (register g) (trove, g)
stored-IsInHand id coll trove g stored (agrees, settled) = (
  refl,
  stored-IsPending id trove (register g) stored agrees,
  IsSettled-stored id trove g.troves stored settled,
  λ same. (agrees, settled),
)

count_new-IsPending :
    (id : ℕ) (g : Graph)
    → load_entity id g.troves ≡ none
    → IsCounted (register g)
    → OnSome
        (λ r. (r.1.troves ≡ g.troves) × IsPending id opened (register r.1))
        (increase_number_of_open_troves g)
unfolding increase_number_of_open_troves change_global get_global save_global gets modify ◌>>=◌
count_new-IsPending id g missing (agrees, settled) =
    (refl, new-IsPending id _ g.troves missing agrees)

create_after_user-IsInHand :
    (id : ℕ) (coll : ℤ) (owner : UserEntity) (g : Graph)
    → coll ≢ pos 0
    → load_entity id g.troves ≡ none
    → IsCounted (register g)
    → OnSome (IsInHand id coll (register g)) (create_after_user id owner g)
unfolding create_after_user pure
create_after_user-IsInHand id coll owner g nonzero missing counted =
    after->> _ _ increase_number_of_open_troves _ g (count_new-IsPending id g missing counted)
      λ d h (troves, pending).
        after->> _ _ (save_user (record owner { trove = some id })) (pure _) h
          (Keeps-at register _ (Keeps-register _ (Keeps-save_user _)) h)
          λ d' h' e.
            subst (InHandAt id coll (register g) (record (new_trove id) { owner = owner.id }))
              (sym e) (troves, pending, λ closed. cc, λ same. absurd (nonzero same))

create_trove-IsInHand :
    (id : ℕ) (coll : ℤ) (g : Graph)
    → coll ≢ pos 0
    → load_entity id g.troves ≡ none
    → IsCounted (register g)
    → OnSome (IsInHand id coll (register g)) (create_trove id g)
unfolding create_trove
create_trove-IsInHand id coll g nonzero missing counted =
    after->>= _ _ (get_user id) _ g (Keeps-at register _ (Keeps-register _ (Keeps-get_user id)) g)
      λ owner h e.
        subst
          (λ r.
            load_entity id r.troves ≡ none
            → IsCounted r
            → OnSome (IsInHand id coll r) (create_after_user id owner h))
          e (create_after_user-IsInHand id coll owner h nonzero) missing counted

find_trove-IsInHand :
    (id : ℕ) (coll debt : ℤ) (g : Graph) (found : Option TroveEntity)
    → load_entity id g.troves ≡ found
    → IsPlausible coll debt found
    → IsCounted (register g)
    → OnSome (IsInHand id coll (register g)) (found_or found (create_trove id) g)
unfolding found_or pure
find_trove-IsInHand id coll debt g none missing plausible counted =
    create_trove-IsInHand id coll g (plausible.1 refl) missing counted
find_trove-IsInHand id coll debt g (some trove) stored plausible counted =
    stored-IsInHand id coll trove g stored counted

pub get_trove-IsInHand :
    (id : ℕ) (coll debt : ℤ) (g : Graph)
    → IsPlausible coll debt (load_entity id g.troves)
    → IsCounted (register g)
    → OnSome (IsInHand id coll (register g)) (get_trove id g)
unfolding get_trove gets ◌>>=◌
get_trove-IsInHand id coll debt g plausible counted =
    find_trove-IsInHand id coll debt g _ refl plausible counted

-- The status changes between open and closed only.
abbrev pub Moves : TroveStatus → TroveStatus → Type 0
Moves before status = same_status opened before ≡ false → status ≡ opened

count_status-Agrees :
    (before status : TroveStatus) (n : Tally) (g : Graph)
    → same_status status before ≡ false
    → Moves before status
    → Agrees (census g) (with_one before n)
    → OnSome
        (λ r. (r.1.troves ≡ g.troves) × Agrees (census r.1) (with_one status n))
        (count_status before status g)
unfolding increase_number_of_liquidated_troves decrease_number_of_liquidated_troves
    increase_number_of_redeemed_troves decrease_number_of_redeemed_troves
    increase_number_of_troves_closed_by_owner decrease_number_of_troves_closed_by_owner
    change_global get_global save_global gets modify ◌>>=◌
count_status-Agrees opened opened n g other moves agrees = cc
count_status-Agrees opened closed_by_owner n g other moves agrees =
    (refl, count_closed-Agrees closed_by_owner _ n agrees)
count_status-Agrees opened closed_by_liquidation n g other moves agrees =
    (refl, count_closed-Agrees closed_by_liquidation _ n agrees)
count_status-Agrees opened closed_by_redemption n g other moves agrees =
    (refl, count_closed-Agrees closed_by_redemption _ n agrees)
count_status-Agrees closed_by_owner opened n g other moves agrees =
    (refl, count_opened-Agrees closed_by_owner _ n agrees)
count_status-Agrees closed_by_liquidation opened n g other moves agrees =
    (refl, count_opened-Agrees closed_by_liquidation _ n agrees)
count_status-Agrees closed_by_redemption opened n g other moves agrees =
    (refl, count_opened-Agrees closed_by_redemption _ n agrees)
count_status-Agrees closed_by_owner status n g other moves agrees = let e = moves refl in cc
count_status-Agrees closed_by_liquidation status n g other moves agrees = let e = moves refl in cc
count_status-Agrees closed_by_redemption status n g other moves agrees = let e = moves refl in cc

pub set_trove_status-IsPending :
    (id : ℕ) (trove : TroveEntity) (status : TroveStatus) (g : Graph)
    → IsPending id trove.status (register g)
    → Moves trove.status status
    → OnSome
        (λ (r : TroveEntity × Graph).
          (r.0 ≡ record trove { status = status })
          × (r.1.troves ≡ g.troves)
          × IsPending id status (register r.1))
        (set_trove_status trove status g)
unfolding set_trove_status pure
set_trove_status-IsPending id trove status g pending moves =
    after-if _ (same_status status trove.status) (pure trove) _ g
      (λ same.
        let e = same_status_iff _ _ same in
        (rw e refl, refl, subst (λ s. IsPending id s (register g)) (sym e) pending))
      λ other.
        after->> _ _ (count_status trove.status status) (pure _) g
          (count_status-Agrees trove.status status (without id g.troves) g other moves pending)
          λ d h (troves, agrees). (refl, troves, rw troves agrees)

pub save_trove-IsCounted :
    (id : ℕ) (trove : TroveEntity) (g : Graph)
    → IsPending id trove.status (register g)
    → IsSettled id trove
    → All IsSettled g.troves
    → OnSome (λ r. IsCounted (register r.1)) (save_trove id trove g)
unfolding save_trove modify
save_trove-IsCounted id trove g pending settled others = (
  subst (Agrees _) (sym (tally-save id trove g.troves)) pending,
  All-save_entity IsSettled id trove g.troves settled others,
)
