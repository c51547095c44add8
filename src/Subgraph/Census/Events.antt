-- ===== src/Subgraph/Census/Events.antt =====
-- The count of Troves over the events of a subgraph (packages/subgraph/src/mappings).
use stability_protocol.Base.{
  ℕ, Bool, Bool-cases, inl, inr, ◌∙◌, true, false, ◌&&◌, ◌≡◌, refl, sym, subst,
}
use stability_protocol.Base.Int.{ℤ, pos, eq_ℤ, eq_ℤ_iff}
use stability_protocol.Base.Maps.{number_key, load_entity, OnSome, All}
use stability_protocol.Subgraph.Entities.{Global, TroveEntity, TroveOperation}
use stability_protocol.Subgraph.Graph.{Graph, Event, get_global}
use stability_protocol.Subgraph.Troves.{
  get_trove, set_trove_status, record_trove_change, updated_trove, status_after, set_status,
  write_trove, update_trove,
}
use stability_protocol.Subgraph.Frame.{
  Register, register, Keeps-register, Keeps-at, after->>=, after->>, after-unless, get_global_same,
}
use stability_protocol.Subgraph.Frame.Untouched.{Keeps-record_trove_change}
use stability_protocol.Subgraph.Census.{IsSettled, IsCounted, IsPending}
use stability_protocol.Subgraph.Census.Update.{
  IsPlausible, IsInHand, Moves, get_trove-IsInHand, set_trove_status-IsPending,
  save_trove-IsCounted,
}

-- A closed Trove that changes opens.
closed-Moves :
    (operation : TroveOperation) (id : ℕ) (trove : TroveEntity) (coll debt : ℤ)
    → (coll ≡ pos 0 → debt ≡ pos 0)
    → IsSettled id trove
    → (eq_ℤ coll trove.collateral && eq_ℤ debt trove.debt) ≡ false
    → Moves trove.status (status_after operation coll)
unfolding status_after
closed-Moves operation id trove coll debt plausible settled changed closed =
    elim (Bool-cases (eq_ℤ coll (pos 0))) [
      | inl zero ↦
          let coll_zero = (eq_ℤ_iff coll (pos 0)).0 zero in
          let held = settled closed in
          let same_coll = (eq_ℤ_iff coll trove.collateral).1 (coll_zero ∙ sym held.0) in
          let same_debt = (eq_ℤ_iff debt trove.debt).1 (plausible coll_zero ∙ sym held.1) in cc
      | inr other ↦ rw other refl
    ]

status_after-IsSettled :
    (operation : TroveOperation) (id : ℕ) (global : Global) (trove : TroveEntity)
    (coll debt stake : ℤ)
    → (coll ≡ pos 0 → debt ≡ pos 0)
    → IsSettled id (record (updated_trove global trove coll debt stake) {
      status = status_after operation coll;
    })
unfolding status_after updated_trove
status_after-IsSettled operation id global trove coll debt stake plausible closed =
    elim (Bool-cases (eq_ℤ coll (pos 0))) [
      | inl zero ↦
          let coll_zero = (eq_ℤ_iff coll (pos 0)).0 zero in (coll_zero, plausible coll_zero)
      | inr other ↦ let open_then = rw other at closed in cc
    ]

-- The part of `updateTrove` after the change is recorded.
set_status-IsCounted :
    (operation : TroveOperation) (id : ℕ) (global : Global) (trove : TroveEntity)
    (coll debt stake : ℤ) (g : Graph)
    → (coll ≡ pos 0 → debt ≡ pos 0)
    → Moves trove.status (status_after operation coll)
    → All IsSettled g.troves
    → IsPending id trove.status (register g)
    → OnSome
        (λ r. IsCounted (register r.1))
        (set_status operation id global trove coll debt stake g)
unfolding set_status updated_trove
set_status-IsCounted operation id global trove coll debt stake g plausible moves others pending =
    let updated = updated_trove global trove coll debt stake in
    let status = status_after operation coll in
    after->>= _ _ (set_trove_status updated status) _ g
      (set_trove_status-IsPending id updated status g pending moves)
      λ with_status h (written, troves, now).
        save_trove-IsCounted id with_status h (rw written now)
          (rw written (status_after-IsSettled operation id global trove coll debt stake plausible))
          (rw troves others)

write_trove-IsCounted :
    (e : Event) (operation : TroveOperation) (id : ℕ) (global : Global) (trove : TroveEntity)
    (coll debt stake : ℤ) (r : Register) (g : Graph)
    → (coll ≡ pos 0 → debt ≡ pos 0)
    → (eq_ℤ coll trove.collateral && eq_ℤ debt trove.debt) ≡ false
    → All IsSettled r.troves
    → IsInHand id coll r (trove, g)
    → OnSome
        (λ r. IsCounted (register r.1))
        (write_trove e operation id global trove coll debt stake g)
unfolding write_trove
write_trove-IsCounted e operation id global trove coll debt stake r g plausible changed others
      (troves, pending, settled, same) =
    after->> _ _ (record_trove_change e operation trove coll debt) _ g
      (Keeps-at register _
        (Keeps-register _ (Keeps-record_trove_change e operation trove coll debt)) g)
      λ d h kept.
        set_status-IsCounted operation id global trove coll debt stake h plausible
          (closed-Moves operation id trove coll debt plausible settled changed)
          (subst (λ (q : Register). All IsSettled q.troves) (sym kept) (rw troves others))
          (subst (IsPending id trove.status) (sym kept) pending)

and_left : (a b : Bool) → (a && b) ≡ true → a ≡ true
and_left true b e = refl
and_left false b e = cc

pub update_trove-IsCounted :
    (e : Event) (operation : TroveOperation) (id : ℕ) (coll debt stake : ℤ) (g : Graph)
    → IsPlausible coll debt (load_entity id g.troves)
    → IsCounted (register g)
    → OnSome (λ r. IsCounted (register r.1)) (update_trove e operation id coll debt stake g)
unfolding update_trove
update_trove-IsCounted e operation id coll debt stake g plausible counted =
    after->>= _ _ get_global _ g (get_global_same g) λ global g' (read, same). rw same (
      after->>= _ _ (get_trove id) _ g (get_trove-IsInHand id coll debt g plausible counted)
        λ trove h in_hand.
          after-unless _ (eq_ℤ coll trove.collateral && eq_ℤ debt trove.debt) _ h
            (λ unchanged. in_hand.3 ((eq_ℤ_iff coll trove.collateral).0 (and_left _ _ unchanged)))
            (λ changed.
              write_trove-IsCounted e operation id global trove coll debt stake (register g) h
                plausible.0 changed counted.1 in_hand))
