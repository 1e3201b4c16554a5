-- ===== src/Kernel/Tick/Carry.antt =====
-- Step 7 of a tick on a valid state: the evaluations of the old domain are carried over as they
-- were, and the new one is added.
use toy_brain.Prelude.{
  ◌≡◌, refl, true, ◌&&◌, not, Option, [], ◌∷◌, arith, Text, if◌then◌else◌, Bool-cases, inl, inr,
  eq_text, eq_text_iff,
}
use toy_brain.Prelude.Outcome.{ok}
use toy_brain.Prelude.FrozenSet.{FrozenSet, Distinct, contains}
use toy_brain.Prelude.Dict.{
  Dict, get, put, keys, is_some, get-put, put-Distinct, item-ok, is_some-witness,
}
use toy_brain.Tlica.Profile.{cogito_id}
use toy_brain.Tlica.PtCns.{ConsistencyEval, PtCns, eval}
use toy_brain.Kernel.Tick.{carry_eval, carry_evals}

-- What the carried map answers.
abbrev pub carried_get : PtCns → FrozenSet → Dict ConsistencyEval → Text → Option ConsistencyEval
carried_get p cids full x =
    if contains x cids && not (eq_text x cogito_id) then get x p.eval_map else get x full

module _ (p : PtCns) where
  carry_eval_lem :
      (cid : Text) (full : Dict ConsistencyEval)
      → Distinct (keys full)
      → is_some (get cid p.eval_map) ≡ true
      → (m : Dict ConsistencyEval) × (carry_eval p cid full ≡ ok m)
        × Distinct (keys m)
        × ((x : Text)
            → get x m ≡ (
                if eq_text x cid && not (eq_text x cogito_id)
                then get x p.eval_map
                else get x full))
  unfolding carry_eval eval
  carry_eval_lem cid full d known = elim (Bool-cases (eq_text cid cogito_id)) [
    | inl cogito ↦ (
      full,
      rw cogito,
      d,
      λ x. ground (arith, eq_text_iff x cid, eq_text_iff cid cogito_id, eq_text_iff x cogito_id),
    )
    | inr other ↦
        let (e, found) = is_some-witness (get cid p.eval_map) known in
        (
          put cid e full,
          rw (other, item-ok cid p.eval_map found),
          put-Distinct cid e full d,
          λ x. ground (
            arith,
            get-put cid x e full,
            eq_text_iff x cid,
            eq_text_iff cid cogito_id,
            eq_text_iff x cogito_id,
          ),
        )
  ]

  pub carry_evals_lem :
      (cids : FrozenSet) (full : Dict ConsistencyEval)
      → Distinct (keys full)
      → ((x : Text) → contains x cids ≡ true → is_some (get x p.eval_map) ≡ true)
      → (m : Dict ConsistencyEval) × (carry_evals p cids full ≡ ok m)
        × Distinct (keys m)
        × ((x : Text) → get x m ≡ carried_get p cids full x)
  unfolding carry_evals contains
  carry_evals_lem [] full d known = (full, refl, d, λ x. refl)
  carry_evals_lem (cid ∷ rest) full d known =
      let (m, e, d', at) =
        carry_eval_lem cid full d (known cid (ground (arith, eq_text_iff cid cid))) in
      let (n, f, d'', at') = carry_evals_lem rest m d' (λ x there. known x (ground arith)) in
      (n, rw e f, d'', λ x. ground (arith, at x, at' x))
