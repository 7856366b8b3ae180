-- ===== src/Emulator/Loop/Rounds.antt =====
-- cpm/cpm.go, the loop of `Execute`: when it ends, and how.
use cpmulator.Base.{
  ℕ, zero, suc, ◌+◌, ◌≡◌, ◌⊎◌, ◌↔◌, ◌∙◌, sym, ap, refl, inl, inr, arith, some, List,
}
use cpmulator.Cpm.{Cpm, Result}
use cpmulator.Env.{Env}
use cpmulator.Emulator.Loop.{Run, Round, round, run_forever}

-- `Execute` goes from a state to its end, as a relation.
pub data Ends (env : Env) (run : List ℕ → Cpm → Run) : Cpm → Result → Type 0 where
  now : {s : Cpm} {r : Result} → round env run s ≡ Round.ends r → Ends env run s r
  later :
      {s t : Cpm} {r : Result}
      → round env run s ≡ Round.again t
      → Ends env run t r
      → Ends env run s r

Round-cases : (x : Round) → ((t : Cpm) × (x ≡ Round.again t)) ⊎ ((r : Result) × (x ≡ Round.ends r))
Round-cases (Round.again t) = inl (t, refl)
Round-cases (Round.ends r) = inr (r, refl)

module _ (env : Env) (run : List ℕ → Cpm → Run) where
  run_forever-again :
      (fuel : ℕ) (s t : Cpm)
      → round env run s ≡ Round.again t
      → run_forever env run (suc fuel) s ≡ run_forever env run fuel t
  unfolding run_forever
  run_forever-again fuel s t e = rw (e, run_forever)

  run_forever-ends :
      (fuel : ℕ) (s : Cpm) (r : Result)
      → round env run s ≡ Round.ends r
      → run_forever env run (suc fuel) s ≡ some r
  unfolding run_forever
  run_forever-ends fuel s r e = rw (e, run_forever)

  run_forever_sound :
      (fuel : ℕ) (s : Cpm) (r : Result) → run_forever env run fuel s ≡ some r → Ends env run s r
  unfolding run_forever
  run_forever_sound zero s r h = absurd (cc)
  run_forever_sound (suc fuel) s r h = elim (Round-cases (round env run s)) [
    | inl (t, e) ↦ later e (run_forever_sound fuel t r (sym (run_forever-again fuel s t e) ∙ h))
    | inr (q, e) ↦
        let same : some q ≡ some r = sym (run_forever-ends fuel s q e) ∙ h in
        let inner : q ≡ r = cc in now (e ∙ ap Round.ends inner)
  ]

  run_forever_complete :
      {s : Cpm} {r : Result} → Ends env run s r → (fuel : ℕ) × (run_forever env run fuel s ≡ some r)
  run_forever_complete (now e) = (1, run_forever-ends 0 _ _ e)
  run_forever_complete (later e h) =
      let (fuel, k) = run_forever_complete h in (suc fuel, run_forever-again fuel _ _ e ∙ k)

  -- More fuel changes no end.
  run_forever_more :
      (fuel more : ℕ) (s : Cpm) (r : Result)
      → run_forever env run fuel s ≡ some r
      → run_forever env run (fuel + more) s ≡ some r
  unfolding run_forever
  run_forever_more zero more s r h = absurd cc
  run_forever_more (suc fuel) more s r h = elim (Round-cases (round env run s)) [
    | inl (t, e) ↦
        ap (λ n. run_forever env run n s) {x = suc fuel + more} {y = suc (fuel + more)}
          (omega arith)
        ∙ run_forever-again (fuel + more) s t e
        ∙ run_forever_more fuel more t r (sym (run_forever-again fuel s t e) ∙ h)
    | inr (q, e) ↦
        ap (λ n. run_forever env run n s) {x = suc fuel + more} {y = suc (fuel + more)}
          (omega arith)
        ∙ run_forever-ends (fuel + more) s q e
        ∙ sym (run_forever-ends fuel s q e)
        ∙ h
  ]

  -- The end that the loop reaches with some fuel is the one that the rounds lead to, each
  -- determining the next; there is at most one, and more fuel does not change it.
  pub run_forever-Ends :
      (s : Cpm) (r : Result)
      → (((fuel : ℕ) × (run_forever env run fuel s ≡ some r)) ↔ Ends env run s r)
        × ((q : Result) → Ends env run s r → Ends env run s q → q ≡ r)
        × ((fuel more : ℕ)
            → run_forever env run fuel s ≡ some r
            → run_forever env run (fuel + more) s ≡ some r)
  run_forever-Ends s r = (
    (λ (fuel, h). run_forever_sound fuel s r h, run_forever_complete),
    λ q h k.
        let (fuel, e) = run_forever_complete h in
        let (more, e') = run_forever_complete k in
        let there : some q ≡ some r =
          sym (run_forever_more more fuel s q e')
          ∙ ap (λ n. run_forever env run n s) {x = more + fuel} {y = fuel + more} (omega arith)
          ∙ run_forever_more fuel more s r e in
        cc,
    λ fuel more h. run_forever_more fuel more s r h,
  )
