-- ===== src/Orchestrator/Focus/Sound.antt =====
-- What an approval rests on.
use ujin.Prelude.{
  none, inl, inr, Bool-cases, some, ok, refl, ◌≢◌, ◌≤◌, arith, false, true, Bool, Option, ◌≡◌,
  if_both, Result, raise, String, sym, ◌∙◌, ap,
}
use ujin.Float.{Float, FloatOps}
use ujin.Orchestrator.State.{
  Phase, ready, building, testing, reviewing, needs_work, approved, integrated, dead, FocusState,
  Config, gate_floor,
}
use ujin.Orchestrator.Gates.{GateRun, gate_passed, run_gates, verdict_of}
use ujin.Orchestrator.Focus.{
  Moved, judged, fails, test_diff, review_with, verified, Outside, rests, moves, kill, build,
  run_test, review, retry_or_kill, decided, when_affordable, advance_in, advance_focus, ratchet,
  Verdict, approves, wants_work, rejects,
}

-- the phases after a green gate
unfoldable pub past_gate : Phase → Bool
past_gate ready = false
past_gate building = false
past_gate testing = false
past_gate reviewing = true
past_gate needs_work = false
past_gate approved = true
past_gate integrated = true
past_gate dead = false

-- Only what has passed the gates is reviewed, approved or integrated, and no focus is built again
-- more often than it may be.
abbrev pub IsSound : Config → FocusState → Type 0
IsSound cfg fs =
    (past_gate fs.phase ≡ true → gate_passed fs.test ≡ true) × (fs.attempts ≤ cfg.max_build_retries)

module _ ⦃F : FloatOps⦄ where
  test-IsSound :
      (cfg : Config) (floor : Float) (fs : FocusState) (gates : Result GateRun)
      (hash : Result String)
      → fs.phase ≡ testing
      → IsSound cfg fs
      → IsSound cfg (test_diff cfg floor fs gates hash).focus
  unfolding past_gate test_diff judged fails kill moves run_gates
  test-IsSound cfg floor fs gates (raise err) e h = h
  test-IsSound cfg floor fs (raise err) (ok hash) e h = ground arith
  test-IsSound cfg floor fs (ok g) (ok hash) e h = ground arith

  review-IsSound :
      (cfg : Config) (fs : FocusState) (answer : Result (Verdict × Float)) (touched : Result Bool)
      → fs.phase ≡ reviewing
      → IsSound cfg fs
      → IsSound cfg (review_with fs answer touched).focus
  unfolding past_gate review_with verified decided fails kill moves
  review-IsSound cfg fs answer (raise err) e h = h
  review-IsSound cfg fs (raise err) (ok touched) e h = ground arith
  review-IsSound cfg fs (ok (approves, cost)) (ok touched) e h = ground arith
  review-IsSound cfg fs (ok (wants_work, cost)) (ok touched) e h = ground arith
  review-IsSound cfg fs (ok (rejects, cost)) (ok touched) e h = ground arith

  IsSound-in :
      (p : Phase) (cfg : Config) (stored : Option Float) (fs : FocusState) (affordable : Bool)
      (out : Outside)
      → fs.phase ≡ p
      → IsSound cfg fs
      → IsSound cfg (advance_in p cfg stored fs affordable out).focus
  unfolding past_gate advance_in build run_test review retry_or_kill decided when_affordable kill
      moves rests
  IsSound-in ready cfg stored fs affordable out e h = ground arith
  IsSound-in building cfg stored fs affordable out e h = ground arith
  IsSound-in testing cfg stored fs affordable out e h =
      test-IsSound cfg (gate_floor cfg stored) fs out.gates out.diff_hash e h
  IsSound-in reviewing cfg stored fs affordable out e h =
      if_both (λ (m : Moved). IsSound cfg m.focus) affordable _ _
        (review-IsSound cfg fs out.verifier out.contracts_touched e h) h
  IsSound-in needs_work cfg stored fs affordable out e h = ground arith
  IsSound-in approved cfg stored fs affordable out e h = h
  IsSound-in integrated cfg stored fs affordable out e h = h
  IsSound-in dead cfg stored fs affordable out e h = h

  -- A step of a focus keeps it sound: a focus that is being reviewed, is approved or is integrated has
  -- passed the gates with the figures that it holds, and it was built again no more often than allowed.
  pub advance_focus-IsSound :
      (cfg : Config) (stored : Option Float) (fs : FocusState) (affordable : Bool) (out : Outside)
      → IsSound cfg fs
      → IsSound cfg (advance_focus cfg stored fs affordable out).focus
  unfolding advance_focus
  advance_focus-IsSound cfg stored fs affordable out h =
      IsSound-in fs.phase cfg stored fs affordable out refl h

  approves_only :
      (fs : FocusState) (v : Verdict) (cost : Float)
      → (decided fs v cost).focus.phase ≡ approved
      → v ≡ approves
  unfolding decided kill moves
  approves_only fs approves cost h = refl
  approves_only fs wants_work cost h = cc
  approves_only fs rejects cost h = cc

  reviewed :
      (fs : FocusState) (answer : Result (Verdict × Float)) (touched : Result Bool)
      → fs.phase ≢ approved
      → (review_with fs answer touched).focus.phase ≡ approved
      → (touched ≡ ok false) × ((cost : Float) × (answer ≡ ok (approves, cost)))
  unfolding review_with verified fails kill moves
  reviewed fs answer (raise err) other h = absurd (other h)
  reviewed fs answer (ok true) other h = cc
  reviewed fs (raise err) (ok false) other h = absurd (other h)
  reviewed fs (ok (verdict, cost)) (ok false) other h =
      (refl, (cost, ap (λ v. ok (v, cost)) (approves_only fs verdict cost h)))

  unapproved :
      (cfg : Config) (floor : Float) (fs : FocusState) (gates : Result GateRun)
      (hash : Result String)
      → fs.phase ≢ approved
      → (test_diff cfg floor fs gates hash).focus.phase ≢ approved
  unfolding test_diff judged fails kill moves run_gates
  unapproved cfg floor fs gates (raise err) other h = other h
  unapproved cfg floor fs (raise err) (ok hash) other h = ground arith
  unapproved cfg floor fs (ok g) (ok hash) other h = ground arith

  approved_in :
      (p : Phase) (cfg : Config) (stored : Option Float) (fs : FocusState) (affordable : Bool)
      (out : Outside)
      → p ≢ approved
      → fs.phase ≡ p
      → (advance_in p cfg stored fs affordable out).focus.phase ≡ approved
      → (p ≡ reviewing)
        × (affordable ≡ true)
        × (out.contracts_touched ≡ ok false)
        × ((cost : Float) × (out.verifier ≡ ok (approves, cost)))
  unfolding advance_in build run_test review retry_or_kill decided when_affordable kill moves rests
  approved_in ready cfg stored fs affordable out other e h = ground arith
  approved_in building cfg stored fs affordable out other e h = ground arith
  approved_in testing cfg stored fs affordable out other e h = absurd (
      unapproved cfg (gate_floor cfg stored) fs out.gates out.diff_hash (λ at. other (sym e ∙ at))
        h)
  approved_in reviewing cfg stored fs affordable out other e h = elim (Bool-cases affordable) [
    | inr broke ↦ absurd (ground arith)
    | inl pays ↦
        let said =
          reviewed fs out.verifier out.contracts_touched (λ at. other (sym e ∙ at))
            (rw (pays, when_affordable) at h) in
        (refl, pays, said.0, said.1)
  ]
  approved_in needs_work cfg stored fs affordable out other e h = ground arith
  approved_in approved cfg stored fs affordable out other e h = absurd (other refl)
  approved_in integrated cfg stored fs affordable out other e h = ground arith
  approved_in dead cfg stored fs affordable out other e h = ground arith

  -- A step approves a focus only from the review, when the budget allows the review, the branch does
  -- not touch the contracts and the verifier approves.
  pub advance_focus-approved :
      (cfg : Config) (stored : Option Float) (fs : FocusState) (affordable : Bool) (out : Outside)
      → fs.phase ≢ approved
      → (advance_focus cfg stored fs affordable out).focus.phase ≡ approved
      → (fs.phase ≡ reviewing)
        × (affordable ≡ true)
        × (out.contracts_touched ≡ ok false)
        × ((cost : Float) × (out.verifier ≡ ok (approves, cost)))
  unfolding advance_focus
  advance_focus-approved cfg stored fs affordable out other h =
      approved_in fs.phase cfg stored fs affordable out other refl h

  test_costless :
      (cfg : Config) (floor : Float) (fs : FocusState) (gates : Result GateRun)
      (hash : Result String)
      → (test_diff cfg floor fs gates hash).cost ≡ none
  unfolding test_diff judged fails kill moves run_gates
  test_costless cfg floor fs gates (raise err) = refl
  test_costless cfg floor fs (raise err) (ok hash) = ground arith
  test_costless cfg floor fs (ok g) (ok hash) = ground arith

  costless_in :
      (p : Phase) (cfg : Config) (stored : Option Float) (fs : FocusState) (out : Outside)
      → (advance_in p cfg stored fs false out).cost ≡ none
  unfolding advance_in run_test retry_or_kill when_affordable kill moves rests
  costless_in ready cfg stored fs out = refl
  costless_in building cfg stored fs out = refl
  costless_in testing cfg stored fs out =
      test_costless cfg (gate_floor cfg stored) fs out.gates out.diff_hash
  costless_in reviewing cfg stored fs out = refl
  costless_in needs_work cfg stored fs out = ground arith
  costless_in approved cfg stored fs out = refl
  costless_in integrated cfg stored fs out = refl
  costless_in dead cfg stored fs out = refl

  pub advance_focus-costless :
      (cfg : Config) (stored : Option Float) (fs : FocusState) (out : Outside)
      → (advance_focus cfg stored fs false out).cost ≡ none
  unfolding advance_focus
  advance_focus-costless cfg stored fs out = costless_in fs.phase cfg stored fs out

  ratchet_lem :
      (cfg : Config) (floor : Float) (pct : Option Float) (raised : Float)
      → floor ≤ cfg.coverage_floor_cap
      → ratchet cfg floor pct ≡ some raised
      → floor ≤ raised × raised ≤ cfg.coverage_floor_cap
  unfolding ratchet
  ratchet_lem cfg floor none raised c h = cc
  ratchet_lem cfg floor (some pct) raised c h = ground arith

  below_cap :
      (cfg : Config) (stored : Option Float) → gate_floor cfg stored ≤ cfg.coverage_floor_cap
  unfolding gate_floor
  below_cap cfg stored = omega arith

  test_floor :
      (cfg : Config) (floor : Float) (fs : FocusState) (gates : Result GateRun)
      (hash : Result String) (raised : Float)
      → floor ≤ cfg.coverage_floor_cap
      → (test_diff cfg floor fs gates hash).floor ≡ some raised
      → floor ≤ raised × raised ≤ cfg.coverage_floor_cap
  unfolding test_diff judged fails kill moves run_gates
  test_floor cfg floor fs gates (raise err) raised c h = cc
  test_floor cfg floor fs (raise err) (ok hash) raised c h = ground arith
  test_floor cfg floor fs (ok g) (ok hash) raised c h =
      ground (arith, ratchet_lem cfg floor (verdict_of g floor).cov_pct raised)

  no_floor :
      (fs : FocusState) (answer : Result (Verdict × Float)) (touched : Result Bool) (raised : Float)
      → (review_with fs answer touched).floor ≢ some raised
  unfolding review_with verified decided fails kill moves
  no_floor fs answer (raise err) raised h = cc
  no_floor fs (raise err) (ok touched) raised h = ground arith
  no_floor fs (ok (approves, cost)) (ok touched) raised h = ground arith
  no_floor fs (ok (wants_work, cost)) (ok touched) raised h = ground arith
  no_floor fs (ok (rejects, cost)) (ok touched) raised h = ground arith

  floor_in :
      (p : Phase) (cfg : Config) (stored : Option Float) (fs : FocusState) (affordable : Bool)
      (out : Outside) (raised : Float)
      → (advance_in p cfg stored fs affordable out).floor ≡ some raised
      → gate_floor cfg stored ≤ raised × raised ≤ cfg.coverage_floor_cap
  unfolding advance_in build run_test review retry_or_kill decided when_affordable kill moves rests
  floor_in ready cfg stored fs affordable out raised h = ground arith
  floor_in building cfg stored fs affordable out raised h = ground arith
  floor_in testing cfg stored fs affordable out raised h =
      test_floor cfg (gate_floor cfg stored) fs out.gates out.diff_hash raised
        (below_cap cfg stored) h
  floor_in reviewing cfg stored fs affordable out raised h = absurd (elim (Bool-cases affordable) [
    | inr broke ↦ ground arith
    | inl pays ↦
        no_floor fs out.verifier out.contracts_touched raised (rw (pays, when_affordable) at h)
  ])
  floor_in needs_work cfg stored fs affordable out raised h = ground arith
  floor_in approved cfg stored fs affordable out raised h = ground arith
  floor_in integrated cfg stored fs affordable out raised h = ground arith
  floor_in dead cfg stored fs affordable out raised h = ground arith

  -- The floor that a step writes is at least the floor that branches are held to, and at most the cap.
  pub advance_focus-floor :
      (cfg : Config) (stored : Option Float) (fs : FocusState) (affordable : Bool) (out : Outside)
      (raised : Float)
      → (advance_focus cfg stored fs affordable out).floor ≡ some raised
      → gate_floor cfg stored ≤ raised × raised ≤ cfg.coverage_floor_cap
  unfolding advance_focus
  advance_focus-floor cfg stored fs affordable out raised h =
      floor_in fs.phase cfg stored fs affordable out raised h
