-- ===== src/Lifecycle.antt =====
-- lifecycle.ts: the teardown steps of the process.
use vpn_relay.Prelude.{
  Text, if◌then◌else◌, Bool, true, false, List, [], ◌∷◌, ◌++◌, map, ◌≡◌, refl, append-nil,
  append_assoc, ap, ◌∙◌, sym, arith,
}

-- A step, and whether its `run` throws.
pub record TeardownStep : Type 0 where
  pub name : Text
  pub throws : Bool

pub record Lifecycle : Type 0 where
  pub steps : List TeardownStep
  pub torndown : Bool
  -- the steps that have been run, and those whose failure was logged
  pub ran : List Text
  pub failed : List Text

-- `onTeardown`
unfoldable pub on_teardown : TeardownStep → Lifecycle → Lifecycle
on_teardown s l = record l { steps = l.steps ++ s ∷ [] }

abbrev run_step : TeardownStep → Lifecycle → Lifecycle
run_step s l =
    if s.throws
    then record l { ran = l.ran ++ s.name ∷ []; failed = l.failed ++ s.name ∷ [] }
    else record l { ran = l.ran ++ s.name ∷ [] }

run_steps : List TeardownStep → Lifecycle → Lifecycle
run_steps [] l = l
run_steps (s ∷ ss) l = run_steps ss (run_step s l)

-- `runTeardown`
unfoldable pub run_teardown : Lifecycle → Lifecycle
unfolding run_steps
run_teardown l = if l.torndown then l else run_steps l.steps (record l { torndown = true })

abbrev name_of : TeardownStep → Text
name_of s = s.name

run_step-ran : (s : TeardownStep) (l : Lifecycle) → (run_step s l).ran ≡ l.ran ++ s.name ∷ []
run_step-ran s l = ground arith

run_step-torndown : (s : TeardownStep) (l : Lifecycle) → (run_step s l).torndown ≡ l.torndown
run_step-torndown s l = ground arith

run_steps-ran :
    (ss : List TeardownStep) (l : Lifecycle) → (run_steps ss l).ran ≡ l.ran ++ map name_of ss
unfolding run_steps
run_steps-ran [] l = sym (append-nil l.ran)
run_steps-ran (s ∷ ss) l =
    run_steps-ran ss (run_step s l)
    ∙ ap (λ r. r ++ map name_of ss) (run_step-ran s l)
    ∙ append_assoc l.ran (s.name ∷ []) (map name_of ss)

run_steps-torndown :
    (ss : List TeardownStep) (l : Lifecycle) → (run_steps ss l).torndown ≡ l.torndown
unfolding run_steps
run_steps-torndown [] l = refl
run_steps-torndown (s ∷ ss) l = run_steps-torndown ss (run_step s l) ∙ run_step-torndown s l

-- The first teardown runs every step, in the order of registration, whichever of them throw; a
-- second one does nothing.
pub run_teardown-once :
    (l : Lifecycle)
    → l.torndown ≡ false
    → ((run_teardown l).ran ≡ l.ran ++ map name_of l.steps)
      × (run_teardown (run_teardown l) ≡ run_teardown l)
unfolding run_teardown
run_teardown-once l h =
    let l' : Lifecycle = record l { torndown = true } in
    let first : run_teardown l ≡ run_steps l.steps l' =
      ap (λ b. if b then l else run_steps l.steps l') h in
    let down : (run_teardown l).torndown ≡ true =
      ap (λ k. k.torndown) first ∙ run_steps-torndown l.steps l' in
    (
      ap (λ k. k.ran) first ∙ run_steps-ran l.steps l',
      ap
          (λ b.
            if b
            then run_teardown l
            else run_steps (run_teardown l).steps (record (run_teardown l) { torndown = true }))
          down,
    )
