-- ===== src/Alert/Sustained.antt =====
-- evalSustained of workers/alert.worker.ts over a run of observations.
use vpn_relay.Prelude.{
  ℕ, ◌+◌, Text, text_eq_refl, leb, true, false, Option, none, some, List, [], ◌∷◌, ◌≡◌, ap, ◌∙◌,
}
use vpn_relay.Prelude.Dict.{Dict, get, get-put, get-remove}
use vpn_relay.Alert.{eval_sustained, started}

-- The map behind observations at the given times, all with the condition true.
pub observe_true : Text → ℕ → List ℕ → Dict ℕ → Dict ℕ
observe_true key duration_ms [] starts = starts
observe_true key duration_ms (t ∷ ts) starts =
    observe_true key duration_ms ts (eval_sustained t key true duration_ms starts).0

module _ (key : Text) (duration_ms : ℕ) where
  first_true :
      (now : ℕ) (starts : Dict ℕ)
      → get (eval_sustained now key true duration_ms starts).0 key
        ≡ some (started now (get starts key))
  unfolding eval_sustained
  first_true now starts = rw (get-put, text_eq_refl key)

  observed :
      (ts : List ℕ) (starts : Dict ℕ) (t : ℕ)
      → get starts key ≡ some t
      → get (observe_true key duration_ms ts starts) key ≡ some t
  unfolding observe_true
  observed [] starts t h = h
  observed (s ∷ ts) starts t h =
      observed ts (eval_sustained s key true duration_ms starts).0 t (first_true s starts ∙ rw h)

  reset :
      (now : ℕ) (starts : Dict ℕ)
      → get (eval_sustained now key false duration_ms starts).0 key ≡ none
  unfolding eval_sustained
  reset now starts = rw (get-remove, text_eq_refl key)

  answer :
      (now t : ℕ) (starts : Dict ℕ)
      → get starts key ≡ some t
      → (eval_sustained now key true duration_ms starts).1 ≡ leb (t + duration_ms) now
  unfolding eval_sustained
  answer now t starts h = rw h

  -- The answer does not depend on anything before the condition last became true: if it was false at
  -- one observation and true at `t` and at all later ones, then `evalSustained` answers at `now`
  -- whether the duration has passed since `t`.
  pub eval_sustained-lasted :
      (before t now : ℕ) (ts : List ℕ) (starts : Dict ℕ)
      → let off = (eval_sustained before key false duration_ms starts).0 in
        let on = (eval_sustained t key true duration_ms off).0 in
        (eval_sustained now key true duration_ms (observe_true key duration_ms ts on)).1
        ≡ leb (t + duration_ms) now
  eval_sustained-lasted before t now ts starts =
      let off = (eval_sustained before key false duration_ms starts).0 in
      let on = (eval_sustained t key true duration_ms off).0 in
      answer now t (observe_true key duration_ms ts on) (
        observed ts on t
          (first_true t off ∙ ap (λ (o : Option ℕ). some (started t o)) (reset before starts)))
