-- ===== src/Updates/Split.antt =====
-- `splitMessage` of workers/updates.worker.ts ends, keeps its limit and loses nothing but line breaks.
use vpn_relay.Prelude.{
  ℕ, zero, suc, ◌-◌, ◌≤◌, ◌<◌, Text, ltb, leb, ◌==◌, Bool-cases, not, Option, Option-cases, none,
  some, List, [], ◌∷◌, ◌++◌, append-nil, length, take, drop, keep, All, ◌≡◌, refl, ap, ◌∙◌, inl,
  inr, arith,
}
use vpn_relay.Updates.{
  newline, last_index_of, or_else, split_index, strip, last_part, split_loop, split_message,
}

last_index_of-le :
    (needle : Text) (pos : ℕ) (s : Text) (i : ℕ) → last_index_of needle pos s ≡ some i → i ≤ pos
unfolding last_index_of
last_index_of-le needle pos [] i h = cc
last_index_of-le needle zero (c ∷ s) i h = ground arith
last_index_of-le needle (suc pos) (c ∷ s) i h = elim (Option-cases (last_index_of needle pos s)) [
  | inl e ↦ ground arith
  | inr (j, e) ↦ let smaller = last_index_of-le needle pos s j e in ground arith
]

or_else_bounds :
    (o : Option ℕ) (other max : ℕ)
    → ((i : ℕ) → o ≡ some i → i ≤ max)
    → 1 ≤ other
    → other ≤ max
    → (1 ≤ or_else o other) × (or_else o other ≤ max)
or_else_bounds none other max h p q = (p, q)
or_else_bounds (some zero) other max h p q = (p, q)
or_else_bounds (some (suc i)) other max h p q = (omega arith, h (suc i) refl)

split_index_bounds :
    (max : ℕ) (s : Text) → 1 ≤ max → (1 ≤ split_index max s) × (split_index max s ≤ max)
unfolding split_index
split_index_bounds max s h =
    let inner =
      or_else_bounds (last_index_of (newline ∷ []) max s) max max
        (last_index_of-le (newline ∷ []) max s) h (omega arith) in
    or_else_bounds (last_index_of (newline ∷ newline ∷ []) max s) _ max
      (last_index_of-le (newline ∷ newline ∷ []) max s) inner.0 inner.1

length-strip : (s : Text) → length (strip s) ≤ length s
unfolding strip
length-strip [] = omega arith
length-strip (c ∷ s) = ground (arith, length-strip s)

length-drop : (n : ℕ) (s : Text) → length (drop n s) ≡ length s - n
length-drop zero s = omega arith
length-drop (suc n) [] = omega arith
length-drop (suc n) (c ∷ s) = omega (arith, length-drop n s)

length-take : (n : ℕ) (s : Text) → length (take n s) ≤ n
length-take zero s = omega arith
length-take (suc n) [] = omega arith
length-take (suc n) (c ∷ s) = omega (arith, length-take n s)

-- The units of a text that are no line breaks.
abbrev pub inked : Text → Text
inked = keep (λ c. not (c == newline))

abbrev pub concat : List Text → Text
concat [] = []
concat (s ∷ ss) = s ++ concat ss

inked-append : (s t : Text) → inked (s ++ t) ≡ inked s ++ inked t
inked-append [] t = refl
inked-append (c ∷ s) t = ground (arith, inked-append s t)

inked-strip : (s : Text) → inked (strip s) ≡ inked s
unfolding strip
inked-strip [] = refl
inked-strip (c ∷ s) = ground (arith, inked-strip s)

inked-take-drop : (n : ℕ) (s : Text) → inked (take n s) ++ inked (drop n s) ≡ inked s
inked-take-drop zero s = refl
inked-take-drop (suc n) [] = refl
inked-take-drop (suc n) (c ∷ s) = ground (arith, inked-take-drop n s)

-- The parts of a split of `s`: within the limit, with all that is no line break, in order.
abbrev pub IsSplit : ℕ → Text → List Text → Type 0
IsSplit max s ps = All (λ p. length p ≤ max) ps × (inked (concat ps) ≡ inked s)

last_part-IsSplit : (max : ℕ) (s : Text) → length s ≤ max → IsSplit max s (last_part s)
last_part-IsSplit max [] h = (tt, refl)
last_part-IsSplit max (c ∷ s) h = ((h, tt), ap inked (append-nil (c ∷ s)))

cons_part-IsSplit :
    (max k : ℕ) (s : Text) (ps : List Text)
    → k ≤ max
    → IsSplit max (strip (drop k s)) ps
    → IsSplit max s (take k s ∷ ps)
cons_part-IsSplit max k s ps h r = (
  (omega (arith, length-take k s), r.0),
  inked-append (take k s) (concat ps)
      ∙ ap (λ t. inked (take k s) ++ t) (r.1 ∙ inked-strip (drop k s))
      ∙ inked-take-drop k s,
)

-- The loop ends within as many rounds as the text has units.
split_loop-total :
    (max fuel : ℕ) (s : Text)
    → 1 ≤ max
    → length s < fuel
    → (ps : List Text) × (split_loop fuel max s ≡ some ps) × IsSplit max s ps
unfolding split_loop
split_loop-total max zero s h f = absurd (omega arith)
split_loop-total max (suc fuel) s h f = elim (Bool-cases (ltb max (length s))) [
  | inl long ↦
      let k = split_index max s in
      let bounds = split_index_bounds max s h in
      let shorter : length (strip (drop k s)) < fuel =
        ground (arith, length-strip (drop k s), length-drop k s) in
      let (ps, e, r) = split_loop-total max fuel (strip (drop k s)) h shorter in
      (take k s ∷ ps, rw (long, e) refl, cons_part-IsSplit max k s ps bounds.1 r)
  | inr short ↦ (last_part s, rw short refl, last_part-IsSplit max s (ground arith))
]

-- `splitMessage` always ends, for any limit of at least 1: each part keeps the limit, and the parts
-- one after the other are the message up to line breaks.
pub split_message-total :
    (max : ℕ) (s : Text)
    → 1 ≤ max
    → (ps : List Text) × (split_message max s ≡ some ps) × IsSplit max s ps
unfolding split_message
split_message-total max s h = elim (Bool-cases (leb (length s) max)) [
  | inl short ↦ (s ∷ [], rw short refl, ((ground arith, tt), ap inked (append-nil s)))
  | inr long ↦
      let (ps, e, r) = split_loop-total max (suc (length s)) s h (omega arith) in
      (ps, rw (long, e) refl, r)
]
