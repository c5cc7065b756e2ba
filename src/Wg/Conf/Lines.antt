-- ===== src/Wg/Conf/Lines.antt =====
-- `split("\n")` and `join("\n")` of wg.conf.ts undo one another on lines without a newline.
use vpn_relay.Prelude.{
  ℕ, Text, ◌≡◌, ◌≢◌, refl, ap, ◌∙◌, List, [], ◌∷◌, ◌++◌, All, ◌==◌, false, Bool-cases, inl, inr,
  arith, append_assoc,
}
use vpn_relay.Wg.Conf.{newline, split_lines, cons_first, join_lines}

-- A text with no newline.
abbrev pub IsLine : Text → Type 0
IsLine = All (λ c. c ≢ newline)

pub IsLine-append : (s t : Text) → IsLine s → IsLine t → IsLine (s ++ t)
IsLine-append [] t hs ht = ht
IsLine-append (c ∷ s) t hs ht = (hs.0, IsLine-append s t hs.1 ht)

ne-newline : (c : ℕ) → c ≢ newline → (c == newline) ≡ false
ne-newline c h = ground arith

pub split_lines-IsLine : (l : Text) → IsLine l → split_lines l ≡ l ∷ []
unfolding split_lines
split_lines-IsLine [] h = refl
split_lines-IsLine (c ∷ l) h = rw (ne-newline c h.0) (rw (split_lines-IsLine l h.1))

pub split_lines-append :
    (l s : Text) → IsLine l → split_lines (l ++ newline ∷ s) ≡ l ∷ split_lines s
unfolding split_lines
split_lines-append [] s h = refl
split_lines-append (c ∷ l) s h = rw (ne-newline c h.0) (rw (split_lines-append l s h.1))

-- Joined lines, ended by a newline, split again into the same lines.
pub split_lines-join_lines :
    (l : Text) (ls : List Text) (s : Text)
    → All IsLine (l ∷ ls)
    → split_lines (join_lines (l ∷ ls) ++ newline ∷ s) ≡ (l ∷ ls) ++ split_lines s
unfolding join_lines
split_lines-join_lines l [] s h = split_lines-append l s h.0
split_lines-join_lines l (m ∷ ls) s h =
    ap split_lines (append_assoc l (newline ∷ join_lines (m ∷ ls)) (newline ∷ s))
    ∙ (split_lines-append l (join_lines (m ∷ ls) ++ newline ∷ s) h.0
        ∙ ap (λ (t : List Text). l ∷ t) (split_lines-join_lines m ls s h.1))

cons_first-All :
    (c : ℕ) (ls : List Text) → c ≢ newline → All IsLine ls → All IsLine (cons_first c ls)
cons_first-All c [] hc h = ((hc, tt), tt)
cons_first-All c (l ∷ ls) hc h = ((hc, h.0), h.1)

pub split_lines-All : (s : Text) → All IsLine (split_lines s)
unfolding split_lines
split_lines-All [] = (tt, tt)
split_lines-All (c ∷ s) = elim (Bool-cases (c == newline)) [
  | inl e ↦ rw e (tt, split_lines-All s)
  | inr n ↦ rw n (cons_first-All c (split_lines s) (λ e. absurd (ground arith)) (split_lines-All s))
]
