-- ===== src/Wg/Conf/Render.antt =====
-- renderConf of wg.conf.ts: what a rendered conf keeps, and that rendering again replaces the
-- managed blocks.
pub mod Blocks
use vpn_relay.Prelude.{
  ℕ, Text, text, starts_with, ◌≡◌, refl, ap, sym, ◌∙◌, List, [], ◌∷◌, ◌++◌, map, All, Bool, true,
  false, arith, append_assoc, append-nil, ◌==◌, if◌then◌else◌, Bool-cases, inl, inr, not,
}
use vpn_relay.Wg.Conf.{
  newline, begin_marker, end_marker, block_after, is_kept_line, DesiredPeer, split_lines,
  join_lines, join_parts, block_lines, render_peer_block, strip_blocks, push_or_pop, pop_blank,
  is_blank, kept, render_conf,
}
use vpn_relay.Wg.Conf.Lines.{IsLine, split_lines-join_lines, split_lines-append, split_lines-All}
use Blocks.{IsRenderable, block_lines-IsLine, strip_blocks-block_lines}

-- The lines behind the kept ones: an empty line before each block, and one at the end.
pub peer_lines : List DesiredPeer → List Text
peer_lines [] = [] ∷ []
peer_lines (p ∷ ps) = [] ∷ (block_lines p ++ peer_lines ps)

-- `[].join("\n")` and `[""].join("\n")` are the same text, which splits into one line.
pub first_lines : List Text → List Text
first_lines [] = [] ∷ []
first_lines (l ∷ ls) = l ∷ ls

join_lines-first : (ls : List Text) → join_lines (first_lines ls) ≡ join_lines ls
unfolding join_lines first_lines
join_lines-first [] = refl
join_lines-first (l ∷ ls) = refl

split-part :
    (ls : List Text) (s : Text)
    → All IsLine ls
    → split_lines (join_lines ls ++ newline ∷ s) ≡ first_lines ls ++ split_lines s
unfolding first_lines join_lines split_lines
split-part [] s h = refl
split-part (l ∷ ls) s h = split_lines-join_lines l ls s h

first_lines-block_lines : (p : DesiredPeer) → first_lines (block_lines p) ≡ block_lines p
unfolding first_lines block_lines
first_lines-block_lines p = refl

-- The text behind the first part, when it ends in a newline.
split-parts :
    (ls : List Text) (ps : List DesiredPeer)
    → All IsLine ls
    → All IsRenderable ps
    → split_lines (join_parts (join_lines ls ∷ map render_peer_block ps) ++ newline ∷ [])
      ≡ first_lines ls ++ peer_lines ps
unfolding join_parts peer_lines split_lines render_peer_block
split-parts ls [] h hs = split-part ls [] h
split-parts ls (p ∷ ps) h hs =
    let behind = join_parts (render_peer_block p ∷ map render_peer_block ps) in
    ap split_lines (append_assoc (join_lines ls) (newline ∷ newline ∷ behind) (newline ∷ []))
    ∙ (split-part ls (newline ∷ (behind ++ newline ∷ [])) h
        ∙ ap (λ (t : List Text). first_lines ls ++ [] ∷ t)
            (split-parts (block_lines p) ps (block_lines-IsLine p hs.0) hs.1
              ∙ ap (λ (t : List Text). t ++ peer_lines ps) (first_lines-block_lines p)))

-- Lines that the loop keeps from outside a block: none begins one.
abbrev NoBegin : List Text → Type 0
NoBegin = All (λ l. starts_with l begin_marker ≡ false)

abbrev AllBlank : List Text → Type 0
AllBlank = All (λ l. is_blank l ≡ true)

strip_blocks-NoBegin : (b : Bool) (ls : List Text) → NoBegin (strip_blocks b ls)
unfolding strip_blocks
strip_blocks-NoBegin b [] = tt
strip_blocks-NoBegin b (l ∷ ls) = elim (Bool-cases (is_kept_line b l)) [
  | inl e ↦ rw e (ground arith, strip_blocks-NoBegin (block_after b l) ls)
  | inr n ↦ rw n (strip_blocks-NoBegin (block_after b l) ls)
]

strip_blocks-append :
    (ks ls : List Text) → NoBegin ks → strip_blocks false (ks ++ ls) ≡ ks ++ strip_blocks false ls
unfolding strip_blocks
strip_blocks-append [] ls h = refl
strip_blocks-append (k ∷ ks) ls h = rw (h.0) (rw (strip_blocks-append ks ls h.1))

strip_blocks-peer_lines :
    (ps : List DesiredPeer) → All IsRenderable ps → AllBlank (strip_blocks false (peer_lines ps))
unfolding peer_lines strip_blocks starts_with is_blank
strip_blocks-peer_lines [] h = (refl, tt)
strip_blocks-peer_lines (p ∷ ps) h =
    (refl, rw (strip_blocks-block_lines p (peer_lines ps) h.0) (strip_blocks-peer_lines ps h.1))

pop_blank-AllBlank : (ls : List Text) → AllBlank ls → pop_blank ls ≡ []
unfolding pop_blank
pop_blank-AllBlank [] h = refl
pop_blank-AllBlank (l ∷ ls) h = ground (arith, pop_blank-AllBlank ls h.1, h.0)

pop_blank-append : (ks ls : List Text) → AllBlank ls → pop_blank (ks ++ ls) ≡ pop_blank ks
unfolding pop_blank
pop_blank-append [] ls h = pop_blank-AllBlank ls h
pop_blank-append (k ∷ ks) ls h = ground (arith, pop_blank-append ks ls h)

pop_blank-pop_blank : (ks : List Text) → pop_blank (pop_blank ks) ≡ pop_blank ks
unfolding pop_blank
pop_blank-pop_blank [] = refl
pop_blank-pop_blank (k ∷ ks) = ground (arith, pop_blank-pop_blank ks)

pop_blank-first_lines : (ks : List Text) → pop_blank (first_lines ks) ≡ pop_blank ks
unfolding pop_blank first_lines
pop_blank-first_lines [] = refl
pop_blank-first_lines (k ∷ ks) = refl

module _ (P : Text → Type 0) where
  All-push_or_pop : (k : Text) (ls : List Text) → P k → All P ls → All P (push_or_pop k ls)
  unfolding push_or_pop
  All-push_or_pop k (m ∷ ls) hk h = (hk, h)
  All-push_or_pop k [] hk h = elim (Bool-cases (is_blank k)) [
    | inl e ↦ rw e tt
    | inr n ↦ rw n (hk, tt)
  ]

  All-pop_blank : (ks : List Text) → All P ks → All P (pop_blank ks)
  unfolding pop_blank
  All-pop_blank [] h = tt
  All-pop_blank (k ∷ ks) h = All-push_or_pop k (pop_blank ks) h.0 (All-pop_blank ks h.1)

  All-strip_blocks : (b : Bool) (ks : List Text) → All P ks → All P (strip_blocks b ks)
  unfolding strip_blocks
  All-strip_blocks b [] h = tt
  All-strip_blocks b (k ∷ ks) h = elim (Bool-cases (is_kept_line b k)) [
    | inl e ↦ rw e (h.0, All-strip_blocks (block_after b k) ks h.1)
    | inr n ↦ rw n (All-strip_blocks (block_after b k) ks h.1)
  ]

kept-NoBegin : (conf : Text) → NoBegin (kept conf)
unfolding kept
kept-NoBegin conf =
    let outside = strip_blocks false (split_lines conf) in
    All-pop_blank (λ l. starts_with l begin_marker ≡ false) outside
      (strip_blocks-NoBegin false (split_lines conf))

kept-IsLine : (conf : Text) → All IsLine (kept conf)
unfolding kept
kept-IsLine conf =
    let outside = strip_blocks false (split_lines conf) in
    All-pop_blank IsLine outside
      (All-strip_blocks IsLine false (split_lines conf) (split_lines-All conf))

first_lines-NoBegin : (ks : List Text) → NoBegin ks → NoBegin (first_lines ks)
unfolding first_lines starts_with
first_lines-NoBegin [] h = (refl, tt)
first_lines-NoBegin (k ∷ ks) h = h

kept_lem : (conf : Text) → kept conf ≡ pop_blank (strip_blocks false (split_lines conf))
unfolding kept
kept_lem conf = refl

pop_blank-kept : (conf : Text) → pop_blank (kept conf) ≡ kept conf
unfolding kept
pop_blank-kept conf = pop_blank-pop_blank (strip_blocks false (split_lines conf))

split_lines-render_conf :
    (conf : Text) (ps : List DesiredPeer)
    → All IsRenderable ps
    → split_lines (render_conf conf ps) ≡ first_lines (kept conf) ++ peer_lines ps
unfolding render_conf
split_lines-render_conf conf ps h = split-parts (kept conf) ps (kept-IsLine conf) h

-- The lines outside the blocks are the same before and after.
kept-render_conf :
    (conf : Text) (ps : List DesiredPeer)
    → All IsRenderable ps
    → kept (render_conf conf ps) ≡ kept conf
kept-render_conf conf ps h =
    let ks = kept conf in
    let managed = strip_blocks false (peer_lines ps) in
    kept_lem (render_conf conf ps)
    ∙ (ap (λ (t : List Text). pop_blank (strip_blocks false t)) (split_lines-render_conf conf ps h)
        ∙ (ap pop_blank (
              strip_blocks-append (first_lines ks) (peer_lines ps)
                (first_lines-NoBegin ks (kept-NoBegin conf)))
            ∙ (pop_blank-append (first_lines ks) managed (strip_blocks-peer_lines ps h)
                ∙ (pop_blank-first_lines ks ∙ pop_blank-kept conf))))

render_conf_of_kept :
    (a b : Text) (ps : List DesiredPeer) → kept a ≡ kept b → render_conf a ps ≡ render_conf b ps
unfolding render_conf
render_conf_of_kept a b ps h =
    ap (λ (t : List Text). join_parts (join_lines t ∷ map render_peer_block ps) ++ newline ∷ []) h

-- A sync that follows another leaves no trace of the first: rendering `qs` into a conf into which
-- valid peers `ps` were rendered gives the text that rendering `qs` into the first conf gives.
pub render_conf-render_conf :
    (conf : Text) (ps qs : List DesiredPeer)
    → All IsRenderable ps
    → render_conf (render_conf conf ps) qs ≡ render_conf conf qs
render_conf-render_conf conf ps qs h =
    render_conf_of_kept (render_conf conf ps) conf qs (kept-render_conf conf ps h)

-- The lines `outside` are what stands around the blocks of `lines`, in order; a block runs from a line
-- with the begin marker to the next one with the end marker.
pub data IsOutside : (lines outside : List Text) → Type 0 where
  at_end : IsOutside [] []
  line :
      (l : Text) {lines outside : List Text}
      → starts_with l begin_marker ≡ false
      → IsOutside lines outside
      → IsOutside (l ∷ lines) (l ∷ outside)
  block :
      (b : Text) (body : List Text) (e : Text) {lines outside : List Text}
      → starts_with b begin_marker ≡ true
      → All (λ l. starts_with l end_marker ≡ false) body
      → starts_with e end_marker ≡ true
      → starts_with e begin_marker ≡ false
      → IsOutside lines outside
      → IsOutside (b ∷ (body ++ e ∷ lines)) outside
