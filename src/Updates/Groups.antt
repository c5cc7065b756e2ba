-- ===== src/Updates/Groups.antt =====
-- `groupByCves` of workers/updates.worker.ts shows each package once.
use mathlib.Core.List.{Perm, perm_middle}
use mathlib.Core.List.Perm
use vpn_relay.Prelude.{
  ℕ, zero, suc, ◌+◌, ◌<◌, Text, text_eq, if◌then◌else◌, Bool, true, false, Option, none, some, List,
  [], ◌∷◌, ◌++◌, append-nil, append_assoc, length, length-append, ◌≡◌, refl, sym, ap, subst, ◌∙◌,
  arith,
}
use vpn_relay.Prelude.Dict.{Dict, get, get-put}
use vpn_relay.Updates.{
  PackageInfo, Summary, SecurityGroup, Grouping, place, place_merged, update_at, merge_summary,
  group_key, group_from, group_by_cves, join_group,
}

-- The packages of the groups, group by group.
abbrev pub members : List SecurityGroup → List PackageInfo
members [] = []
members (g ∷ gs) = g.packages ++ members gs

members-append : (gs hs : List SecurityGroup) → members (gs ++ hs) ≡ members gs ++ members hs
members-append [] hs = refl
members-append (g ∷ gs) hs =
    ap (λ ps. g.packages ++ ps) (members-append gs hs)
    ∙ sym (append_assoc g.packages (members gs) (members hs))

-- A group with one more package.
abbrev Adds : PackageInfo → (SecurityGroup → SecurityGroup) → Type 0
Adds p f = (g : SecurityGroup) → (f g).packages ≡ g.packages ++ p ∷ []

append_left :
    (ps : List PackageInfo) {qs rs : List PackageInfo} → Perm qs rs → Perm (ps ++ qs) (ps ++ rs)
append_left [] e = e
append_left (q ∷ ps) e = Perm.cons q (append_left ps e)

update_at-perm :
    (p : PackageInfo) (f : SecurityGroup → SecurityGroup)
    → Adds p f
    → (i : ℕ) (gs : List SecurityGroup) → i < length gs
    → Perm (members (update_at i f gs)) (p ∷ members gs)
update_at-perm p f adds i [] h = absurd (omega arith)
update_at-perm p f adds zero (g ∷ gs) h =
    subst (λ ps. Perm (ps ++ members gs) (p ∷ (g.packages ++ members gs))) (sym (adds g))
      (subst (λ ps. Perm ps (p ∷ (g.packages ++ members gs)))
        (sym (append_assoc g.packages (p ∷ []) (members gs))) (perm_middle g.packages (members gs)))
update_at-perm p f adds (suc i) (g ∷ gs) h =
    Perm.trans (append_left g.packages (update_at-perm p f adds i gs (omega arith)))
      (perm_middle g.packages (members gs))

length-update_at :
    (i : ℕ) (f : SecurityGroup → SecurityGroup) (gs : List SecurityGroup)
    → length (update_at i f gs) ≡ length gs
length-update_at i f [] = refl
length-update_at zero f (g ∷ gs) = refl
length-update_at (suc i) f (g ∷ gs) = omega (arith, length-update_at i f gs)

-- The map from fingerprints points at groups that are there.
abbrev IsIndexed : Grouping → Type 0
IsIndexed g = (key : Text) (i : ℕ) → get g.key_to_idx key ≡ some i → i < length g.groups

put-index :
    (same : Bool) (n i : ℕ) (o : Option ℕ)
    → ((j : ℕ) → o ≡ some j → j < n)
    → (if same then some n else o) ≡ some i
    → i < n + 1
put-index true n i o old h = ground arith
put-index false n i o old h = let below = old i h in omega arith

record Placed (p : PackageInfo) (g h : Grouping) : Type 0 where
  parts : Perm (members h.groups) (p ∷ members g.groups)
  indexed : IsIndexed h

place-Placed :
    (p : PackageInfo) (merged : Summary) (key : Text) (o : Option ℕ) (g : Grouping)
    → IsIndexed g
    → ((i : ℕ) → o ≡ some i → i < length g.groups)
    → Placed p g (place p merged key o g)
place-Placed p merged key none g ix h = record {
  parts =
      subst (λ ps. Perm ps (p ∷ members g.groups)) (sym (members-append g.groups _))
        (subst (λ ps. Perm (members g.groups ++ p ∷ []) (p ∷ ps)) (append-nil (members g.groups))
          (perm_middle (members g.groups) []));
  indexed = λ k i e.
      let below =
        put-index (text_eq key k) (length g.groups) i (get g.key_to_idx k) (ix k)
          (sym (get-put g.key_to_idx key k (length g.groups)) ∙ e) in
      omega (
        arith,
        length-append g.groups
            (record { packages = p ∷ []; cves = merged.cves; summary = merged.summary } ∷ []),
      );
}
place-Placed p merged key (some idx) g ix h = record {
  parts = update_at-perm p (join_group p merged.summary) (λ q. refl) idx g.groups (h idx refl);
  indexed = λ k i e.
      let below = ix k i e in
      omega (arith, length-update_at idx (join_group p merged.summary) g.groups);
}

group_from-perm :
    (rx : Dict Summary) (ai : Option (Dict Summary)) (ps : List PackageInfo) (g : Grouping)
    → IsIndexed g
    → Perm (members (group_from rx ai ps g).groups) (ps ++ members g.groups)
unfolding group_from
group_from-perm rx ai [] g ix = Perm.refl (members g.groups)
group_from-perm rx ai (p ∷ ps) g ix =
    let merged = merge_summary p.name rx ai in
    let placed = place-Placed p merged (group_key p merged.cves) _ g ix (ix _) in
    Perm.trans (group_from-perm rx ai ps (place_merged p merged g) placed.indexed)
      (Perm.trans (append_left ps placed.parts) (perm_middle ps (members g.groups)))

-- Grouping by CVEs shows each security package exactly once: the packages of the groups are, up to
-- their order, those that went in, whatever the summaries say.
pub group_by_cves-perm :
    (security : List PackageInfo) (rx : Dict Summary) (ai : Option (Dict Summary))
    → Perm (members (group_by_cves security rx ai)) security
unfolding group_by_cves get
group_by_cves-perm security rx ai =
    subst (Perm (members (group_by_cves security rx ai))) (append-nil security)
      (group_from-perm rx ai security (record { groups = []; key_to_idx = [] }) (λ k i e. cc))
