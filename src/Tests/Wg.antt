-- ===== src/Tests/Wg.antt =====
-- A conf with a hand-written part, one client that leaves and one that comes.
use vpn_relay.Prelude.{Text, text, ◌≡◌, refl, true, false, Option, none, some, [], ◌∷◌, ◌≤◌, ℕ}
use vpn_relay.Wg.Conf.{
  DesiredPeer, render_conf, is_valid_name, is_valid_pubkey, is_valid_wg_ip, wg_ip_start, wg_ip_end,
}
use vpn_relay.Wg.Conf.Render.{render_conf-render_conf}
use vpn_relay.Wg.Conf.Render.Blocks.{IsRenderable}
use vpn_relay.Wg.Alloc.{
  Reserved, find_free_ip, sweep, octets, table_octets, conf_octets, is_used, reserve,
}
use vpn_relay.Wg.Alloc.Fresh.{find_free_ip-fresh}
use vpn_relay.Prelude.{List}
use vpn_relay.Client.Table.{Client}
use vpn_relay.Client.Overlap.{
  Creates, Overlap, at_once, after, begins, ends, stores, begin_search, end_search, held,
}
use vpn_relay.Client.Overlap.Octets.{IsDistinct}
use vpn_relay.Client.Overlap.Distinct.{Overlap-IsDistinct}
use vpn_relay.Prelude.{decimal}
use vpn_relay.Tests.Clients

abbrev conf : Text
conf = text "[Interface]\nListenPort = 51820\n\n# BEGIN CLIENT gone\n[Peer]\n# END CLIENT gone\n"

abbrev key : Text
key = text "AAAAAAAAAAAAAAAAAAAAAAAAAAAAAAAAAAAAAAAAAAA="

abbrev alice : DesiredPeer
alice = record { name = text "alice"; pubkey = key; ip = text "10.66.0.7"; active = true }

alice-IsRenderable : IsRenderable alice
unfolding is_valid_name is_valid_pubkey is_valid_wg_ip
alice-IsRenderable = record { name = refl; pubkey = refl; ip = refl }

render_conf-render_conf_example :
    render_conf (render_conf conf (alice ∷ [])) [] ≡ render_conf conf []
render_conf-render_conf_example =
    render_conf-render_conf conf (alice ∷ []) [] (alice-IsRenderable, tt)

hand_written : List Text
hand_written = text "[Interface]" ∷ text "ListenPort = 51820" ∷ [] ∷ [] ∷ []

-- Octet 2 is reserved and 3 stands in the conf.
abbrev in_flight : Reserved
in_flight = (2, 1000) ∷ []

abbrev by_hand : Option Text
by_hand = some (text "AllowedIPs = 10.66.0.3/32")

first_answer : find_free_ip [] in_flight by_hand 5000 6000 ≡ (some 4, (2, 1000) ∷ (4, 6000) ∷ [])
unfolding find_free_ip
first_answer = refl

second_answer :
    find_free_ip [] ((2, 1000) ∷ (4, 6000) ∷ []) none 66000 67000
    ≡ (some 2, (4, 6000) ∷ (2, 67000) ∷ [])
unfolding find_free_ip
second_answer = refl

find_free_ip-fresh_example :
    ((wg_ip_start ≤ 4) × (4 ≤ wg_ip_end))
    × ((is_used 4 (table_octets []) ≡ false)
        × ((is_used 4 (octets (sweep 5000 in_flight)) ≡ false)
            × ((is_used 4 (conf_octets by_hand) ≡ false)
                × ((2, 1000) ∷ (4, 6000) ∷ [] ≡ reserve 4 6000 (sweep 5000 in_flight)))))
find_free_ip-fresh_example =
    find_free_ip-fresh [] in_flight ((2, 1000) ∷ (4, 6000) ∷ []) by_hand 5000 6000 4 first_answer

-- A create that stores its row after a second one has its address.
abbrev at_rest : Creates
at_rest = record { clients = []; reserved = []; search = none; pending = []; now = 5000 }

abbrev first_peer : Client
first_peer = record Clients.alice { wg_ip = some (text "10.66.0.2") }

abbrev one_stored : Creates
one_stored = record {
  clients = first_peer ∷ [];
  reserved = (2, 5000) ∷ (3, 5000) ∷ [];
  search = none;
  pending = (3, 5000) ∷ [];
  now = 5000;
}

two_creates : Overlap at_rest one_stored
unfolding begin_search end_search decimal
two_creates =
    after
      (after (after (after (after at_once (begins refl)) (ends [] none refl)) (begins refl))
        (ends (2 ∷ []) none refl))
      (stores first_peer 2 5000 refl refl)

Overlap-IsDistinct_example :
    IsDistinct (table_octets (first_peer ∷ []))
    × IsDistinct (octets ((3, 5000) ∷ []))
    × ((octet at : ℕ)
        → held octet at ((3, 5000) ∷ []) ≡ true
        → is_used octet (table_octets (first_peer ∷ [])) ≡ false)
unfolding table_octets
Overlap-IsDistinct_example = Overlap-IsDistinct refl refl tt two_creates
