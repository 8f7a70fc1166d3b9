-- ===== src/Tests/Keepalive.antt =====
-- Tests of the keepalive loops.
use snx_rs.Prelude.{true, none, List, [], ◌∷◌, ◌≡◌, refl, ◌↔◌}
use snx_rs.Prelude.Result.{ok}
use snx_rs.Slim.{payload, to_be_bytes}
use snx_rs.Keepalive.Ipsec.{Round, answered, unanswered, make_keepalive_packet, run}
use snx_rs.Keepalive.Exhaustion.{HasSilence, run-HasSilence}
use snx_rs.Keepalive.Ssl.{Happening, round, packet}

first_packet : make_keepalive_packet 1 ≡ (0 ∷ 0 ∷ 0 ∷ 1 ∷ 0 ∷ 3 ∷ 0 ∷ 2 ∷ 0 ∷ 12 ∷ 0 ∷ 0 ∷ [], 2)
unfolding make_keepalive_packet to_be_bytes
first_packet = refl

abbrev rounds : List Round
rounds =
    unanswered ∷ answered 20 ∷ unanswered ∷ unanswered ∷ unanswered ∷ unanswered ∷ unanswered ∷ []

run-HasSilence_example : (run rounds 0 ≡ none) ↔ HasSilence rounds
run-HasSilence_example = run-HasSilence rounds

abbrev happenings : List Happening
happenings = round true true ∷ round true true ∷ packet (payload []) (ok tt) ∷ round true true ∷ []
