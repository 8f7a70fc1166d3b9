-- ===== src/Keepalive/Ssl.antt =====
-- `KeepaliveRunner::run` of crates/snxcore/src/tunnel/ssl/keepalive.rs, and what the receiver of
-- tunnel/ssl.rs does with a packet. They share the counter of the requests without an answer. Between
-- reading the counter and adding to it the runner does not wait, so a round is taken as one step.
use snx_rs.Prelude.{
  ℕ, ◌+◌, Bool, true, false, Option, none, some, List, [], ◌∷◌, leb, if◌then◌else◌,
}
use snx_rs.Prelude.Result.{Result, ok, err}
use snx_rs.Prelude.Text.{text_eq, codes}
use snx_rs.Sexpr.{object}
use snx_rs.Slim.{SlimPacketType, control, payload}

abbrev pub keepalive_max_retries : ℕ
keepalive_max_retries = 3

-- The loop goes on with the counter, or it is over: the tunnel appears stuck, or a request could
-- not be sent in time.
pub data Step : Type 0 where
  next : ℕ → Step
  stuck : Step
  unsent : ℕ → Step

unfoldable pub run_step : Bool → Bool → ℕ → Step
run_step false sent counter = next counter
run_step true sent counter =
    if leb keepalive_max_retries counter
    then stuck
    else if sent
    then next (counter + 1)
    else unsent (counter + 1)

-- The receiver: a keepalive packet, or a packet that the device takes, sets the counter to 0; a
-- packet that the device does not take ends the receiver.
unfoldable pub receive_step : SlimPacketType → Result (Unit {0}) → ℕ → Result ℕ
receive_step (control (object (some name) members)) device counter =
    if text_eq name (codes "keepalive") then ok 0 else ok counter
receive_step (control expr) device counter = ok counter
receive_step (payload bytes) (ok _) counter = ok 0
receive_step (payload bytes) (err e) counter = err e

-- What changes the counter: a round of the runner (the network is up, the request was sent), and
-- a packet for the receiver, with the answer of the device.
pub data Happening : Type 0 where
  round : Bool → Bool → Happening
  packet : SlimPacketType → Result (Unit {0}) → Happening

unfoldable pub after_round : Step → Option ℕ
after_round (next n) = some n
after_round stuck = none
after_round (unsent n) = none

unfoldable pub after_packet : Result ℕ → Option ℕ
after_packet (ok n) = some n
after_packet (err e) = none

unfoldable pub happen : Happening → ℕ → Option ℕ
unfolding run_step receive_step after_round after_packet
happen (round online sent) n = after_round (run_step online sent n)
happen (packet p device) n = after_packet (receive_step p device n)

-- The counter after some happenings, or none once the runner or the receiver has ended.
unfoldable pub counter_after : List Happening → ℕ → Option ℕ
unfolding happen
counter_after [] n = some n
counter_after (h ∷ hs) n = elim (happen h n) [ none ↦ none | some m ↦ counter_after hs m ]
