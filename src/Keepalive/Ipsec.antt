-- ===== src/Keepalive/Ipsec.antt =====
-- `KeepaliveRunner::run` and `make_keepalive_packet` of crates/snxcore/src/tunnel/ipsec/keepalive.rs.
use snx_rs.Prelude.{
  ℕ, ◌+◌, ◌%◌, ◌^◌, Bool, true, Option, none, some, List, [], ◌∷◌, ◌++◌, leb, ◌==◌, if◌then◌else◌,
}
use snx_rs.Slim.{Bytes, to_be_bytes}

abbrev pub keepalive_interval : ℕ
keepalive_interval = 20

abbrev pub keepalive_retry_interval : ℕ
keepalive_retry_interval = 2

abbrev pub loop_interval : ℕ
loop_interval = 1

abbrev pub keepalive_max_retries : ℕ
keepalive_max_retries = 5

-- The packet, and the counter after it: a `usize` of 64 bits, of which the low 32 go into the packet.
unfoldable pub make_keepalive_packet : ℕ → Bytes × ℕ
unfolding to_be_bytes
make_keepalive_packet counter =
    (to_be_bytes (counter % 2 ^ 32) ++ 0 ∷ 3 ∷ 0 ∷ 2 ∷ 0 ∷ 12 ∷ 0 ∷ 0 ∷ [], (counter + 1) % 2 ^ 64)

-- What a round meets: the network is down or the tunnel not ready, an answer after so many
-- milliseconds, or none in time.
pub data Round : Type 0 where
  not_ready : Round
  answered : ℕ → Round
  unanswered : Round

-- The loop pauses and goes on with its number of failures, or it is over.
pub data Step : Type 0 where
  pause : ℕ → ℕ → Step
  exhausted : Step

unfoldable pub run_step : Round → ℕ → Step
run_step not_ready num_failures = pause loop_interval 0
run_step (answered rtt) num_failures = pause keepalive_interval 0
run_step unanswered num_failures =
    let failures = num_failures + 1 in
    if leb keepalive_max_retries failures
    then exhausted
    else pause (if failures == 0 then keepalive_interval else keepalive_retry_interval) failures

-- The event that a round sends, if the sender of the events is set.
unfoldable pub round_event : Round → Bool → Option ℕ
round_event (answered rtt) true = some rtt
round_event _ _ = none

-- The rounds of a run: the failures after them, or none if the loop is over by then.
unfoldable pub run : List Round → ℕ → Option ℕ
unfolding run_step
run [] num_failures = some num_failures
run (r ∷ rs) num_failures = elim (run_step r num_failures) [
  | exhausted ↦ none
  | pause seconds failures ↦ run rs failures
]
