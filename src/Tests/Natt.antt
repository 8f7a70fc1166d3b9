-- ===== src/Tests/Natt.antt =====
-- Tests of the probe, on sockets that add up the milliseconds waited.
use snx_rs.Prelude.{ℕ, ◌+◌, true, false, ◌≡◌, refl}
use snx_rs.Prelude.Result.{ok, err}
use snx_rs.Ipsec.Natt.{
  Sockets, probe, send_probe, wait_all, last_probe, send_nmap_knock, send_all, and_next,
}

abbrev silent : Sockets ℕ
silent = record {
  bind = λ ms. (ok tt, ms);
  send_receive = λ bytes timeout ms. (err "timeout", ms + timeout);
  connect_knock = λ ms. (ok tt, ms);
  send_knock = λ bytes ms. ms;
  sleep = λ wait ms. ms + wait;
}

abbrev echoing : Sockets ℕ
echoing = record silent { send_receive = λ bytes timeout ms. (ok bytes, ms + 1) }

-- Two probes of 1.7 seconds each.
silence : probe silent false 0 ≡ (err "error-probing-failed", 3400)
unfolding probe send_probe wait_all last_probe send_nmap_knock send_all and_next
silence = refl

-- With two knocks between them.
silence_with_knocks : probe silent true 0 ≡ (err "error-probing-failed", 3600)
unfolding probe send_probe wait_all last_probe send_nmap_knock send_all and_next
silence_with_knocks = refl

echo : probe echoing true 0 ≡ (ok tt, 1)
unfolding probe send_probe wait_all
echo = refl
