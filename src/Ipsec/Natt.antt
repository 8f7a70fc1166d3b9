-- ===== src/Ipsec/Natt.antt =====
-- The probe of the NAT traversal port, crates/snxcore/src/tunnel/ipsec/natt.rs. Sockets are operations on a
-- state of their own; what is logged is left out.
use snx_rs.Prelude.{ℕ, Bool, ◌==◌, List, [], ◌∷◌, length, if◌then◌else◌}
use snx_rs.Prelude.Result.{Result, ok, err}

abbrev pub Bytes : Type 0
Bytes = List ℕ

-- IKE proposals that unblock the port.
abbrev pub nmap_knock : List Bytes
nmap_knock =
    (0 ∷ 0x11 ∷ 0x22 ∷ 0x33 ∷ 0x44 ∷ 0x55 ∷ 0x66 ∷ 0x77 ∷ 0 ∷ 0 ∷ 0 ∷ 0 ∷ 0 ∷ 0 ∷ 0 ∷ 0 ∷ 1 ∷ 0x10
      ∷ 2 ∷ 0 ∷ 0 ∷ 0 ∷ 0 ∷ 0 ∷ 0 ∷ 0 ∷ 0 ∷ 0xc0 ∷ 0 ∷ 0 ∷ 0 ∷ 0xa4 ∷ 0 ∷ 0 ∷ 0 ∷ 1 ∷ 0 ∷ 0 ∷ 0 ∷ 1
      ∷ 0 ∷ 0 ∷ 0 ∷ 0x98 ∷ 1 ∷ 1 ∷ 0 ∷ 4 ∷ 3 ∷ 0 ∷ 0 ∷ 0x24 ∷ 1 ∷ 1 ∷ 0 ∷ 0 ∷ 0x80 ∷ 1 ∷ 0 ∷ 5
      ∷ 0x80 ∷ 2 ∷ 0 ∷ 2 ∷ 0x80 ∷ 3 ∷ 0 ∷ 1 ∷ 0x80 ∷ 4 ∷ 0 ∷ 2 ∷ 0x80 ∷ 0xb ∷ 0 ∷ 1 ∷ 0 ∷ 0xc ∷ 0
      ∷ 4 ∷ 0 ∷ 0 ∷ 0 ∷ 1 ∷ 3 ∷ 0 ∷ 0 ∷ 0x24 ∷ 2 ∷ 1 ∷ 0 ∷ 0 ∷ 0x80 ∷ 1 ∷ 0 ∷ 5 ∷ 0x80 ∷ 2 ∷ 0 ∷ 1
      ∷ 0x80 ∷ 3 ∷ 0 ∷ 1 ∷ 0x80 ∷ 4 ∷ 0 ∷ 2 ∷ 0x80 ∷ 0xb ∷ 0 ∷ 1 ∷ 0 ∷ 0xc ∷ 0 ∷ 4 ∷ 0 ∷ 0 ∷ 0 ∷ 1
      ∷ 3 ∷ 0 ∷ 0 ∷ 0x24 ∷ 3 ∷ 1 ∷ 0 ∷ 0 ∷ 0x80 ∷ 1 ∷ 0 ∷ 1 ∷ 0x80 ∷ 2 ∷ 0 ∷ 2 ∷ 0x80 ∷ 3 ∷ 0 ∷ 1
      ∷ 0x80 ∷ 4 ∷ 0 ∷ 2 ∷ 0x80 ∷ 0xb ∷ 0 ∷ 1 ∷ 0 ∷ 0xc ∷ 0 ∷ 4 ∷ 0 ∷ 0 ∷ 0 ∷ 1 ∷ 0 ∷ 0 ∷ 0 ∷ 0x24
      ∷ 4 ∷ 1 ∷ 0 ∷ 0 ∷ 0x80 ∷ 1 ∷ 0 ∷ 1 ∷ 0x80 ∷ 2 ∷ 0 ∷ 1 ∷ 0x80 ∷ 3 ∷ 0 ∷ 1 ∷ 0x80 ∷ 4 ∷ 0 ∷ 2
      ∷ 0x80 ∷ 0xb ∷ 0 ∷ 1 ∷ 0 ∷ 0xc ∷ 0 ∷ 4 ∷ 0 ∷ 0 ∷ 0 ∷ 1 ∷ [])
    ∷ (0x31 ∷ 0x27 ∷ 0xfc ∷ 0xb0 ∷ 0x38 ∷ 0x10 ∷ 0x9e ∷ 0x89 ∷ 0 ∷ 0 ∷ 0 ∷ 0 ∷ 0 ∷ 0 ∷ 0 ∷ 0 ∷ 1
        ∷ 0x10 ∷ 2 ∷ 0 ∷ 0 ∷ 0 ∷ 0 ∷ 0 ∷ 0 ∷ 0 ∷ 0 ∷ 0xcc ∷ 0xd ∷ 0 ∷ 0 ∷ 0x5c ∷ 0 ∷ 0 ∷ 0 ∷ 1 ∷ 0
        ∷ 0 ∷ 0 ∷ 1 ∷ 0 ∷ 0 ∷ 0 ∷ 0x50 ∷ 1 ∷ 1 ∷ 0 ∷ 2 ∷ 3 ∷ 0 ∷ 0 ∷ 0x24 ∷ 1 ∷ 1 ∷ 0 ∷ 0 ∷ 0x80 ∷ 1
        ∷ 0 ∷ 5 ∷ 0x80 ∷ 2 ∷ 0 ∷ 2 ∷ 0x80 ∷ 4 ∷ 0 ∷ 2 ∷ 0x80 ∷ 3 ∷ 0 ∷ 3 ∷ 0x80 ∷ 0xb ∷ 0 ∷ 1 ∷ 0
        ∷ 0xc ∷ 0 ∷ 4 ∷ 0 ∷ 0 ∷ 0xe ∷ 0x10 ∷ 0 ∷ 0 ∷ 0 ∷ 0x24 ∷ 2 ∷ 1 ∷ 0 ∷ 0 ∷ 0x80 ∷ 1 ∷ 0 ∷ 5
        ∷ 0x80 ∷ 2 ∷ 0 ∷ 1 ∷ 0x80 ∷ 4 ∷ 0 ∷ 2 ∷ 0x80 ∷ 3 ∷ 0 ∷ 3 ∷ 0x80 ∷ 0xb ∷ 0 ∷ 1 ∷ 0 ∷ 0xc ∷ 0
        ∷ 4 ∷ 0 ∷ 0 ∷ 0xe ∷ 0x10 ∷ 0xd ∷ 0 ∷ 0 ∷ 0x18 ∷ 0x1e ∷ 0x2b ∷ 0x51 ∷ 0x69 ∷ 5 ∷ 0x99 ∷ 0x1c
        ∷ 0x7d ∷ 0x7c ∷ 0x96 ∷ 0xfc ∷ 0xbf ∷ 0xb5 ∷ 0x87 ∷ 0xe4 ∷ 0x61 ∷ 0 ∷ 0 ∷ 0 ∷ 4 ∷ 0xd ∷ 0 ∷ 0
        ∷ 0x14 ∷ 0x40 ∷ 0x48 ∷ 0xb7 ∷ 0xd5 ∷ 0x6e ∷ 0xbc ∷ 0xe8 ∷ 0x85 ∷ 0x25 ∷ 0xe7 ∷ 0xde ∷ 0x7f
        ∷ 0 ∷ 0xd6 ∷ 0xc2 ∷ 0xd3 ∷ 0xd ∷ 0 ∷ 0 ∷ 0x14 ∷ 0x90 ∷ 0xcb ∷ 0x80 ∷ 0x91 ∷ 0x3e ∷ 0xbb
        ∷ 0x69 ∷ 0x6e ∷ 8 ∷ 0x63 ∷ 0x81 ∷ 0xb5 ∷ 0xec ∷ 0x42 ∷ 0x7b ∷ 0x1f ∷ 0 ∷ 0 ∷ 0 ∷ 0x14 ∷ 0x26
        ∷ 0x24 ∷ 0x4d ∷ 0x38 ∷ 0xed ∷ 0xdb ∷ 0x61 ∷ 0xb3 ∷ 0x17 ∷ 0x2a ∷ 0x36 ∷ 0xe3 ∷ 0xd0 ∷ 0xcf
        ∷ 0xb8 ∷ 0x19 ∷ [])
    ∷ []

-- The waits for a reply, in milliseconds.
abbrev pub timeouts : List ℕ
timeouts = 200 ∷ 500 ∷ 1000 ∷ []

abbrev pub probe_bytes : Bytes
probe_bytes =
    0 ∷ 0 ∷ 0 ∷ 0 ∷ 0 ∷ 0 ∷ 0 ∷ 0 ∷ 0 ∷ 0 ∷ 0 ∷ 0 ∷ 0 ∷ 0 ∷ 0 ∷ 0 ∷ 0 ∷ 0 ∷ 0 ∷ 0 ∷ 0 ∷ 0 ∷ 0 ∷ 0
    ∷ 0 ∷ 0 ∷ 0 ∷ 0 ∷ 0 ∷ 0 ∷ 0 ∷ 0 ∷ []

pub record Sockets (W : Type 0) : Type 0 where
  pub bind : W → Result (Unit {0}) × W
  pub send_receive : Bytes → ℕ → W → Result Bytes × W
  pub connect_knock : W → Result (Unit {0}) × W
  pub send_knock : Bytes → W → W
  pub sleep : ℕ → W → W

module _ {W : Type 0} (sockets : Sockets W) where
  -- A reply of 32 bytes counts; after any other the next wait is tried.
  unfoldable pub wait_all : List ℕ → W → Result (Unit {0}) × W
  wait_all [] w = (err "error-no-natt-reply", w)
  wait_all (timeout ∷ more) w =
      let (reply, after) = sockets.send_receive probe_bytes timeout w in
      let further = wait_all more after in
      elim reply [
        | err e ↦ further
        | ok bytes ↦ if length bytes == 32 then (ok tt, after) else further
      ]

  unfoldable pub send_probe : W → Result (Unit {0}) × W
  unfolding wait_all
  send_probe w =
      let (bound, after) = sockets.bind w in
      elim bound [ err e ↦ (err e, after) | ok u ↦ wait_all timeouts after ]

  unfoldable pub send_all : List Bytes → W → W
  send_all [] w = w
  send_all (probe ∷ probes) w = send_all probes (sockets.send_knock probe w)

  unfoldable pub send_nmap_knock : W → Result (Unit {0}) × W
  unfolding send_all
  send_nmap_knock w =
      let (bound, after) = sockets.bind w in
      elim bound [
        | err e ↦ (err e, after)
        | ok u ↦
            let (connected, later) = sockets.connect_knock after in
            elim connected [
              | err e ↦ (err e, later)
              | ok u ↦ (ok tt, sockets.sleep 100 (send_all nmap_knock later))
            ]
      ]

  -- The last probe, whose error is named.
  unfoldable pub last_probe : W → Result (Unit {0}) × W
  unfolding send_probe
  last_probe w =
      let (probed, after) = send_probe w in
      elim probed [ ok u ↦ (ok tt, after) | err e ↦ (err "error-probing-failed", after) ]

  unfoldable pub and_next :
      Result (Unit {0}) × W → (W → Result (Unit {0}) × W) → Result (Unit {0}) × W
  and_next (ok u, w) next = next w
  and_next (err e, w) next = (err e, w)

  unfoldable pub probe : Bool → W → Result (Unit {0}) × W
  unfolding send_probe send_nmap_knock last_probe and_next
  probe port_knock w =
      let (probed, after) = send_probe w in
      let knocked =
        and_next (send_nmap_knock after) λ between. and_next (send_nmap_knock between) last_probe in
      elim probed [
        | ok u ↦ (ok tt, after)
        | err e ↦ if port_knock then knocked else last_probe after
      ]
