-- ===== src/Ipsec/Tunnel.antt =====
-- `create_tunnel`: `?` in an arm of the `match` ends the method with the error of the transport, and
-- the result of the `match` is looked at after it.
use snx_rs.Prelude.{ℕ, some, ◌≡◌, ◌≢◌, refl}
use snx_rs.Prelude.Result.{Result, ok, err}
use snx_rs.Model.Params.{TunnelParams}
use snx_rs.Model.Session.{TunnelSession}
use snx_rs.Model.TransportType.{TransportType, auto_detect, udp, tcpt, kernel}
use snx_rs.Ipsec.{Outside, IPsecTunnelConnector}
use snx_rs.Ipsec.Monad.{M, continue, ◌>>=◌, ◌>>◌, pure, fail, self, set, call, attempt, beside}
use snx_rs.Ipsec.Stored.{delete_session}

module _ {Esp W : Type 0} (outside : Outside Esp W) (params : TunnelParams) where
  -- The `match`: an arm awaits its transport's `create`, and wraps what it gives in `Ok`.
  unfoldable pub created : TransportType → TunnelSession Esp → M Esp W (Result (Unit {0}))
  created kernel session = do tunnel ← call (outside.create kernel session); pure (ok tunnel)
  created tcpt session = do tunnel ← call (outside.create tcpt session); pure (ok tunnel)
  created udp session = do tunnel ← call (outside.create udp session); pure (ok tunnel)
  created _ session = pure (err "error-invalid-transport-type")

  -- `if let Err(ref e) = result`, and the result.
  unfoldable pub finished : Result (Unit {0}) → M Esp W (Unit {0})
  unfolding delete_session
  finished (err e) = do deleted ← attempt (delete_session outside params); fail e
  finished (ok tunnel) = pure tunnel

  unfoldable pub create_tunnel : TunnelSession Esp → ℕ → M Esp W (Unit {0})
  unfolding created finished
  create_tunnel session sender = do
    set λ c. record c { command_sender = some sender }
    c ← self
    result ← created c.esp_transport session
    finished result

  then_finished :
      (c : IPsecTunnelConnector Esp) (r : Result (Unit {0}) × W)
      → continue (continue (beside c r) λ tunnel. pure (ok tunnel)) finished ≡ beside c r
  unfolding finished
  then_finished c (ok tunnel, after) = refl
  then_finished c (err e, after) = refl

  created-finished :
      (t : TransportType) (session : TunnelSession Esp) (c : IPsecTunnelConnector Esp) (w : W)
      → t ≢ auto_detect
      → continue (created t session (c, w)) finished ≡ beside c (outside.create t session w)
  unfolding created
  created-finished auto_detect session c w h = absurd (h refl)
  created-finished kernel session c w h = then_finished c (outside.create kernel session w)
  created-finished tcpt session c w h = then_finished c (outside.create tcpt session w)
  created-finished udp session c w h = then_finished c (outside.create udp session w)

  -- With a transport set, all that is done outside is that the transport makes its tunnel. If it
  -- fails, its error is given, and the stored session is not deleted.
  pub create_tunnel_fails :
      (session : TunnelSession Esp) (sender : ℕ) (c : IPsecTunnelConnector Esp) (w : W)
      → c.esp_transport ≢ auto_detect
      → create_tunnel session sender (c, w)
        ≡ beside
            (record c { command_sender = some sender })
            (outside.create c.esp_transport session w)
  unfolding create_tunnel
  create_tunnel_fails session sender c w =
      created-finished c.esp_transport session (record c { command_sender = some sender }) w
