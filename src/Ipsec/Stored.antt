-- ===== src/Ipsec/Stored.antt =====
-- The session that is kept in the database: `load_ike_session`, `do_restore_session`,
-- `restore_session` and `delete_session`.
use snx_rs.Prelude.{if◌then◌else◌}
use snx_rs.Prelude.Result.{Result, ok, err}
use snx_rs.Prelude.Text.{is_empty}
use snx_rs.Model.Params.{TunnelParams}
use snx_rs.Model.Session.{TunnelSession}
use snx_rs.Ipsec.{Outside, OfficeMode, IPsecTunnelConnector}
use snx_rs.Ipsec.Monad.{M, ◌>>=◌, ◌>>◌, pure, fail, self, set, call, attempt}
use snx_rs.Ipsec.Exchange.{do_session_exchange, do_esp_proposal, new_session}

-- The settings of an earlier session.
unfoldable pub with_office_mode :
    {Esp : Type 0} → OfficeMode → IPsecTunnelConnector Esp → IPsecTunnelConnector Esp
with_office_mode mode c = record c {
  ccc_session = mode.ccc_session;
  username = mode.username;
  ipsec_session = record c.ipsec_session {
    address = mode.ip_address;
    netmask = mode.netmask;
    dns = mode.dns;
    domains = mode.domains;
  };
}

module _ {Esp W : Type 0} (outside : Outside Esp W) (params : TunnelParams) where
  unfoldable pub load_ike_session : M Esp W OfficeMode
  load_ike_session = do
    call outside.open_database
    blob ← call (outside.query_row params.profile_id params.server_name)
    mode ← call (outside.load_session blob)
    if is_empty mode.ccc_session then fail "Empty CCC session!" else pure mode

  unfoldable pub delete_session : M Esp W (Unit {0})
  delete_session = do
    call outside.open_database
    call (outside.delete_rows params.profile_id params.server_name)

  -- What follows the exchange: where it failed, the settings of the earlier session are used.
  unfoldable pub restored : OfficeMode → Result (TunnelSession Esp) → M Esp W (TunnelSession Esp)
  unfolding with_office_mode do_esp_proposal new_session
  restored mode (ok session) = pure session
  restored mode (err e) = do
    set (with_office_mode mode)
    do_esp_proposal outside params
    c ← self
    pure (new_session c)

  unfoldable pub do_restore_session : M Esp W (TunnelSession Esp)
  unfolding load_ike_session do_session_exchange restored
  do_restore_session = do
    mode ← load_ike_session
    exchanged ← attempt (do_session_exchange outside params mode.username)
    restored mode exchanged

  -- Where nothing was restored, the row is deleted and the service is made anew.
  unfoldable pub after_restore : Result (TunnelSession Esp) → M Esp W (TunnelSession Esp)
  unfolding delete_session
  after_restore (ok session) = pure session
  after_restore (err e) = do
    deleted ← attempt delete_session
    info ← call outside.get_gateway_information
    call (outside.new_service info)
    fail e

  unfoldable pub restore_session : M Esp W (TunnelSession Esp)
  unfolding do_restore_session after_restore
  restore_session = do result ← attempt do_restore_session; after_restore result
