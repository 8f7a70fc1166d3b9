-- ===== src/Ipsec/Due.antt =====
-- When the session or its keys are renewed, and that the tunnel is told.
use mathlib.Core.Path.{subst}
use snx_rs.Prelude.{
  ℕ, ◌+◌, ◌-◌, ◌*◌, ◌≤◌, true, false, Option, none, some, ◌≡◌, ◌≢◌, refl, ap, sym, ◌∙◌, arith, leb,
  if◌then◌else◌,
}
use snx_rs.Prelude.Result.{Result, ok, err}
use snx_rs.Model.Params.{TunnelParams}
use snx_rs.Model.Session.{TunnelCommand}
use snx_rs.Ipsec.{Outside, IPsecTunnelConnector}
use snx_rs.Ipsec.Monad.{State, continue}
use snx_rs.Ipsec.Exchange.{do_session_exchange, do_esp_proposal}
use snx_rs.Ipsec.Rekey.{
  less_leeway, has_passed, address_lifetime_leeway, Renewal, session_renewal, keys_renewal,
  no_renewal, renewal, send_to, send_rekey, renew, rekey_tunnel,
}

continue_ok :
    {S A B : Type 0} (given : Result A × S) (f : A → S → Result B × S) (b : B) (s' : S)
    → continue given f ≡ (ok b, s')
    → (a : A) × (s : S) × (given ≡ (ok a, s)) × (f a s ≡ (ok b, s'))
continue_ok (ok a, s) f b s' h = (a, s, refl, h)
continue_ok (err e, s) f b s' h = cc h

module _ {Esp W : Type 0} (outside : Outside Esp W) where
  -- The tunnel of the connector has taken the session that the connector holds.
  unfoldable pub IsTold : State Esp W → Type 0
  IsTold s =
      (sender : ℕ) × (before : W) × (s.0.command_sender ≡ some sender)
      × (outside.send_command sender (TunnelCommand.rekey s.0.ipsec_session) before ≡ (ok tt, s.1))

  module _ (params : TunnelParams) where
    send_to-IsTold :
        (o : Option ℕ) (c : IPsecTunnelConnector Esp) (w : W) (s' : State Esp W)
        → c.command_sender ≡ o
        → send_to outside params o c.ipsec_session (c, w) ≡ (ok tt, s')
        → IsTold s'
    unfolding send_to IsTold
    send_to-IsTold none c w s' e h = cc h
    send_to-IsTold (some sender) c w s' e h =
        let same : c ≡ s'.0 = ap (λ t. t.1.0) h in
        (
          sender,
          w,
          sym (ap (λ x. x.command_sender) same) ∙ e,
          subst
              (λ x.
                outside.send_command sender (TunnelCommand.rekey x.ipsec_session) w ≡ (ok tt, s'.1))
              same (ap (λ t. (t.0, t.1.1)) h),
        )

    send_rekey-IsTold : (s s' : State Esp W) → send_rekey outside params s ≡ (ok tt, s') → IsTold s'
    unfolding send_rekey
    send_rekey-IsTold (c, w) s' h = send_to-IsTold c.command_sender c w s' refl h

    renew-IsTold :
        (r : Renewal) (s s' : State Esp W)
        → r ≢ no_renewal
        → renew outside params r s ≡ (ok tt, s')
        → IsTold s'
    unfolding renew
    renew-IsTold no_renewal s s' n h = absurd (n refl)
    renew-IsTold keys_renewal s s' n h =
        let (_, s1, done, sent) = continue_ok (do_esp_proposal outside params s) _ tt s' h in
        send_rekey-IsTold s1 s' sent
    renew-IsTold session_renewal (c, w) s' n h =
        let (_, s1, done, sent) =
          continue_ok (do_session_exchange outside params c.username (c, w)) _ tt s' h in
        send_rekey-IsTold s1 s' sent

    -- A rekey check that succeeds, with the network up and a renewal due, has told the tunnel of
    -- the session that the connector holds then: the last thing done outside is that this session
    -- is sent, and it succeeds.
    pub rekey_tunnel-IsTold :
        (c : IPsecTunnelConnector Esp) (w : W) (s' : State Esp W)
        → outside.is_online w ≡ true
        → renewal c (outside.now w) ≢ no_renewal
        → rekey_tunnel outside params (c, w) ≡ (ok tt, s')
        → IsTold s'
    unfolding rekey_tunnel
    rekey_tunnel-IsTold c w s' online due h =
        renew-IsTold (renewal c (outside.now w)) (c, w) s' due (rw (online, rekey_tunnel) at h)

-- With a clock that has not gone back, and before the address has to be renewed: the keys are
-- renewed from 60 seconds before the end of their lifetime on, and not earlier.
pub renewal_due :
    {Esp : Type 0} (c : IPsecTunnelConnector Esp) (last now : ℕ)
    → c.last_rekey ≡ some last
    → has_passed
        (less_leeway c.ipsec_session.address_lifetime address_lifetime_leeway)
        c.last_ip_lease
        now
      ≡ false
    → last ≤ now
    → 60 ≤ c.ipsec_session.lifetime
    → renewal c now ≡ (
        if leb (last + (c.ipsec_session.lifetime - 60) * 1_000_000_000) now
        then keys_renewal
        else no_renewal)
unfolding renewal less_leeway has_passed
renewal_due c last now rekeyed lease past long =
    rw (rekeyed, lease, renewal, has_passed) (ground arith)
