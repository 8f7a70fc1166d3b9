-- ===== src/Tunnels/Routing.antt =====
-- The routes of a tunnel, which both kinds make alike, and `ranges_to_subnets` of
-- crates/snxcore/src/util.rs.
use snx_rs.Prelude.{Bool, not, ◌&&◌, List, [], ◌∷◌, ◌++◌, any, retain, ltb, ◌==◌, if◌then◌else◌}
use snx_rs.Prelude.Result.{Result, ok, err}
use snx_rs.Prelude.Text.{Text}
use snx_rs.Model.Params.{TunnelParams}
use snx_rs.Resolver.{ResolverConfig}
use snx_rs.Tunnels.{Net, NetworkRange, Platform}

unfoldable pub net_eq : Net → Net → Bool
net_eq (a, l) (b, m) = a == b && l == m

abbrev pub has : Net → List Net → Bool
has net nets = any (λ r. net_eq r net) nets

-- `configure`, `configurator.configure(..).await?` and the like: the rest is done if it succeeds.
abbrev pub and_then : {A B W : Type 0} → Result A × W → (A → W → Result B × W) → Result B × W
and_then (ok a, w) f = f a w
and_then (err e, w) f = (err e, w)

module _ {W : Type 0} (platform : Platform W) where
  -- The range from 0.0.0.1 stands for the default route and is left out.
  unfoldable pub ranges_to_subnets : List NetworkRange → List Net
  ranges_to_subnets [] = []
  ranges_to_subnets (r ∷ ranges) =
      let rest = ranges_to_subnets ranges in
      if r.from == 1 then rest else platform.subnets r.from r.to ++ rest

  -- The routes added and those of the gateway, less those ignored, and the tunnel's own network.
  unfoldable pub routes : TunnelParams → List Net → Net → List Net
  unfolding net_eq
  routes params subnets (address, prefix_len) =
      retain (λ r. not (has r params.ignore_routes)) (params.add_routes ++ subnets)
      ++ (if ltb prefix_len 32 then platform.trunc (address, prefix_len) ∷ [] else [])

  unfoldable pub setup_dns : ResolverConfig → Text → Bool → W → Result (Unit {0}) × W
  setup_dns config dev_name cleanup w =
      and_then (platform.new_resolver_configurator dev_name w) λ resolver after.
        if cleanup then platform.cleanup_dns config after else platform.configure_dns config after
