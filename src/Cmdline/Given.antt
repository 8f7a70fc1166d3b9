-- ===== src/Cmdline/Given.antt =====
-- Each option of a command line sets the parameter that it is for.
use snx_rs.Prelude.{List, [], ◌∷◌}
use snx_rs.Model.Params.{TunnelParams}
use snx_rs.Config.Formats.{Formats}
use snx_rs.Cmdline.{CmdlineParams}
use snx_rs.Cmdline.Layers.{over}
use snx_rs.Cmdline.Options.{Given, no_options, line_of, set}

-- The command line with these options, an earlier one over a later one of the same name.
unfoldable pub line_with : List Given → CmdlineParams
unfolding over line_of
line_with [] = no_options
line_with (option ∷ options) = over (line_of option) (line_with options)

-- The parameters with these options set one after the other, from the last to the first.
unfoldable pub set_each : Formats → List Given → TunnelParams → TunnelParams
unfolding set
set_each formats [] params = params
set_each formats (option ∷ options) params = set formats option (set_each formats options params)
