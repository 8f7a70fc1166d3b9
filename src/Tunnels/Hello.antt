-- ===== src/Tunnels/Hello.antt =====
-- The first message of the SSL tunnel and its reply, in crates/snxcore/src/tunnel/ssl.rs.
use snx_rs.Prelude.{ℕ, ◌-◌, Bool, not, Option, none, some, ltb, String, if◌then◌else◌}
use snx_rs.Prelude.Text.{Text, codes, text_eq}

pub record OfficeMode : Type 0 where
  pub ipaddr : Text
  pub keep_address : Option Bool

pub record ClientHelloData : Type 0 where
  pub client_version : ℕ
  pub protocol_version : ℕ
  pub protocol_minor_version : Option ℕ
  pub office_mode : OfficeMode
  pub optional : Option Text
  pub cookie : Text

unfoldable pub new_hello_request : Text → Text → Option Text → Bool → ClientHelloData
unfolding text_eq
new_hello_request login_type ip_address key keep_address =
    let sent : ClientHelloData = record {
      client_version = 2;
      protocol_version = 2;
      protocol_minor_version = none;
      office_mode = record { ipaddr = ip_address; keep_address = some keep_address };
      optional = some (codes "4");
      cookie = elim key [ none ↦ codes "" | some k ↦ k ];
    } in
    if not (text_eq login_type (codes "ma"))
    then sent
    else record sent { client_version = 1; protocol_version = 1; protocol_minor_version = some 1 }

abbrev pub reauth_leeway : ℕ
reauth_leeway = 60

-- What comes through the channel: it is closed, a control packet that says `disconnect`, one that is
-- a hello reply or is none, or data.
pub data Received : Type 0 where
  closed : Received
  disconnect : Received
  hello_reply : Text → ℕ → ℕ → Received
  other_control : String → Received
  other_data : Received

-- `Duration` subtraction panics where the result would be negative.
pub data Greeting : Type 0 where
  greeted : Text → ℕ → ℕ → Greeting
  failed : String → Greeting
  panicked : Greeting

-- The address, and the timeouts of the authentication and of the keepalive, from the reply.
unfoldable pub client_hello : Received → Greeting
client_hello closed = failed "Channel closed!"
client_hello disconnect = failed "error-tunnel-disconnected"
client_hello (hello_reply ipaddr authentication keepalive) =
    if ltb authentication reauth_leeway
    then panicked
    else greeted ipaddr (authentication - reauth_leeway) keepalive
client_hello (other_control e) = failed e
client_hello other_data = failed "error-unexpected-reply"
