-- ===== src/Model/Login.antt =====
-- crates/snxcore/src/model/proto.rs: what the gateway says of its login options and answers to an
-- authentication. An `ObfuscatedString` is its text. A BTreeMap is a list in key order.
use snx_rs.Prelude.{
  ℕ, Bool, true, not, Option, none, some, String, List, [], ◌∷◌, ◌++◌, find, any, if◌then◌else◌,
}
use snx_rs.Prelude.Text.{Text, text_eq, codes}

pub data LoginDisplayLabelSelect : Type 0 where
  login_display_label : List (Text × Text) → LoginDisplayLabelSelect
  no_label : Text → LoginDisplayLabelSelect

pub record LoginFactor : Type 0 where
  pub factor_type : Text
  pub custom_display_labels : LoginDisplayLabelSelect

pub record LoginOption : Type 0 where
  pub id : Text
  pub secondary_realm_hash : Text
  pub display_name : Text
  pub show_realm : ℕ
  pub factors : List (Text × LoginFactor)

pub record LoginOptionsData : Type 0 where
  pub login_options_list : List (Text × LoginOption)
  pub login_options_md5 : Text

pub record AuthResponse : Type 0 where
  pub authn_status : Text
  pub is_authenticated : Option Bool
  pub active_key : Option Text
  pub server_fingerprint : Option Text
  pub server_cn : Option Text
  pub session_id : Option Text
  pub active_key_timeout : Option ℕ
  pub error_message : Option Text
  pub error_id : Option Text
  pub error_code : Option ℕ
  pub prompt : Option Text
  pub username : Option Text

abbrev pub mobile_access_id : Text
mobile_access_id = codes "ma"

module _ (tr : String → Text) where
  unfoldable pub unspecified : LoginOption
  unspecified = record {
    id = codes "vpn_Username_Password";
    secondary_realm_hash = [];
    display_name = tr "label-username-password";
    show_realm = 1;
    factors =
        (codes "1", record { factor_type = codes "password"; custom_display_labels = no_label [] })
        ∷ [];
  }

  unfoldable pub mobile_access_option : LoginOption
  mobile_access_option = record {
    id = mobile_access_id;
    secondary_realm_hash = [];
    display_name = tr "label-mobile-access";
    show_realm = 1;
    factors =
        (
          codes "1",
          record { factor_type = codes "mobile_access"; custom_display_labels = no_label [] },
        )
        ∷ [];
  }

unfoldable pub is_multi_factor : LoginOption → Bool
is_multi_factor o = any (λ f. not (text_eq f.1.factor_type (codes "certificate"))) o.factors

unfoldable pub is_certificate : LoginOption → Bool
is_certificate o = any (λ f. text_eq f.1.factor_type (codes "certificate")) o.factors

unfoldable pub is_mobile_access : LoginOption → Bool
is_mobile_access o = text_eq o.id (codes "ma")

unfoldable pub value_of : Option (Text × LoginOption) → Option LoginOption
value_of none = none
value_of (some entry) = some entry.1

-- `GatewayInformation::get_login_option` on its `login_options_data`
unfoldable pub get_login_option : Option LoginOptionsData → Text → Option LoginOption
unfolding value_of
get_login_option none login_type = none
get_login_option (some options) login_type =
    value_of (find (λ entry. text_eq entry.1.id login_type) options.login_options_list)

unfoldable pub multi_factor_or : Option LoginOption → Bool
unfolding is_multi_factor
multi_factor_or none = true
multi_factor_or (some o) = is_multi_factor o

unfoldable pub is_multi_factor_login_type : Option LoginOptionsData → Text → Bool
unfolding multi_factor_or get_login_option
is_multi_factor_login_type options login_type =
    multi_factor_or (get_login_option options login_type)

unfoldable pub certificate_or : Option LoginOption → Bool
unfolding is_certificate
certificate_or none = true
certificate_or (some o) = is_certificate o

unfoldable pub is_certificate_login_type : Option LoginOptionsData → Text → Bool
unfolding certificate_or get_login_option
is_certificate_login_type options login_type = certificate_or (get_login_option options login_type)

pub record PromptInfo : Type 0 where
  pub header : Text
  pub prompt : Text
  pub default_entry : Option Text

unfoldable pub lookup : Text → List (Text × Text) → Option Text
lookup key [] = none
lookup key ((k, v) ∷ rest) = let found = lookup key rest in if text_eq k key then some v else found

unfoldable pub unwrap_or_default : Option Text → Text
unwrap_or_default none = []
unwrap_or_default (some t) = t

unfoldable pub factor_prompt : LoginDisplayLabelSelect → Option PromptInfo
unfolding lookup unwrap_or_default
factor_prompt (no_label t) = none
factor_prompt (login_display_label labels) = elim (lookup (codes "password") labels) [
  | none ↦ none
  | some label ↦ some (record {
    header = unwrap_or_default (lookup (codes "header") labels);
    prompt = label ++ codes ": ";
    default_entry = none;
  })
]

unfoldable pub prompts_of : List (Text × LoginFactor) → List PromptInfo
unfolding factor_prompt
prompts_of [] = []
prompts_of (f ∷ fs) =
    let rest = prompts_of fs in
    elim (factor_prompt f.1.custom_display_labels) [ none ↦ rest | some p ↦ p ∷ rest ]

unfoldable pub get_login_prompts : Option LoginOptionsData → Text → List PromptInfo
unfolding prompts_of get_login_option
get_login_prompts options login_type = elim (get_login_option options login_type) [
  | none ↦ []
  | some o ↦ prompts_of o.factors
]
