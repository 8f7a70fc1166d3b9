-- ===== src/Ipsec/Challenge.antt =====
-- `do_challenge_attr`: the challenge that a reply carries, and the name in the last message.
use snx_rs.Prelude.{ℕ, Bool, not, ◌&&◌, Option, none, some, List, [], ◌∷◌, ◌==◌, if◌then◌else◌}
use snx_rs.Prelude.Result.{Result, ok, err, context, ◌>>=◌}
use snx_rs.Prelude.Text.{Text, codes, text_eq, split}
use snx_rs.Model.Params.{TunnelParams}
use snx_rs.Model.Session.{MfaType, user_name_input, from_id, TunnelSession, pending_challenge}
use snx_rs.Sexpr.{SExpression, get, get_value}
use snx_rs.Slim.{Bytes, from_str}
use snx_rs.Config.{split_once}
use snx_rs.Ipsec.{Outside, AttributesPayload}
use snx_rs.Ipsec.Attributes.{get_long_attribute}

unfoldable pub text_or : Text → Option Text → Text
text_or other none = other
text_or other (some t) = t

unfoldable pub pending : {Esp : Type 0} → Text → MfaType → Text → TunnelSession Esp
pending id type prompt = record {
  session_id = id;
  state = pending_challenge (record { mfa_type = type; prompt = prompt });
  username = none;
}

unfoldable pub is_challenge_state : Text → Bool
unfolding text_eq
is_challenge_state state = not (
    not (text_eq state (codes "challenge"))
    && (not (text_eq state (codes "new_factor")) && not (text_eq state (codes "failed_attempt"))))

unfoldable pub challenge_argument : {Esp : Type 0} → Text → SExpression → Result (TunnelSession Esp)
unfolding get_value text_or pending from_id
challenge_argument ccc inner =
    context (get_value inner (codes "msg_obj:def_msg")) "No challenge prompt!" >>= λ prompt.
    ok (pending ccc (from_id (text_or [] (get_value inner (codes "msg_obj:id")))) prompt)

-- The message object of a challenge, read by path.
unfoldable pub challenge_of : {Esp : Type 0} → Text → SExpression → Result (TunnelSession Esp)
unfolding get get_value text_or is_challenge_state challenge_argument
challenge_of ccc msg_obj =
    let state =
      text_or (codes "challenge") (get_value msg_obj (codes "msg_obj:authentication_state")) in
    if is_challenge_state state
    then (context (get msg_obj (codes "msg_obj:arguments:0:val")) "Invalid challenge reply!"
        >>= challenge_argument ccc)
    else err "error-not-challenge-state"

module _ {Esp W : Type 0} (outside : Outside Esp W) where
  unfoldable pub parse : Text → Result SExpression
  unfolding from_str
  parse s = from_str outside.from_utf8_lossy outside.parse_text s

  -- The parts between the NULs: a message, and the object that is read.
  unfoldable pub challenge_in : Text → List Bytes → Result (TunnelSession Esp)
  unfolding parse challenge_of
  challenge_in ccc [] = err "Invalid challenge reply!"
  challenge_in ccc (message ∷ []) = err "Invalid challenge reply!"
  challenge_in ccc (message ∷ object ∷ more) =
      parse (outside.from_utf8_lossy object) >>= λ msg_obj. challenge_of ccc msg_obj

  unfoldable pub do_challenge_attr : Text → Bytes → Result (TunnelSession Esp)
  unfolding challenge_in split
  do_challenge_attr ccc attr = challenge_in ccc (split (λ c. c == 0) attr)

  -- The session that a reply with no status asks a code for.
  unfoldable pub requested : Text → ℕ → AttributesPayload → Result (TunnelSession Esp)
  unfolding do_challenge_attr get_long_attribute pending
  requested ccc attr reply = elim (get_long_attribute reply outside.codes.challenge) [
    | some challenge ↦ do_challenge_attr ccc challenge
    | none ↦
        if attr == outside.codes.user_name
        then ok (pending ccc user_name_input (outside.tr "label-username"))
        else err "error-no-challenge"
  ]

  abbrev parsed : Result SExpression → Option SExpression
  parsed (ok e) = some e
  parsed (err e) = none

  abbrev message_in : AttributesPayload → Option SExpression
  message_in reply = elim (get_long_attribute reply outside.codes.message) [
    | none ↦ none
    | some m ↦ elim (split_once 0 (outside.from_utf8_lossy m)) [
      | none ↦ none
      | some parts ↦ parsed (parse parts.1)
    ]
  ]

  unfoldable pub user_name_in : TunnelParams → AttributesPayload → Text
  unfolding text_or get_value get_long_attribute split_once parse
  user_name_in params reply = elim (message_in reply) [
    | none ↦ params.user_name
    | some message ↦
        text_or params.user_name
          (get_value message (codes "msg_obj:arguments:0:val:msg_obj:arguments:0:val"))
  ]
