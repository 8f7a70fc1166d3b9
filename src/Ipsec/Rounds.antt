-- ===== src/Ipsec/Rounds.antt =====
-- That the connector answers the question for the user name by itself only once in a row, so that
-- `challenge_code` comes to an end.
use snx_rs.Prelude.{
  ℕ, suc, Bool, true, false, Option, none, some, ◌≡◌, refl, ◌⊎◌, inl, inr, ◌==◌, ==_refl,
  Bool-cases,
}
use snx_rs.Prelude.Result.{Result, ok, err, Result-cases}
use snx_rs.Prelude.Text.{Text, is_empty, trim}
use snx_rs.Model.Params.{TunnelParams}
use snx_rs.Model.Session.{TunnelSession}
use snx_rs.Ipsec.{Outside, AttributesPayload}
use snx_rs.Ipsec.Monad.{M, State, continue}
use snx_rs.Ipsec.Attributes.{get_challenge_attribute_type, get_short_attribute}
use snx_rs.Ipsec.Challenge.{requested}
use snx_rs.Ipsec.Auth.{
  name_requested, challenged, with_status, process_auth_attributes, challenge_round,
  challenge_rounds,
}

module _ {Esp W : Type 0} (outside : Outside Esp W) (params : TunnelParams)
    (again more : Text → M Esp W (TunnelSession Esp)) where
  -- The two agree where the last question was for the user name.
  abbrev AgreesOnName : Type 0
  AgreesOnName =
      (input : Text) (s : State Esp W)
      → (s.0.last_challenge_type == outside.codes.user_name) ≡ true
      → again input s ≡ more input s

  name_requested-agree :
      (session : TunnelSession Esp) (asked : Bool) (s : State Esp W)
      → (asked ≡ true) ⊎ AgreesOnName
      → name_requested outside params again session asked s
        ≡ name_requested outside params more session asked s
  unfolding name_requested
  name_requested-agree session true s h = refl
  name_requested-agree session false s (inl e) = cc e
  name_requested-agree session false (c, w) (inr agree) =
      elim (Bool-cases (is_empty params.user_name)) [
        | inl e ↦ rw (e, name_requested) refl
        | inr e ↦
            rw (e, name_requested)
              (agree params.user_name
                (record c { last_challenge_type = outside.codes.user_name }, w)
                (==_refl outside.codes.user_name))
      ]

  challenged-agree :
      (reply : AttributesPayload) (s : State Esp W)
      → ((s.0.last_challenge_type == outside.codes.user_name) ≡ true) ⊎ AgreesOnName
      → challenged outside params again reply s ≡ challenged outside params more reply s
  unfolding challenged
  challenged-agree reply (c, w) h =
      let attr = get_challenge_attribute_type outside.codes reply in
      elim (Result-cases (requested outside c.ccc_session attr reply)) [
        | inr (e, failed) ↦ rw (failed, challenged) refl
        | inl (session, made) ↦ elim (Bool-cases (attr == outside.codes.user_name)) [
          | inr other ↦ rw (made, other, challenged) refl
          | inl named ↦
              rw (made, named, challenged)
                (name_requested-agree session (c.last_challenge_type == outside.codes.user_name)
                  (c, w) h)
        ]
      ]

  with_status-agree :
      (reply : AttributesPayload) (status : Option ℕ) (s : State Esp W)
      → ((s.0.last_challenge_type == outside.codes.user_name) ≡ true) ⊎ AgreesOnName
      → with_status outside params again reply status s
        ≡ with_status outside params more reply status s
  unfolding with_status
  with_status-agree reply none s h = challenged-agree reply s h
  with_status-agree reply (some status) s h = refl

  process-agree :
      (reply : AttributesPayload) (s : State Esp W)
      → ((s.0.last_challenge_type == outside.codes.user_name) ≡ true) ⊎ AgreesOnName
      → process_auth_attributes outside params again reply s
        ≡ process_auth_attributes outside params more reply s
  unfolding process_auth_attributes
  process-agree reply (c, w) h =
      with_status-agree reply (get_short_attribute reply outside.codes.status)
        (record c { last_identifier = reply.identifier }, w) h

  challenge_round-agree :
      (input : Text) (s : State Esp W)
      → ((s.0.last_challenge_type == outside.codes.user_name) ≡ true) ⊎ AgreesOnName
      → challenge_round outside params again input s ≡ challenge_round outside params more input s
  unfolding challenge_round
  challenge_round-agree input (c, w) h =
      let (answer, after) =
        outside.send_attribute c.last_identifier c.last_message_id c.last_challenge_type
          (trim input) w in
      answered answer after
    where
      answered :
          (answer : Result AttributesPayload) (after : W)
          → continue
              (answer, (c, after))
              (λ reply. process_auth_attributes outside params again reply)
            ≡ continue
                (answer, (c, after))
                (λ reply. process_auth_attributes outside params more reply)
      answered (ok reply) after = process-agree reply (c, after) h
      answered (err e) after = refl

module _ {Esp W : Type 0} (outside : Outside Esp W) (params : TunnelParams)
    (beyond beyond' : Text → M Esp W (TunnelSession Esp)) where
  -- A code is answered after at most two rounds with the gateway: whatever would be done in a third
  -- is never done.
  pub challenge_rounds-two :
      (n n' : ℕ) (input : Text) (s : State Esp W)
      → challenge_rounds outside params beyond (suc (suc n)) input s
        ≡ challenge_rounds outside params beyond' (suc (suc n')) input s
  unfolding challenge_rounds
  challenge_rounds-two n n' input s =
      challenge_round-agree outside params (challenge_rounds outside params beyond (suc n))
        (challenge_rounds outside params beyond' (suc n')) input s
        (inr (λ name s' asked.
          challenge_round-agree outside params (challenge_rounds outside params beyond n)
            (challenge_rounds outside params beyond' n') name s' (inl asked)))
