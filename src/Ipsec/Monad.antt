-- ===== src/Ipsec/Monad.antt =====
-- Methods of the connector: they change it and what is outside, also where they end with an error.
use snx_rs.Prelude.{String}
use snx_rs.Prelude.Result.{Result, ok, err}
use snx_rs.Ipsec.{IPsecTunnelConnector}

abbrev pub State : Type 0 → Type 0 → Type 0
State Esp W = IPsecTunnelConnector Esp × W

abbrev pub M : Type 0 → Type 0 → Type 0 → Type 0
M Esp W A = State Esp W → Result A × State Esp W

abbrev pub continue : {S A B : Type 0} → Result A × S → (A → S → Result B × S) → Result B × S
continue (ok a, s) f = f a s
continue (err e, s) f = (err e, s)

infixl 5 ◌>>=◌ ◌>>◌
abbrev pub ◌>>=◌ : {Esp W A B : Type 0} → M Esp W A → (A → M Esp W B) → M Esp W B
◌>>=◌ m f s = continue (m s) f

abbrev pub ◌>>◌ : {Esp W B : Type 0} → M Esp W (Unit {0}) → M Esp W B → M Esp W B
m >> k = m >>= λ _. k

abbrev pub pure : {Esp W A : Type 0} → A → M Esp W A
pure a s = (ok a, s)

abbrev pub fail : {Esp W A : Type 0} → String → M Esp W A
fail e s = (err e, s)

abbrev pub lift : {Esp W A : Type 0} → Result A → M Esp W A
lift r s = (r, s)

-- What the connector holds, and what can be seen outside.
abbrev pub self : {Esp W : Type 0} → M Esp W (IPsecTunnelConnector Esp)
self s = (ok s.0, s)

abbrev pub look : {Esp W A : Type 0} → (W → A) → M Esp W A
look f s = (ok (f s.1), s)

abbrev pub set :
    {Esp W : Type 0} → (IPsecTunnelConnector Esp → IPsecTunnelConnector Esp) → M Esp W (Unit {0})
set f s = (ok tt, (f s.0, s.1))

abbrev pub beside :
    {Esp W A : Type 0} → IPsecTunnelConnector Esp → Result A × W → Result A × State Esp W
beside c answer = (answer.0, (c, answer.1))

abbrev pub call : {Esp W A : Type 0} → (W → Result A × W) → M Esp W A
call f s = beside s.0 (f s.1)

-- The result of a method as a value, for what is done after an error.
abbrev pub attempt : {Esp W A : Type 0} → M Esp W A → M Esp W (Result A)
attempt m s = let (r, after) = m s in (ok r, after)
