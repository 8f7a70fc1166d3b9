-- ===== src/Tunnels/Routes.antt =====
-- Which routes are among those that are made.
use snx_rs.Prelude.{
  ℕ, Bool, true, false, not, ◌&&◌, ◌||◌, List, [], ◌∷◌, ◌++◌, retain, ◌≡◌, refl, ap, ◌∙◌, arith,
  ltb, Bool-cases, inl, inr, if◌then◌else◌,
}
use snx_rs.Model.Params.{TunnelParams}
use snx_rs.Tunnels.{Net, Platform}
use snx_rs.Tunnels.Routing.{net_eq, has, routes}

has-append : (net : Net) (xs ys : List Net) → has net (xs ++ ys) ≡ (has net xs || has net ys)
has-append net [] ys = refl
has-append net (x ∷ xs) ys = ground (arith, has-append net xs ys)

net_eq_path : (x y : Net) → net_eq x y ≡ true → x ≡ y
unfolding net_eq
net_eq_path (a, l) (b, m) h =
    let first : a ≡ b = ground arith in
    let second : l ≡ m = ground arith in λ i. (first i, second i)

or_false : (b : Bool) → (b || false) ≡ b
or_false true = refl
or_false false = refl

-- Only the nets that are not ignored are kept.
has-retain :
    (net : Net) (ignored xs : List Net)
    → has net (retain (λ r. not (has r ignored)) xs) ≡ (has net xs && not (has net ignored))
has-retain net ignored [] = refl
has-retain net ignored (x ∷ xs) = elim (Bool-cases (net_eq x net)) [
  | inl e ↦
      let same : has x ignored ≡ has net ignored = ap (λ t. has t ignored) (net_eq_path x net e) in
      ground (arith, has-retain net ignored xs, same, e)
  | inr e ↦ ground (arith, has-retain net ignored xs, e)
]

module _ {W : Type 0} (platform : Platform W) where
  -- Added or given by the gateway and not ignored, or the tunnel's own network.
  pub has-routes :
      (params : TunnelParams) (subnets : List Net) (address prefix_len : ℕ) (net : Net)
      → has net (routes platform params subnets (address, prefix_len)) ≡ (
          ((has net params.add_routes || has net subnets) && not (has net params.ignore_routes))
          || (ltb prefix_len 32 && net_eq (platform.trunc (address, prefix_len)) net))
  unfolding routes
  has-routes params subnets address prefix_len net =
      has-append net (retain (λ r. not (has r params.ignore_routes)) (params.add_routes ++ subnets))
        (if ltb prefix_len 32 then platform.trunc (address, prefix_len) ∷ [] else [])
      ∙ (λ i. gateway i || own (ltb prefix_len 32) i)
    where
      gateway :
          has net (retain (λ r. not (has r params.ignore_routes)) (params.add_routes ++ subnets))
          ≡ ((has net params.add_routes || has net subnets) && not (has net params.ignore_routes))
      gateway =
          has-retain net params.ignore_routes (params.add_routes ++ subnets)
          ∙ ap (λ b. b && not (has net params.ignore_routes))
              (has-append net params.add_routes subnets)

      own :
          (b : Bool)
          → has net (if b then platform.trunc (address, prefix_len) ∷ [] else [])
            ≡ (b && net_eq (platform.trunc (address, prefix_len)) net)
      own true = or_false (net_eq (platform.trunc (address, prefix_len)) net)
      own false = refl
