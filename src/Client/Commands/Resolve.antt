-- ===== src/Client/Commands/Resolve.antt =====
-- When `query` and `server` succeed.
use riot_playground.Common.{ℕ, ◌≡◌, ◌⊎◌, inl, inr, refl, List, [], ◌∷◌, Bool, true, false, codes}
use riot_playground.Common.Int.{pos}
use riot_playground.Common.Chars.{str_eq}
use riot_playground.Client.Commands.{
  Family, af_inet, af_inet6, Resolver, parse_af, print_addr, query, dns,
}

abbrev pub family_of : Bool → Family
family_of true = af_inet6
family_of false = af_inet

abbrev pub family_argument : Bool → List ℕ
family_argument true = codes "inet6"
family_argument false = codes "inet"

-- `query` and `dns`, given a host name and the name of a family, resolve for that family, and both
-- succeed if the answer is an IPv4 or an IPv6 address.
pub addresses_resolve :
    (resolve : Resolver) (name hostname : List ℕ) (inet6 : Bool)
    → (resolve hostname (family_of inet6) ≡ pos 4) ⊎ (resolve hostname (family_of inet6) ≡ pos 16)
    → (query resolve (name ∷ hostname ∷ family_argument inet6 ∷ []) ≡ 0)
      × (dns resolve (name ∷ hostname ∷ family_argument inet6 ∷ []) ≡ 0)
unfolding query dns parse_af print_addr str_eq
addresses_resolve resolve name hostname true (inl e) = rw e (refl, refl)
addresses_resolve resolve name hostname true (inr e) = rw e (refl, refl)
addresses_resolve resolve name hostname false (inl e) = rw e (refl, refl)
addresses_resolve resolve name hostname false (inr e) = rw e (refl, refl)
