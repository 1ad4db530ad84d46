-- ===== src/Forward/Permits.antt =====
-- preparedRule.permits of internal/forward/tcp.go, with net.IPNet.Contains.
use Prim.Native.Nat.{bit_and}
use portflow.Prelude.{
  ℕ, ◌≡◌, ◌↔◌, ◌⊎◌, inl, inr, refl, subst, String, Bool, true, false, Option, none, some, List, [],
  ◌∷◌, ◌&&◌, ◌||◌, eqb, length, drop, if◌then◌else◌, on_option, arith, Option-cases,
}
use portflow.Domain.{Net, Network, Ip, v4, v6}
use portflow.Forward.Prepare.{PreparedRule}

abbrev pub bytes_of : Ip → List ℕ
bytes_of (v4 a b c d) = a ∷ b ∷ c ∷ d ∷ []
bytes_of (v6 bytes) = bytes

-- The mask of a network: the last four of sixteen bytes for an IPv4 number.
abbrev pub mask_of : Network → List ℕ
mask_of network =
    if eqb (length (bytes_of network.number)) 4 && eqb (length network.mask) 16
    then drop 12 network.mask
    else network.mask

unfoldable pub same_prefix : List ℕ → List ℕ → List ℕ → Bool
same_prefix [] [] [] = true
same_prefix (n ∷ number) (m ∷ mask) (i ∷ ip) =
    eqb (bit_and n m) (bit_and i m) && same_prefix number mask ip
same_prefix number mask ip = false

-- net.IPNet.Contains; a nil network contains nothing.
unfoldable pub in_network : Ip → Option Network → Bool
unfolding same_prefix
in_network ip none = false
in_network ip (some network) = same_prefix (bytes_of network.number) (mask_of network) (bytes_of ip)

unfoldable pub in_some_network : Ip → List (Option Network) → Bool
unfolding in_network
in_some_network ip [] = false
in_some_network ip (network ∷ networks) = in_network ip network || in_some_network ip networks

-- `split_host` is the host of net.SplitHostPort, none where that fails.
unfoldable pub permits : Net → (String → Option String) → PreparedRule → String → Bool
unfolding in_some_network
permits net split_host config address = on_option (split_host address) false λ host.
    on_option (net.parse_ip host) false λ ip.
      if in_some_network ip config.deny
      then false
      else if eqb (length config.allow) 0
      then true
      else in_some_network ip config.allow

allowed_cases :
    (allow : List (Option Network)) (ip : Ip)
    → (if eqb (length allow) 0 then true else in_some_network ip allow) ≡ true
    → (allow ≡ []) ⊎ (in_some_network ip allow ≡ true)
allowed_cases [] ip h = inl refl
allowed_cases (network ∷ networks) ip h = inr (ground (arith, h))

cases_allowed :
    (allow : List (Option Network)) (ip : Ip)
    → (allow ≡ []) ⊎ (in_some_network ip allow ≡ true)
    → (if eqb (length allow) 0 then true else in_some_network ip allow) ≡ true
cases_allowed [] ip h = refl
cases_allowed (network ∷ networks) ip h = ground (arith, h)

-- A source address is let through exactly when its host is an address that no denied network
-- contains and that, where there is an allow list, some allowed network contains.
permits-true_iff :
    (net : Net) (split_host : String → Option String) (config : PreparedRule) (address : String)
    → (permits net split_host config address ≡ true) ↔ (
        (host : String) × (ip : Ip) × (split_host address ≡ some host)
        × (net.parse_ip host ≡ some ip)
        × (in_some_network ip config.deny ≡ false)
        × ((config.allow ≡ []) ⊎ (in_some_network ip config.allow ≡ true)))
unfolding permits
permits-true_iff net split_host config address = elim (Option-cases (split_host address)) [
  | inl unsplit ↦ rw unsplit (ground arith)
  | inr (host, split) ↦ elim (Option-cases (net.parse_ip host)) [
    | inl unparsed ↦ (
      λ h. ground (arith, h, split, unparsed),
      λ (h, i, s, p, denied, allowed). ground (arith, s, split, p, unparsed),
    )
    | inr (ip, parsed) ↦ (
      λ h. (
        host,
        ip,
        split,
        parsed,
        ground (arith, h, split, parsed),
        allowed_cases config.allow ip (ground (arith, h, split, parsed)),
      ),
      λ (h, i, s, p, denied, allowed).
          let same_host : h ≡ host = ground (arith, s, split) in
          let same_ip : i ≡ ip = ground (arith, p, parsed, same_host) in
          rw (split, parsed)
            (ground (
              arith,
              subst (λ a. in_some_network a config.deny ≡ false) same_ip denied,
              cases_allowed config.allow ip (
                  subst (λ a. (config.allow ≡ []) ⊎ (in_some_network a config.allow ≡ true)) same_ip
                    allowed),
            )),
    )
  ]
]
