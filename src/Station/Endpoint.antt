-- ===== src/Station/Endpoint.antt =====
-- How `basestation_init` reads its endpoint: `HOST:PORT`, `:PORT` or `PORT`.
use inmarsat_sniffer.Base.{
  ℕ, suc, ◌+◌, ◌<◌, ◌==◌, ltb, if◌then◌else◌, ◌≡◌, sym, ap, ◌∙◌, subst, arith, inl, inr, ◌||◌, List,
  [], ◌∷◌, ◌++◌, Option, none, some, length, take, drop, Option-cases, Bool-cases, length-take,
  take-append-drop,
}
use mathlib.Core.Option
use inmarsat_sniffer.Base.Int.{ℤ, pos, negsuc}

-- `strrchr(s, c)`, as a position.
unfoldable pub strrchr : List ℕ → ℕ → Option ℕ
strrchr [] c = none
strrchr (d ∷ s) c = elim (strrchr s c) [
  | some i ↦ some (i + 1)
  | none ↦ if d == c then some 0 else none
]

module _ (atoi : List ℕ → ℤ) where
  -- The host, which is there in client mode only, and the port.
  unfoldable pub read_endpoint : List ℕ → Option (List ℕ) × ℤ
  read_endpoint [] = (none, pos 30003)
  read_endpoint (c ∷ s) = elim (strrchr (c ∷ s) b':') [
    | none ↦ (none, atoi (c ∷ s))
    | some colon ↦
        let port = atoi (drop (colon + 1) (c ∷ s)) in
        if colon == 0 then (none, port) else (some (take colon (c ∷ s)), port)
  ]

  -- `port <= 0 || port > 65535` is refused.
  abbrev pub valid_port : ℤ → Option ℕ
  valid_port (pos n) = if n == 0 || ltb 65535 n then none else some n
  valid_port (negsuc n) = none

  unfoldable pub endpoint_of : List ℕ → Option (Option (List ℕ) × ℕ)
  endpoint_of endpoint =
      Option.map (λ port. ((read_endpoint endpoint).0, port))
        (valid_port (read_endpoint endpoint).1)

strrchr-found :
    (s : List ℕ) (c i : ℕ) → strrchr s c ≡ some i → (i < length s) × (drop i s ≡ c ∷ drop (suc i) s)
unfolding strrchr
strrchr-found [] c i e = cc e
strrchr-found (d ∷ s) c i e = elim (Option-cases (strrchr s c)) [
  | inr (j, later) ↦
      let (lt, at_j) = strrchr-found s c j later in
      let there : suc j ≡ i = ground (arith, e, later) in
      (omega (arith, there), subst (λ k. drop k (d ∷ s) ≡ c ∷ drop (suc k) (d ∷ s)) there at_j)
  | inl last ↦ elim (Bool-cases (d == c)) [
    | inl here ↦
        let first : 0 ≡ i = ground (arith, e, last, here) in
        let byte : d ≡ c = ground (arith, here) in
        (
          omega (arith, first),
          subst (λ k. drop k (d ∷ s) ≡ c ∷ drop (suc k) (d ∷ s)) first (ap (λ x. x ∷ s) byte),
        )
    | inr other ↦ absurd (ground (arith, e, last, other))
  ]
]

-- A host is what stands before a colon, and is not empty; what follows the colon is the port.
pub record IsHost (endpoint host : List ℕ) : Type 0 where
  pub rest : List ℕ
  pub written : endpoint ≡ host ++ (b':' ∷ rest)
  pub some_text : 0 < length host

module _ (atoi : List ℕ → ℤ) where
  read_endpoint-IsHost :
      (endpoint host : List ℕ) → (read_endpoint atoi endpoint).0 ≡ some host → IsHost endpoint host
  unfolding read_endpoint
  read_endpoint-IsHost [] host e = cc e
  read_endpoint-IsHost (c ∷ s) host e = elim (Option-cases (strrchr (c ∷ s) b':')) [
    | inl no_colon ↦ absurd (ground (arith, e, no_colon))
    | inr (colon, found) ↦
        let (lt, there) = strrchr-found (c ∷ s) b':' colon found in
        elim (Bool-cases (colon == 0)) [
          | inl first ↦ absurd (ground (arith, e, found, first))
          | inr later ↦
              let host_text : take colon (c ∷ s) ≡ host = ground (arith, e, found, later) in
              record {
                rest = drop (suc colon) (c ∷ s);
                written =
                    sym (take-append-drop colon (c ∷ s))
                    ∙ ap (λ h. h ++ drop colon (c ∷ s)) host_text
                    ∙ ap (λ r. host ++ r) there;
                some_text =
                    ground (arith, later, ap length host_text, length-take colon (c ∷ s), lt);
              }
        ]
  ]

  valid_port-range : (port : ℤ) (n : ℕ) → valid_port atoi port ≡ some n → (0 < n) × (n < 65536)
  valid_port-range (pos m) n e = ground (arith, e)
  valid_port-range (negsuc m) n e = cc e

  -- An endpoint that is accepted has a port from 1 to 65535, and its host, if it has one, is a text that
  -- is not empty and stands before a colon of the endpoint.
  pub endpoint_of-valid :
      (endpoint : List ℕ) (host : Option (List ℕ)) (port : ℕ)
      → endpoint_of atoi endpoint ≡ some (host, port)
      → ((0 < port) × (port < 65536)) × ((h : List ℕ) → host ≡ some h → IsHost endpoint h)
  unfolding endpoint_of
  endpoint_of-valid endpoint host port e =
      elim (Option-cases (valid_port atoi (read_endpoint atoi endpoint).1)) [
        | inl refused ↦ absurd (ground (arith, e, refused))
        | inr (n, accepted) ↦
            let same_port : n ≡ port = ground (arith, e, accepted) in
            let same_host : (read_endpoint atoi endpoint).0 ≡ host = ground (arith, e, accepted) in
            (
              subst (λ m. (0 < m) × (m < 65536)) same_port
                  (valid_port-range (read_endpoint atoi endpoint).1 n accepted),
              λ h is. read_endpoint-IsHost endpoint h (same_host ∙ is),
            )
      ]
