-- ===== src/Cli/Operator/Hosts.antt =====
-- That the checks of cli/operator.go let the probes of a valid service through, and that they keep
-- a request from going elsewhere.
use konductor.Prelude.{
  ◌≡◌, refl, ap, ◌∙◌, subst, eq_iff, ◌⊎◌, inl, inr, ℕ, true, false, Bool-cases, not, String,
  str_append, is_blank, List, [], ◌∷◌, ◌++◌, any, arith, Action, some, Option-cases,
}
use Prim.Native.Char.{code}
use konductor.Api.Errors.{Result, Result-cases, ok}
use konductor.Cli.Operator.Labels.{
  codes, same, begins, ends, within, ends_with, contains, is_label_char, is_valid_dns1123_label,
  is_valid_service_name, is_valid_namespace, codes-append,
}
use konductor.Cli.Operator.{
  Net, Ip, is_allowed_host, is_valid_health_url, is_disallowed_ip, service_host, cluster_suffix,
  is_endpoint, dial_safely,
}

same_refl : (t : List ℕ) → same t t ≡ true
same_refl [] = refl
same_refl (c ∷ s) = ground (arith, same_refl s)

ends_self : (t : List ℕ) → ends t t ≡ true
unfolding ends
ends_self [] = refl
ends_self (c ∷ s) = ground (arith, same_refl s)

ends-append : (s t u : List ℕ) → ends t u ≡ true → ends (s ++ t) u ≡ true
unfolding ends
ends-append [] t u tail = tail
ends-append (c ∷ s) t u tail = ground (arith, ends-append s t u tail)

abbrev Plain : List ℕ → Type 0
Plain s = any (λ c. not (is_label_char c)) s ≡ false

abbrev two_dots : List ℕ
two_dots = b'.' ∷ (b'.' ∷ [])

-- Before a text without two dots in a row, a label adds none.
within-append :
    (s t : List ℕ) → Plain s → within t two_dots ≡ false → within (s ++ t) two_dots ≡ false
unfolding within begins
within-append [] t plain none_in = none_in
within-append (c ∷ s) t plain none_in =
    let rest : Plain s = ground arith in ground (arith, within-append s t rest none_in)

-- A dot before a label does not make two.
within_dot :
    (d : ℕ) (s t : List ℕ)
    → Plain (d ∷ s)
    → within t two_dots ≡ false
    → within (b'.' ∷ ((d ∷ s) ++ t)) two_dots ≡ false
unfolding within begins
within_dot d s t plain none_in = ground (arith, within-append (d ∷ s) t plain none_in)

-- What the check of a label ensures.
label-Plain :
    (label : String)
    → is_valid_dns1123_label label ≡ true
    → (d : ℕ) × ((r : List ℕ) × (codes label ≡ d ∷ r) × Plain (d ∷ r))
unfolding is_valid_dns1123_label codes
label-Plain String.[] valid = ground arith
label-Plain (String.◌∷◌ c s) valid = (code c, (codes s, refl, ground arith))

not_blank : (s : String) {d : ℕ} {r : List ℕ} → codes s ≡ d ∷ r → is_blank s ≡ false
unfolding codes
not_blank s e = elim (Bool-cases (is_blank s)) [
  | inl blank ↦ let nothing : s ≡ "" = (eq_iff s "").0 blank in absurd (cc (ap codes nothing))
  | inr fine ↦ fine
]

host_codes :
    (a b : String)
    → codes (service_host a b) ≡ codes a ++ (b'.' ∷ (codes b ++ codes cluster_suffix))
unfolding codes
host_codes a b =
    rw (codes-append a (str_append "." (str_append b cluster_suffix))) (
      rw (codes-append "." (str_append b cluster_suffix)) (rw (codes-append b cluster_suffix) refl))

host_ends : (a b : String) → ends_with (service_host a b) cluster_suffix ≡ true
host_ends a b =
    let suffix = codes cluster_suffix in
    rw (host_codes a b)
      (ends-append (codes a) _ _ (ends-append (b'.' ∷ codes b) suffix _ (ends_self suffix)))

suffix_plain : within (codes cluster_suffix) two_dots ≡ false
unfolding codes within begins
suffix_plain = refl

host_plain :
    (a b : String)
    → is_valid_service_name a ≡ true
    → is_valid_namespace b ≡ true
    → contains (service_host a b) ".." ≡ false
unfolding codes
host_plain a b va vb =
    let (d, (r, at_a, plain_a)) = label-Plain a va in
    let (e, (q, at_b, plain_b)) = label-Plain b vb in
    rw (host_codes a b, at_a, at_b)
      (within-append (d ∷ r) _ plain_a (within_dot e q (codes cluster_suffix) plain_b suffix_plain))

module _ {W Conn : Type 0} (n : Net W Conn) where
  -- For a service name and a namespace that the command accepts, the transport lets a request to the
  -- service through, if `SplitHostPort` splits its host, and the URL of an endpoint is valid for a
  -- probe, if `Parse` gives its scheme, host and path.
  service_allowed :
      (a b host url path : String)
      → is_valid_service_name a ≡ true
      → is_valid_namespace b ≡ true
      → is_blank host ≡ false
      → n.split_host_port host ≡ ok (service_host a b)
      → is_blank url ≡ false
      → n.parse_url url ≡ ok (record { scheme = "http"; hostname = service_host a b; path = path })
      → is_endpoint path ≡ true
      → (is_allowed_host n host ≡ true) × (is_valid_health_url n url ≡ true)
  unfolding is_allowed_host is_valid_health_url
  service_allowed a b host url path va vb named split given parsed endpoint =
      let (d, (r, at_a, plain_a)) = label-Plain a va in
      let ending = host_ends a b in
      let dots = host_plain a b va vb in
      let filled =
        not_blank (service_host a b)
          (host_codes a b ∙ ap (λ l. l ++ (b'.' ∷ (codes b ++ codes cluster_suffix))) at_a) in
      (rw (named, split, ending, dots) refl, rw (given, parsed, filled, ending) endpoint)

  -- What the remote address of a connection must be.
  pub record Safe (conn : Conn) : Type 0 where
    pub host_ip : String
    pub ip : Ip
    pub split : n.split_host_port (n.remote_address conn) ≡ ok host_ip
    pub parsed : n.parse_ip host_ip ≡ some ip
    pub public :
        (ip.loopback ≡ true)
        ⊎ ((ip.multicast ≡ false) × (ip.unspecified ≡ false) × (ip.private ≡ false))

  -- An address that is not disallowed.
  allowed_ip :
      (host_ip : String)
      → is_disallowed_ip n host_ip ≡ false
      → (ip : Ip) × (n.parse_ip host_ip ≡ some ip)
        × ((ip.loopback ≡ true)
            ⊎ ((ip.multicast ≡ false) × (ip.unspecified ≡ false) × (ip.private ≡ false)))
  unfolding is_disallowed_ip
  allowed_ip host_ip e = elim (Option-cases (n.parse_ip host_ip)) [
    | inl unknown ↦ absurd (ground arith)
    | inr (ip, parsed) ↦ elim (Bool-cases ip.loopback) [
      | inl loop ↦ (ip, parsed, inl loop)
      | inr far ↦ (ip, parsed, inr (ground arith, ground arith, ground arith))
    ]
  ]

  -- A connection that the safe dialer gives is to an address that parses, and that is loopback or
  -- neither multicast, nor unspecified, nor private.
  pub dial_safely-Safe :
      (dial : String → Action W (Result Conn)) (address : String) (w w' : W) (conn : Conn)
      → dial_safely n dial address w ≡ (ok conn, w')
      → (dial address w ≡ (ok conn, w')) × Safe conn
  unfolding dial_safely
  dial_safely-Safe dial address w w' conn e = elim (Result-cases (dial address w).0) [
    | inl (x, failed) ↦ absurd (ground arith)
    | inr (found, dialed) ↦ elim (Result-cases (n.split_host_port (n.remote_address found))) [
      | inl (x, odd) ↦ absurd (ground arith)
      | inr (host_ip, split) ↦ elim (Bool-cases (is_disallowed_ip n host_ip)) [
        | inl bad ↦ absurd (ground arith)
        | inr fine ↦
            let (ip, parsed, public) = allowed_ip host_ip fine in
            let it : found ≡ conn = ground arith in
            (
              ground arith,
              subst Safe it (record {
                host_ip = host_ip;
                ip = ip;
                split = split;
                parsed = parsed;
                public = public;
              }),
            )
      ]
    ]
  ]
