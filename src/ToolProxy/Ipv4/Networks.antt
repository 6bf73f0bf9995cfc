-- ===== src/ToolProxy/Ipv4/Networks.antt =====
-- execution-plane/tool-proxy/src/index.ts: the networks that `isAllowedSandboxIP` lets through.
use the_kubernetes_of_ai_age.Common.{
  ℕ, ◌≤◌, String, Bool, true, false, ◌&&◌, ◌||◌, Option, none, some, ◌≡◌, refl, ◌∙◌, arith, leb,
  ◌==◌,
}
use the_kubernetes_of_ai_age.ToolProxy.Ipv4.{
  parse_octet, parse_parts, parse_ipv4, allowed_cidrs, ip_in_cidr, admits, is_allowed_sandbox_ip,
}
use the_kubernetes_of_ai_age.Common.Text.{split}
use the_kubernetes_of_ai_age.ToolProxy.Ipv4.Dotted.{dotted, ipv4, parse_ipv4-dotted}

-- 10.0.0.0 to 10.255.255.255, 172.16.0.0 to 172.31.255.255, 192.168.0.0 to 192.168.255.255.
abbrev pub is_private : ℕ → ℕ → Bool
is_private a b = a == 10 || ((a == 172 && (leb 16 b && leb b 31)) || (a == 192 && b == 168))

-- Loopback, link-local, shared, unspecified and multicast addresses.
abbrev pub is_denied : ℕ → ℕ → Bool
is_denied a b =
    a == 127
    || ((a == 169 && b == 254)
        || ((a == 100 && (leb 64 b && leb b 127)) || (a == 0 || (leb 224 a && leb a 239))))

module _ (other_number : String → Option ℕ) where
  allowed_at :
      (raw : Option String) (ip : String) (n : ℕ)
      → parse_ipv4 ip ≡ some n
      → is_allowed_sandbox_ip other_number raw ip ≡ admits other_number raw n
  unfolding is_allowed_sandbox_ip
  allowed_at raw ip n e = rw (e, is_allowed_sandbox_ip) refl

  admits-default :
      (a b c d : ℕ)
      → a ≤ 255
      → b ≤ 255
      → c ≤ 255
      → d ≤ 255
      → admits other_number none (ipv4 a b c d) ≡ is_private a b
  unfolding admits allowed_cidrs ip_in_cidr parse_ipv4 parse_parts parse_octet split
  admits-default a b c d ha hb hc hd = ground arith

  admits-denied :
      (raw : Option String) (a b c d : ℕ)
      → a ≤ 255
      → b ≤ 255
      → c ≤ 255
      → d ≤ 255
      → is_denied a b ≡ true
      → admits other_number raw (ipv4 a b c d) ≡ false
  unfolding admits ip_in_cidr parse_ipv4 parse_parts parse_octet split
  admits-denied raw a b c d ha hb hc hd h = ground arith

  -- With no list configured, an address is allowed exactly when it is in one of the private networks
  -- 10.0.0.0/8, 172.16.0.0/12 and 192.168.0.0/16.
  pub is_allowed_sandbox_ip-default :
      (a b c d : ℕ)
      → a ≤ 255
      → b ≤ 255
      → c ≤ 255
      → d ≤ 255
      → is_allowed_sandbox_ip other_number none (dotted a b c d) ≡ is_private a b
  is_allowed_sandbox_ip-default a b c d ha hb hc hd =
      allowed_at none (dotted a b c d) _ (parse_ipv4-dotted a b c d ha hb hc hd)
      ∙ admits-default a b c d ha hb hc hd

  -- Whatever list is configured, no loopback, link-local, shared, unspecified or multicast
  -- address is allowed.
  pub is_allowed_sandbox_ip-denied :
      (raw : Option String) (a b c d : ℕ)
      → a ≤ 255
      → b ≤ 255
      → c ≤ 255
      → d ≤ 255
      → is_denied a b ≡ true
      → is_allowed_sandbox_ip other_number raw (dotted a b c d) ≡ false
  is_allowed_sandbox_ip-denied raw a b c d ha hb hc hd h =
      allowed_at raw (dotted a b c d) _ (parse_ipv4-dotted a b c d ha hb hc hd)
      ∙ admits-denied raw a b c d ha hb hc hd h
