-- ===== src/Plugin/Whitelist/Tests.antt =====
-- A whitelist of two patterns.
use myrpc.Base.{codes, beq, has_prefix, [], ◌∷◌, true, false, ◌||◌, ◌≡◌, ◌↔◌, ◌⊎◌, refl}
use myrpc.Plugin.Whitelist.{
  new_ip_whitelist, is_allowed, allow, cancel_allow, settled_allow, only_lan,
}
use myrpc.Plugin.Whitelist.Patterns.{listed, only_lan_lem}
use myrpc.Plugin.Whitelist.Allowed.{AdmitsAny, allow_iff}

cancel_test :
    is_allowed
      (codes "10.1.2.3")
      (cancel_allow (codes "10.*" ∷ []) (allow (codes "10.*" ∷ []) new_ip_whitelist).0).0
    ≡ false
unfolding is_allowed cancel_allow allow beq
cancel_test = refl

allow_iff_example :
    (is_allowed
        (codes "10.1.2.3")
        (settled_allow (allow (codes " 10.1.*" ∷ codes "127.0.0.1" ∷ []) new_ip_whitelist))
      ≡ true)
    ↔ (AdmitsAny (codes "10.1.2.3") (codes " 10.1.*" ∷ codes "127.0.0.1" ∷ [])
        ⊎ (listed (codes "10.1.2.3") new_ip_whitelist ≡ true))
allow_iff_example =
    allow_iff (codes "10.1.2.3") (codes " 10.1.*") (codes "127.0.0.1" ∷ []) new_ip_whitelist

only_lan_lem_example : is_allowed (codes "fe80::1") (settled_allow (only_lan new_ip_whitelist)) ≡ (
    has_prefix (codes "fe80::1") (codes "[")
    || has_prefix (codes "fe80::1") (codes "127.")
    || has_prefix (codes "fe80::1") (codes "192.168.")
    || has_prefix (codes "fe80::1") (codes "10."))
only_lan_lem_example = only_lan_lem (codes "fe80::1") new_ip_whitelist
