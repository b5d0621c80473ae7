-- ===== src/Plugin/Whitelist/Patterns.antt =====
-- The addresses that Allow lets in, by its patterns.
use myrpc.Base.{
  Bytes, codes, beq, beq_iff, has_prefix, List, [], ◌∷◌, Bool, true, false, ◌||◌, ◌≡◌, refl, arith,
  ◌∙◌, Bool-cases, inl, inr,
}
use myrpc.Plugin.Whitelist.{
  is_every, trim_left, trim_right, without_star, IpWhitelist, Pattern, blank, whole, every, leading,
  pattern_of, has_key, put_key, any_prefix, is_allowed, allow_each, allow_pattern, allow,
  settled_allow, only_lan, clean,
}

-- What a pattern means: the address itself, the addresses that begin with what stands before the star,
-- or none where it is blank.
abbrev pub meets : Bytes → Pattern → Bool
meets addr blank = false
meets addr (whole ip) = beq ip addr
meets addr every = true
meets addr (leading p) = has_prefix addr p

unfoldable pub meets_any : Bytes → List Bytes → Bool
meets_any addr [] = false
meets_any addr (ip ∷ ips) = meets addr (pattern_of ip) || meets_any addr ips

-- The address is in the list, whether or not the list is in force.
abbrev pub listed : Bytes → IpWhitelist → Bool
listed addr w = has_key addr w.exact || any_prefix addr w.prefix

has_key-put_key :
    (a ip : Bytes) (ks : List Bytes) → has_key a (put_key ip ks) ≡ (beq ip a || has_key a ks)
unfolding has_key
has_key-put_key a ip ks = elim (Bool-cases (has_key ip ks)) [
  | inl there ↦ elim (Bool-cases (beq ip a)) [
    | inl same ↦ let eq = (beq_iff ip a).0 same in rw (there, same) (rw (← eq) there)
    | inr other ↦ rw (there, other)
  ]
  | inr missing ↦ rw (missing, has_key)
]

-- A prefix that is a key is one of the prefixes.
any_prefix_of_key :
    (a p : Bytes) (ps : List Bytes)
    → has_key p ps ≡ true
    → has_prefix a p ≡ true
    → any_prefix a ps ≡ true
unfolding has_key any_prefix
any_prefix_of_key a p [] there begins = cc
any_prefix_of_key a p (q ∷ ps) there begins = elim (Bool-cases (beq q p)) [
  | inl same ↦ let eq = (beq_iff q p).0 same in rw (eq, begins)
  | inr other ↦ rw (any_prefix_of_key a p ps (rw other at there) begins) (ground arith)
]

any_prefix-put_key :
    (a p : Bytes) (ps : List Bytes)
    → any_prefix a (put_key p ps) ≡ (has_prefix a p || any_prefix a ps)
unfolding any_prefix
any_prefix-put_key a p ps = elim (Bool-cases (has_key p ps)) [
  | inl there ↦ elim (Bool-cases (has_prefix a p)) [
    | inl begins ↦ rw (there, begins, any_prefix_of_key a p ps there begins)
    | inr other ↦ rw (there, other)
  ]
  | inr missing ↦ rw missing
]

listed-allow_pattern :
    (a : Bytes) (p : Pattern) (w : IpWhitelist)
    → is_every p ≡ false
    → listed a (allow_pattern p w) ≡ (meets a p || listed a w)
listed-allow_pattern a blank w h = refl
listed-allow_pattern a every w h = cc
listed-allow_pattern a (whole ip) w h = ground (arith, has_key-put_key a ip w.exact)
listed-allow_pattern a (leading p) w h = ground (arith, any_prefix-put_key a p w.prefix)

allow_pattern-enable : (p : Pattern) (w : IpWhitelist) → (allow_pattern p w).enable ≡ w.enable
allow_pattern-enable blank w = refl
allow_pattern-enable every w = refl
allow_pattern-enable (whole ip) w = refl
allow_pattern-enable (leading p) w = refl

is_allowed-listed : (a : Bytes) (w : IpWhitelist) → w.enable ≡ true → is_allowed a w ≡ listed a w
unfolding is_allowed
is_allowed-listed a w on = ground arith

every-meets : (a : Bytes) (p : Pattern) → is_every p ≡ true → meets a p ≡ true
every-meets a every h = refl
every-meets a blank h = cc
every-meets a (whole ip) h = cc
every-meets a (leading p) h = cc

allow_each_lem :
    (a : Bytes) (ips : List Bytes) (w : IpWhitelist)
    → w.enable ≡ true
    → is_allowed a (settled_allow (allow_each ips w)) ≡ (meets_any a ips || listed a w)
unfolding allow_each meets_any
allow_each_lem a [] w on = is_allowed-listed a w on
allow_each_lem a (ip ∷ ips) w on = elim (Bool-cases (is_every (pattern_of ip))) [
  | inl all ↦ rw (all, every-meets a (pattern_of ip) all) (unfold is_allowed in refl)
  | inr some_only ↦
      let w' = allow_pattern (pattern_of ip) w in
      let ih = allow_each_lem a ips w' (allow_pattern-enable (pattern_of ip) w ∙ on) in
      let one = listed-allow_pattern a (pattern_of ip) w some_only in
      rw (some_only, ih, one) (ground arith)
]

-- After Allow of a list of patterns that is not empty, its goroutine included, an address is let in
-- exactly if it meets one of the patterns or was in the list before, in force or not.
pub allow_lem :
    (a ip : Bytes) (ips : List Bytes) (w : IpWhitelist)
    → is_allowed a (settled_allow (allow (ip ∷ ips) w)) ≡ (meets_any a (ip ∷ ips) || listed a w)
unfolding allow
allow_lem a ip ips w = allow_each_lem a (ip ∷ ips) (record w { enable = true }) refl

-- After OnlyLAN an address is let in exactly if it begins with `[`, `127.`, `192.168.` or `10.`.
pub only_lan_lem :
    (a : Bytes) (w : IpWhitelist)
    → is_allowed a (settled_allow (only_lan w)) ≡ (
        has_prefix a (codes "[")
        || has_prefix a (codes "127.")
        || has_prefix a (codes "192.168.")
        || has_prefix a (codes "10."))
unfolding only_lan pattern_of trim_left trim_right without_star meets_any has_key any_prefix
only_lan_lem a w =
    allow_lem a (codes "[*") (codes "127.*" ∷ codes "192.168.*" ∷ codes "10.*" ∷ []) (clean w)
    ∙ ground arith
