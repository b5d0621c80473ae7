-- ===== src/Plugin/Whitelist.antt =====
-- plugin/ip_whitelist/ip_whitelist.go: IPWhitelistPlugin. A map to true is the list of its keys; white
-- space is that of ASCII.
pub mod Patterns
pub mod Texts
pub mod Allowed
mod Tests
use myrpc.Base.{
  ℕ, Bytes, codes, beq, is_empty, has_prefix, List, [], ◌∷◌, ◌++◌, Option, none, some, Bool, true,
  false, not, ◌&&◌, ◌||◌, ◌==◌, leb, if◌then◌else◌,
}
use myrpc.Common.Errors.{Error, message}

pub record IpWhitelist : Type 0 where
  pub exact : List Bytes
  pub prefix : List Bytes
  pub enable : Bool

-- `strings.TrimSpace`.
abbrev pub is_space : ℕ → Bool
is_space d = (leb 9 d && leb d 13) || (d == 32)

unfoldable pub trim_left : Bytes → Bytes
trim_left [] = []
trim_left (d ∷ s) = let rest = trim_left s in if is_space d then rest else d ∷ s

unfoldable pub trim_right : Bytes → Bytes
trim_right [] = []
trim_right (d ∷ s) = let rest = trim_right s in if is_space d && is_empty rest then [] else d ∷ rest

abbrev pub trim_space : Bytes → Bytes
trim_space s = trim_right (trim_left s)

-- `ip[:length-1]` where `ip` ends in `*`, and nothing where it does not.
unfoldable pub without_star : Bytes → Option Bytes
without_star [] = none
without_star (d ∷ []) = if d == b'*' then some [] else none
without_star (d ∷ e ∷ s) =
    let rest = without_star (e ∷ s) in elim rest [ none ↦ none | some p ↦ some (d ∷ p) ]

-- What `Allow` makes of one pattern.
pub data Pattern : Type 0 where
  blank : Pattern
  whole : Bytes → Pattern
  every : Pattern
  leading : Bytes → Pattern

abbrev pub leading_of : Bytes → Option Bytes → Pattern
leading_of ip none = whole ip
leading_of ip (some []) = every
leading_of ip (some (d ∷ p)) = leading (d ∷ p)

abbrev pub trimmed_pattern : Bytes → Pattern
trimmed_pattern [] = blank
trimmed_pattern (d ∷ ip) = leading_of (d ∷ ip) (without_star (d ∷ ip))

unfoldable pub pattern_of : Bytes → Pattern
unfolding trim_left trim_right without_star
pattern_of ip = trimmed_pattern (trim_space ip)

-- `m[ip]`, `m[ip] = true` and `delete(m, ip)`.
unfoldable pub has_key : Bytes → List Bytes → Bool
has_key ip [] = false
has_key ip (k ∷ ks) = beq k ip || has_key ip ks

abbrev pub put_key : Bytes → List Bytes → List Bytes
put_key ip ks = if has_key ip ks then ks else ip ∷ ks

unfoldable pub delete_key : Bytes → List Bytes → List Bytes
delete_key ip [] = []
delete_key ip (k ∷ ks) = let rest = delete_key ip ks in if beq k ip then rest else k ∷ rest

-- The range loop of `IsAllowed`.
unfoldable pub any_prefix : Bytes → List Bytes → Bool
any_prefix addr [] = false
any_prefix addr (p ∷ ps) = has_prefix addr p || any_prefix addr ps

unfoldable pub is_allowed : Bytes → IpWhitelist → Bool
unfolding has_key any_prefix
is_allowed addr w = if not w.enable || has_key addr w.exact then true else any_prefix addr w.prefix

abbrev pub free_access : IpWhitelist → IpWhitelist
free_access w = record { exact = []; prefix = []; enable = false }

abbrev pub clean : IpWhitelist → IpWhitelist
clean w = record { exact = []; prefix = []; enable = true }

abbrev pub no_access : IpWhitelist → IpWhitelist
no_access = clean

abbrev pub new_ip_whitelist : IpWhitelist
new_ip_whitelist = free_access (record { exact = []; prefix = []; enable = false })

abbrev pub is_every : Pattern → Bool
is_every every = true
is_every _ = false

abbrev pub allow_pattern : Pattern → IpWhitelist → IpWhitelist
allow_pattern (whole ip) w = record w { exact = put_key ip w.exact }
allow_pattern (leading p) w = record w { prefix = put_key p w.prefix }
allow_pattern _ w = w

-- The loop of `Allow`. It ends at the pattern `*`, and starts a goroutine that runs FreeAccess: the
-- second result says so.
unfoldable pub allow_each : List Bytes → IpWhitelist → IpWhitelist × Bool
unfolding pattern_of
allow_each [] w = (w, false)
allow_each (ip ∷ ips) w =
    let rest = allow_each ips (allow_pattern (pattern_of ip) w) in
    if is_every (pattern_of ip) then (w, true) else rest

unfoldable pub allow : List Bytes → IpWhitelist → IpWhitelist × Bool
unfolding allow_each
allow [] w = (w, false)
allow (ip ∷ ips) w = allow_each (ip ∷ ips) (record w { enable = true })

abbrev pub cancel_pattern : Pattern → IpWhitelist → IpWhitelist
cancel_pattern (whole ip) w = record w { exact = delete_key ip w.exact }
cancel_pattern (leading p) w = record w { prefix = delete_key p w.prefix }
cancel_pattern _ w = w

-- The loop of `CancelAllow`, whose goroutine runs Clean.
unfoldable pub cancel_each : List Bytes → IpWhitelist → IpWhitelist × Bool
unfolding pattern_of delete_key
cancel_each [] w = (w, false)
cancel_each (ip ∷ ips) w =
    let rest = cancel_each ips (cancel_pattern (pattern_of ip) w) in
    if is_every (pattern_of ip) then (w, true) else rest

unfoldable pub cancel_allow : List Bytes → IpWhitelist → IpWhitelist × Bool
unfolding cancel_each
cancel_allow [] w = (w, false)
cancel_allow (ip ∷ ips) w = cancel_each (ip ∷ ips) (record w { enable = true })

-- The list once the goroutine of `Allow`, if there is one, has run.
abbrev pub settled_allow : IpWhitelist × Bool → IpWhitelist
settled_allow (w, spawned) = if spawned then free_access w else w

abbrev pub only_lan_patterns : List Bytes
only_lan_patterns = codes "[*" ∷ codes "127.*" ∷ codes "192.168.*" ∷ codes "10.*" ∷ []

unfoldable pub only_lan : IpWhitelist → IpWhitelist × Bool
unfolding allow
only_lan w = allow only_lan_patterns (no_access w)

-- `PostConnAccept`; the address without its port is `net.SplitHostPort`'s.
unfoldable pub accept_ip : Bytes → IpWhitelist → Option Error
unfolding is_allowed
accept_ip ip w =
    if not (is_allowed ip w) then some (message (codes "not allowed client ip: " ++ ip)) else none
