-- ===== src/Rules.antt =====
-- src/rule_manager.py: classification of domains and the blocking rules.
pub mod Domains
pub mod Classify
pub mod Blocking
mod Tests
use dpi_engine_python.Prelude.{
  ℕ, Bool, true, false, not, ◌||◌, Option, none, some, List, [], ◌∷◌, any, if◌then◌else◌,
}
use dpi_engine_python.Prelude.Eq.{◌==◌, nat_eq, list_eq, contains}
use dpi_engine_python.Text.{Str, codes, lower, is_dot, strip, rstrip, ends_with, split_at}
use dpi_engine_python.Types.{
  AppType, unknown, youtube, facebook, google, github, instagram, twitter, amazon, netflix, discord,
  zoom, telegram, tiktok, spotify, cloudflare, microsoft, apple, app_eq,
}

-- The sets are lists here: the code only tests membership in them and walks through them.
pub record RuleManager : Type 0 where
  pub domain_rules : List (Str × AppType)
  pub blocked_ips : List Str
  pub blocked_apps : List AppType
  pub blocked_domains : List Str

abbrev pub default_domain_rules : List (Str × AppType)
default_domain_rules =
    (codes "google.com", google)
    ∷ (codes "facebook.com", facebook)
    ∷ (codes "youtube.com", youtube)
    ∷ (codes "github.com", github)
    ∷ (codes "instagram.com", instagram)
    ∷ (codes "twitter.com", twitter)
    ∷ (codes "amazon.com", amazon)
    ∷ (codes "netflix.com", netflix)
    ∷ (codes "discord.com", discord)
    ∷ (codes "zoom.us", zoom)
    ∷ (codes "telegram.org", telegram)
    ∷ (codes "tiktok.com", tiktok)
    ∷ (codes "spotify.com", spotify)
    ∷ (codes "cloudflare.com", cloudflare)
    ∷ (codes "microsoft.com", microsoft)
    ∷ (codes "apple.com", apple)
    ∷ []

abbrev pub default_blocked_domains : List Str
default_blocked_domains =
    codes "malicious.com"
    ∷ codes "phishing.com"
    ∷ codes "evil-site.net"
    ∷ codes "fake-login.com"
    ∷ []

-- `set(given) if given is not None else default`
abbrev given_or {ℓ} : {A : Type ℓ} → Option A → A → A
given_or none default = default
given_or (some given) default = given

abbrev pub rule_manager :
    Option (List Str) → Option (List AppType) → Option (List Str) → RuleManager
rule_manager ips apps domains = record {
  domain_rules = default_domain_rules;
  blocked_ips = given_or ips (codes "10.0.0.50" ∷ []);
  blocked_apps = given_or apps (facebook ∷ []);
  blocked_domains = given_or domains default_blocked_domains;
}

-- `domain.lower().strip().rstrip(".")`
unfoldable pub normalize : Str → Str
normalize domain = rstrip is_dot (strip (lower domain))

-- `domain == rule_domain or domain.endswith("." + rule_domain)`
abbrev pub is_under : Str → Str → Bool
is_under domain rule_domain = domain == rule_domain || ends_with domain (b'.' ∷ rule_domain)

-- The loop over `domain_rules.items()`.
unfoldable pub first_app : Str → List (Str × AppType) → AppType
first_app domain [] = unknown
first_app domain ((rule_domain, app_type) ∷ rules) =
    if is_under domain (normalize rule_domain) then app_type else first_app domain rules

unfoldable pub classify_domain : RuleManager → Option Str → AppType
classify_domain m (some (c ∷ cs)) = first_app (normalize (c ∷ cs)) m.domain_rules
classify_domain m _ = unknown

unfoldable pub is_ip_blocked : RuleManager → Option Str → Bool
is_ip_blocked m (some (c ∷ cs)) = contains (c ∷ cs) m.blocked_ips
is_ip_blocked m _ = false

-- An enum member is always true, so only None is turned away.
unfoldable pub is_app_blocked : RuleManager → Option AppType → Bool
is_app_blocked m none = false
is_app_blocked m (some app_type) = contains app_type m.blocked_apps

-- The body of the loop over `blocked_domains`.
unfoldable pub blocks : Str → Str → Bool
blocks domain blocked_domain =
    let rule = normalize blocked_domain in
    if not (contains b'.' rule) then contains rule (split_at b'.' domain) else is_under domain rule

unfoldable pub is_domain_blocked : RuleManager → Option Str → Bool
unfolding blocks
is_domain_blocked m (some (c ∷ cs)) = any (blocks (normalize (c ∷ cs))) m.blocked_domains
is_domain_blocked m _ = false
