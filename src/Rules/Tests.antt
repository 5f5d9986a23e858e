-- ===== src/Rules/Tests.antt =====
-- Runs of src/rule_manager.py, and instances of its theorems.
use dpi_engine_python.Prelude.{◌≡◌, refl, inl, ◌↔◌, true, none, some, In}
use dpi_engine_python.Rules.{
  RuleManager, default_domain_rules, rule_manager, normalize, first_app, classify_domain,
  is_domain_blocked, blocks,
}
use dpi_engine_python.Rules.Blocking.{Covers, is_domain_blocked_iff}
use dpi_engine_python.Rules.Classify.{classify_domain-default}
use dpi_engine_python.Text.{Str, codes, lower_code, is_space, strip}
use dpi_engine_python.Types.{unknown, google, youtube}

abbrev defaults : RuleManager
defaults = rule_manager none none none

classify_www : classify_domain defaults (some (codes " WWW.Google.com. ")) ≡ google
unfolding classify_domain first_app normalize lower_code is_space strip
classify_www = refl

classify_other : classify_domain defaults (some (codes "notgoogle.com")) ≡ unknown
unfolding classify_domain first_app normalize lower_code is_space strip
classify_other = refl

block_ads : is_domain_blocked defaults (some (codes "x.Malicious.com")) ≡ true
unfolding is_domain_blocked blocks normalize lower_code is_space strip
block_ads = refl

classify_youtube : classify_domain defaults (some (codes "www.youtube.com")) ≡ youtube
unfolding classify_domain first_app normalize lower_code is_space strip
classify_youtube = refl

google_found : In (codes "google.com", google) default_domain_rules
google_found = inl refl

classify_domain-default_example : classify_domain defaults (some (codes "mail.google.com")) ≡ google
classify_domain-default_example =
    classify_domain-default defaults (codes "mail.google.com") (codes "google.com") google refl
      google_found (codes ".mail", refl) (λ e. cc)

is_domain_blocked_iff_example :
    (is_domain_blocked defaults (some (codes "evil-site.net")) ≡ true) ↔ (
      (rule : Str) × In rule defaults.blocked_domains
      × Covers (normalize (codes "evil-site.net")) (normalize rule))
is_domain_blocked_iff_example = is_domain_blocked_iff defaults (codes "evil-site.net") (λ e. cc)
