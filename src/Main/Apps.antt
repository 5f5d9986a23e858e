-- ===== src/Main/Apps.antt =====
-- main.py: the applications that `--block-app` names.
use dpi_engine_python.Prelude.{
  ℕ, ◌-◌, ◌≡◌, refl, sym, ap, ◌∙◌, ◌↔◌, inl, inr, ◌&&◌, Option, none, some, List, [], ◌∷◌, map, leb,
  Bool-cases, if◌then◌else◌,
}
use dpi_engine_python.Prelude.Eq.{◌==◌, list_eq, nat_eq, beq-eq-true}
use dpi_engine_python.Prelude.Result.{Error, Result, ok, err, ok-inj, ◌>>=◌}
use dpi_engine_python.Text.{Str, strip}
use dpi_engine_python.Types.{AppType, app_name}

unfoldable pub upper_code : ℕ → ℕ
upper_code c = if leb b'a' c && leb c b'z' then c - 32 else c

-- `str.upper` on ASCII.
abbrev pub upper : Str → Str
upper = map upper_code

-- The members of `AppType`, in order.
abbrev pub all_apps : List AppType
all_apps =
    AppType.unknown ∷ AppType.http ∷ AppType.https ∷ AppType.youtube ∷ AppType.facebook
    ∷ AppType.google ∷ AppType.github ∷ AppType.instagram ∷ AppType.twitter ∷ AppType.amazon
    ∷ AppType.netflix ∷ AppType.discord ∷ AppType.zoom ∷ AppType.telegram ∷ AppType.tiktok
    ∷ AppType.spotify ∷ AppType.cloudflare ∷ AppType.microsoft ∷ AppType.apple ∷ []

unfoldable pub app_with : List AppType → Str → Result AppType
app_with [] value = err Error.value_error
app_with (app ∷ apps) value = if app_name app == value then ok app else app_with apps value

-- `AppType(value)`
unfoldable pub app_of : Str → Result AppType
app_of value = app_with all_apps value

-- `AppType(name.strip().upper())`
unfoldable pub app_named : Str → Result AppType
app_named name = app_of (upper (strip name))

unfoldable pub apps_named : List Str → Result (List AppType)
apps_named [] = ok []
apps_named (name ∷ names) = do app ← app_named name; apps ← apps_named names; ok (app ∷ apps)

abbrev with_apps : Result (List AppType) → Result (Option (List AppType))
with_apps (ok apps) = ok (some apps)
with_apps (err e) = err e

-- `[...] if args.block_app else None`
unfoldable pub blocked_apps : Option (List Str) → Result (Option (List AppType))
blocked_apps none = ok none
blocked_apps (some []) = ok none
blocked_apps (some (name ∷ names)) = with_apps (apps_named (name ∷ names))

app_with-name :
    (apps : List AppType) (value : Str) (app : AppType)
    → app_with apps value ≡ ok app
    → app_name app ≡ value
unfolding app_with
app_with-name [] value app h = absurd cc
app_with-name (first ∷ apps) value app h = elim (Bool-cases (app_name first == value)) [
  | inl same ↦ ap app_name (sym (ok-inj (rw same at h))) ∙ beq-eq-true (app_name first) value same
  | inr other ↦ app_with-name apps value app (rw other at h)
]

app_of-app_name : (app : AppType) → app_of (app_name app) ≡ ok app
unfolding app_of app_with app_name
app_of-app_name AppType.unknown = refl
app_of-app_name AppType.http = refl
app_of-app_name AppType.https = refl
app_of-app_name AppType.youtube = refl
app_of-app_name AppType.facebook = refl
app_of-app_name AppType.google = refl
app_of-app_name AppType.github = refl
app_of-app_name AppType.instagram = refl
app_of-app_name AppType.twitter = refl
app_of-app_name AppType.amazon = refl
app_of-app_name AppType.netflix = refl
app_of-app_name AppType.discord = refl
app_of-app_name AppType.zoom = refl
app_of-app_name AppType.telegram = refl
app_of-app_name AppType.tiktok = refl
app_of-app_name AppType.spotify = refl
app_of-app_name AppType.cloudflare = refl
app_of-app_name AppType.microsoft = refl
app_of-app_name AppType.apple = refl

-- An argument of `--block-app` is accepted for an application exactly when, without the space around
-- it and in capitals, it is the name of that application.
pub app_named_iff :
    (name : Str) (app : AppType) → (app_named name ≡ ok app) ↔ (upper (strip name) ≡ app_name app)
unfolding app_named app_of
app_named_iff name app =
    (λ h. sym (app_with-name all_apps (upper (strip name)) app h), λ e. rw e (app_of-app_name app))
