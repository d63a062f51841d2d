-- ===== src/Profile.antt =====
-- The profile page, web-app/app/settings/profile/page.tsx: its state, its handlers and what it shows.
pub mod Laws
use stock_anomoly_detection.Prelude.{
  ℕ, ◌≡◌, refl, Bool, true, false, not, ◌||◌, List, [], ◌∷◌, Option, none, some, if◌then◌else◌,
  ◌==◌,
}
use stock_anomoly_detection.Text.{Text, codes}

pub record UserProfile : Type 0 where
  pub email : Text
  pub name : Text
  pub phone_number : Option Text
  pub has_kis_api_key : Bool

pub data Message : Type 0 where
  success : Text → Message
  error : Text → Message

pub record ProfilePage : Type 0 where
  pub profile : Option UserProfile
  pub kis_api_key : Text
  pub kis_secret_key : Text
  pub loading : Bool
  pub saving : Bool
  pub message : Option Message
  -- where the router was told to go, if anywhere
  pub route : Option Text

abbrev pub initial : ProfilePage
initial = record {
  profile = none;
  kis_api_key = [];
  kis_secret_key = [];
  loading = true;
  saving = false;
  message = none;
  route = none;
}

-- The effect: without a token to the login page, else the profile is asked for with the token.
unfoldable pub enter : Option Text → ProfilePage → ProfilePage × Option Text
enter none p = (record p { route = some (codes "/auth/login") }, none)
enter (some []) p = (record p { route = some (codes "/auth/login") }, none)
enter (some (c ∷ s)) p = (p, some (c ∷ s))

-- an answer: an exception, a status that is no success with the answer's text, or a body
pub data Answer (A : Type 0) : Type 0 where
  failed : Answer A
  not_ok : ℕ → Text → Answer A
  ok : A → Answer A

-- `fetchProfile`, from its `await` on
unfoldable pub on_profile : Answer UserProfile → ProfilePage → ProfilePage
on_profile failed p = record p { loading = false }
on_profile (not_ok status text) p =
    if status == 401
    then record p { route = some (codes "/auth/login"); loading = false }
    else record p { loading = false }
on_profile (ok profile) p = record p { profile = some profile; loading = false }

pub record KeysRequest : Type 0 where
  pub kis_api_key : Text
  pub kis_secret_key : Text

-- `!text`
abbrev pub is_empty : Text → Bool
is_empty [] = true
is_empty (c ∷ s) = false

-- `handleSaveKisKeys` up to its `await`
unfoldable pub save_kis_keys : ProfilePage → ProfilePage × Option KeysRequest
save_kis_keys p = if is_empty p.kis_api_key || is_empty p.kis_secret_key then (p, none) else (
  record p { saving = true; message = none },
  some (record { kis_api_key = p.kis_api_key; kis_secret_key = p.kis_secret_key }),
)

abbrev pub with_key : Option UserProfile → Option UserProfile
with_key none = none
with_key (some u) = some (record u { has_kis_api_key = true })

abbrev pub or_default : Text → Text → Text
or_default [] d = d
or_default (c ∷ s) d = c ∷ s

-- `onChange` of the two inputs
unfoldable pub set_kis_api_key : Text → ProfilePage → ProfilePage
set_kis_api_key text p = record p { kis_api_key = text }

unfoldable pub set_kis_secret_key : Text → ProfilePage → ProfilePage
set_kis_secret_key text p = record p { kis_secret_key = text }

abbrev pub saved_text : Text
saved_text = codes "KIS API 키가 성공적으로 저장되었습니다."

abbrev pub failed_text : Text
failed_text = codes "저장에 실패했습니다. 다시 시도해주세요."

abbrev pub unreachable_text : Text
unreachable_text = codes "서버 연결에 실패했습니다."

-- `handleSaveKisKeys`, from its `await` on
unfoldable pub on_saved : Answer (Unit {0}) → ProfilePage → ProfilePage
on_saved failed p = record p { message = some (error unreachable_text); saving = false }
on_saved (not_ok status text) p = record p {
  message = some (error (or_default text failed_text));
  saving = false;
}
on_saved (ok _) p = record p {
  message = some (success saved_text);
  kis_api_key = [];
  kis_secret_key = [];
  profile = with_key p.profile;
  saving = false;
}

-- `value ?? "-"`
abbrev pub or_dash : Option Text → Text
or_dash none = codes "-"
or_dash (some t) = t

abbrev pub map_profile : {A : Type 0} → (UserProfile → A) → Option UserProfile → Option A
map_profile f none = none
map_profile f (some u) = some (f u)

abbrev pub flat_profile : {A : Type 0} → (UserProfile → Option A) → Option UserProfile → Option A
flat_profile f none = none
flat_profile f (some u) = f u

-- `profile?.hasKisApiKey`, as a condition
abbrev pub registered : Option UserProfile → Bool
registered none = false
registered (some u) = u.has_kis_api_key

-- The texts of the page, without its styling.
pub record Shown : Type 0 where
  pub name : Text
  pub phone_number : Text
  pub email : Text
  pub key_registered : Bool
  pub key_label : Text
  pub secret_label : Text
  pub message : Option Message
  pub button : Text
  pub button_disabled : Bool

abbrev pub button_text : Bool → Bool → Text
button_text true has_key = codes "저장 중..."
button_text false true = codes "API 키 변경"
button_text false false = codes "API 키 등록"

-- What is rendered: none is the spinner of a page that still loads.
unfoldable pub render : ProfilePage → Option Shown
render p =
    if p.loading
    then none
    else some (record {
      name = or_dash (map_profile (λ u. u.name) p.profile);
      phone_number = or_dash (flat_profile (λ u. u.phone_number) p.profile);
      email = or_dash (map_profile (λ u. u.email) p.profile);
      key_registered = registered p.profile;
      key_label = if registered p.profile then codes "App Key 변경" else codes "App Key";
      secret_label = if registered p.profile then codes "Secret Key 변경" else codes "Secret Key";
      message = p.message;
      button = button_text p.saving (registered p.profile);
      button_disabled = p.saving;
    })
