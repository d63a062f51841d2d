-- ===== src/Views/Forms.antt =====
-- What the login and the signup page show, without their styling, and the text they hold:
-- web-app/app/auth/login/page.tsx and web-app/app/auth/signup/page.tsx.
use stock_anomoly_detection.Prelude.{
  ◌≡◌, Bool, true, false, not, List, [], ◌∷◌, if◌then◌else◌, arith,
}
use stock_anomoly_detection.Text.{Text, codes}
use stock_anomoly_detection.Auth.{Browser}

-- The state of the login page besides `loading`.
pub record LoginForm : Type 0 where
  pub email : Text
  pub password : Text

abbrev pub blank_login : LoginForm
blank_login = record { email = []; password = [] }

-- `setEmail` and `setPassword`
unfoldable pub set_email : Text → LoginForm → LoginForm
set_email text form = record form { email = text }

unfoldable pub set_password : Text → LoginForm → LoginForm
set_password text form = record form { password = text }

-- The inputs of the signup page, by their `id`.
pub data FieldId : Type 0 where
  email password name phone_number kis_api_key kis_secret_key : FieldId

-- `formData`
pub record FormData : Type 0 where
  pub email : Text
  pub password : Text
  pub name : Text
  pub phone_number : Text
  pub kis_api_key : Text
  pub kis_secret_key : Text

abbrev pub blank_signup : FormData
blank_signup = record {
  email = [];
  password = [];
  name = [];
  phone_number = [];
  kis_api_key = [];
  kis_secret_key = [];
}

-- `handleChange`: `{ ...formData, [e.target.id]: e.target.value }`
unfoldable pub handle_change : FieldId → Text → FormData → FormData
handle_change email text form = record form { email = text }
handle_change password text form = record form { password = text }
handle_change name text form = record form { name = text }
handle_change phone_number text form = record form { phone_number = text }
handle_change kis_api_key text form = record form { kis_api_key = text }
handle_change kis_secret_key text form = record form { kis_secret_key = text }

-- the `value` of an input
unfoldable pub field_value : FormData → FieldId → Text
field_value form email = form.email
field_value form password = form.password
field_value form name = form.name
field_value form phone_number = form.phone_number
field_value form kis_api_key = form.kis_api_key
field_value form kis_secret_key = form.kis_secret_key

-- One input: hidden are those of type "password".
pub record Field : Type 0 where
  pub label : Text
  pub placeholder : Text
  pub value : Text
  pub hidden : Bool
  pub required : Bool

pub record Form : Type 0 where
  pub title : Text
  pub description : Text
  pub fields : List Field
  pub submit_text : Text
  pub disabled : Bool
  pub arrow : Bool
  pub link : Text

unfoldable pub render_login : LoginForm → Browser → Form
render_login form b = record {
  title = codes "로그인";
  description = codes "이메일과 비밀번호를 입력해주세요.";
  fields =
      record {
        label = codes "이메일";
        placeholder = codes "name@example.com";
        value = form.email;
        hidden = false;
        required = true;
      }
      ∷ record {
        label = codes "비밀번호";
        placeholder = [];
        value = form.password;
        hidden = true;
        required = true;
      }
      ∷ [];
  submit_text = if b.loading then codes "로그인 중..." else codes "로그인";
  disabled = b.loading;
  arrow = not b.loading;
  link = codes "/auth/signup";
}

unfoldable pub signup_field : FormData → FieldId → Field
signup_field form email = record {
  label = codes "이메일";
  placeholder = codes "name@example.com";
  value = field_value form email;
  hidden = false;
  required = true;
}
signup_field form password = record {
  label = codes "비밀번호";
  placeholder = [];
  value = field_value form password;
  hidden = true;
  required = true;
}
signup_field form name = record {
  label = codes "이름";
  placeholder = codes "홍길동";
  value = field_value form name;
  hidden = false;
  required = true;
}
signup_field form phone_number = record {
  label = codes "전화번호";
  placeholder = codes "010-1234-5678";
  value = field_value form phone_number;
  hidden = false;
  required = false;
}
signup_field form kis_api_key = record {
  label = codes "App Key";
  placeholder = codes "발급받은 App Key";
  value = field_value form kis_api_key;
  hidden = false;
  required = false;
}
signup_field form kis_secret_key = record {
  label = codes "Secret Key";
  placeholder = codes "발급받은 Secret Key";
  value = field_value form kis_secret_key;
  hidden = true;
  required = false;
}

unfoldable pub render_signup : FormData → Browser → Form
render_signup form b = record {
  title = codes "회원가입";
  description = codes "사용자 정보 및 KIS API 키를 등록해주세요.";
  fields =
      signup_field form name
      ∷ signup_field form phone_number
      ∷ signup_field form email
      ∷ signup_field form password
      ∷ signup_field form kis_api_key
      ∷ signup_field form kis_secret_key
      ∷ [];
  submit_text = if b.loading then codes "가입 진행 중..." else codes "가입하기";
  disabled = b.loading;
  arrow = not b.loading;
  link = codes "/auth/login";
}

-- `id === other` for the ids of the inputs
abbrev pub same : FieldId → FieldId → Bool
same email email = true
same password password = true
same name name = true
same phone_number phone_number = true
same kis_api_key kis_api_key = true
same kis_secret_key kis_secret_key = true
same _ _ = false

-- Typing into an input of the signup page gives that input the text and leaves the value of every
-- other input as it was.
pub handle_change_lem :
    (id other : FieldId) (text : Text) (form : FormData)
    → field_value (handle_change id text form) other
      ≡ (if same id other then text else field_value form other)
unfolding field_value handle_change
handle_change_lem id other text form = ground arith
