-- ===== src/Http.antt =====
-- What the handlers of both programs write to an `http.ResponseWriter`: the status, the headers and
-- the body, which is a text or a value that encoding/json writes out.
use classic_cheese.Prelude.{ℕ, String, List, [], ◌∷◌, String_discrete}
use classic_cheese.Prelude.Dict.{insert}
use classic_cheese.Prelude.Text.{concat}

pub data Body {ℓ} (A : Type ℓ) : Type ℓ where
  text : String → Body A
  json : A → Body A

abbrev pub Headers : Type 0
Headers = List (String × String)

pub record Reply {ℓ} (A : Type ℓ) : Type ℓ where
  pub status : ℕ
  pub headers : Headers
  pub body : Body A

abbrev pub status_ok : ℕ
status_ok = 200

abbrev pub status_bad_request : ℕ
status_bad_request = 400

abbrev pub status_method_not_allowed : ℕ
status_method_not_allowed = 405

abbrev pub status_internal_server_error : ℕ
status_internal_server_error = 500

-- `w.Header().Set(key, value)`.
abbrev pub set_header : String → String → Headers → Headers
set_header = insert String_discrete

-- `http.Error(w, message, status)` of net/http.
unfoldable pub http_error {ℓ} : {A : Type ℓ} → Headers → String → ℕ → Reply A
unfolding concat
http_error headers message status = record {
  status = status;
  headers =
      set_header "X-Content-Type-Options" "nosniff"
        (set_header "Content-Type" "text/plain; charset=utf-8" headers);
  body = text (concat (message ∷ "\n" ∷ []));
}
