-- ===== src/Updates/Access.antt =====
-- Who may call the handlers of server/src/handlers/updates.rs, and the Agent's token.
use luminos.Prelude.{
  Bool, true, false, Option, none, some, List, [], ◌∷◌, Result, ok, err, ok_or, ◌||◌, if◌then◌else◌,
}
use luminos.Text.{
  Text, codes, text_eq, is_empty, starts_with, trim, lines, split_once, without_prefix,
}
use luminos.State.Types.{ℤ}
use luminos.Distribution.Policy.{is_text}
use luminos.Updates.Server.{Response, error_response, Site, Handler, lift}

-- The Authorization header, `none` if there is none or it is not text.
abbrev pub Headers : Type 0
Headers = Option Text

unfoldable pub get_user_id : Site → Headers → Option ℤ
get_user_id site none = none
get_user_id site (some auth) = site.decode_token (without_prefix auth (codes "Bearer "))

abbrev pub unauthorized : Response
unauthorized = error_response 401 (codes "unauthorized")

abbrev pub forbidden : Response
forbidden = error_response 403 (codes "forbidden")

abbrev checked_role : Site → Option ℤ → Result Response ℤ
checked_role site none = err unauthorized
checked_role site (some user_id) =
    if is_text (site.role_of user_id) (codes "admin") then ok user_id else err forbidden

unfoldable pub admin_result : Site → Headers → Result Response ℤ
unfolding get_user_id
admin_result site headers = checked_role site (get_user_id site headers)

unfoldable pub require_admin : Site → Headers → Handler ℤ
require_admin site headers = lift (admin_result site headers)

abbrev is_comment : Text → Bool
is_comment line = is_empty line || starts_with line (codes "#")

abbrev nonempty_token : Text → Option Text
nonempty_token token = if is_empty token then none else some token

-- The loop over the lines; the texts of the errors are left out.
unfoldable pub find_token : List Text → Option Text
find_token [] = none
find_token (raw ∷ rest) =
    let line = trim raw in
    elim (is_comment line) [
      | true ↦ find_token rest
      | false ↦ elim (split_once b'=' line) [
        | none ↦ find_token rest
        | some (key, value) ↦ elim (text_eq (trim key) (codes "PHOTOOS_UPDATE_TOKEN")) [
          | true ↦ nonempty_token (trim value)
          | false ↦ find_token rest
        ]
      ]
    ]

abbrev token_in : Option Text → Option Text
token_in none = none
token_in (some content) = find_token (lines content)

unfoldable pub token_result : Site → Result Response Text
unfolding find_token
token_result site =
    ok_or (error_response 500 (codes "agent_configuration_error")) (token_in site.env_file)

unfoldable pub read_update_token : Site → Handler Text
read_update_token site = lift (token_result site)
