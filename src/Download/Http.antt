-- ===== src/Download/Http.antt =====
-- The redirect loop and the signature download of server/src/update_download.rs.
use luminos.Prelude.{
  ℕ, zero, suc, ◌+◌, Bool, true, false, ◌&&◌, not, Option, none, some, List, [], ◌∷◌, ◌++◌, Result,
  ok, err, ◌>>=◌, ◌>>◌, refuse_if, ok_or, map_err, ltb, leb, if◌then◌else◌, length,
}
use luminos.Text.{Text, is_empty, u64_modulus}
use luminos.Distribution.Policy.{
  Url, max_redirects, max_signature_bytes, can_follow_redirect, validate_redirect_target,
}
use luminos.Download.Files.{
  DownloadError, http, http_status, invalid_redirect, too_many_redirects, invalid_signature,
  signature_too_large,
}

-- A response; `location` is the header, `some none` if it is not text. A chunk can fail.
pub record Response : Type 0 where
  pub status : ℕ
  pub location : Option (Option Text)
  pub chunks : List (Option Text)

-- reqwest: one request without redirects (`none` is a transport error), `Url::parse`, and
-- `Url::join` as text; ring's Ed25519 and sha2's digest in lower-case hex.
pub record Net : Type 0 where
  pub send : Text → Option Response
  pub parse_url : Text → Option Url
  pub join_url : Text → Text → Option Text
  pub ed25519 : Text → Text → Text → Bool
  pub sha256_hex : Text → Text

abbrev pub is_redirection : ℕ → Bool
is_redirection status = leb 300 status && ltb status 400

abbrev pub is_success : ℕ → Bool
is_success status = leb 200 status && ltb status 300

-- The next URL of a redirect, after `followed` of them.
unfoldable pub redirect_target : Net → Text → ℕ → Response → Result DownloadError Text
redirect_target net url followed response = do
  refuse_if (not (can_follow_redirect followed)) too_many_redirects
  header ← ok_or invalid_redirect response.location
  location ← ok_or invalid_redirect header
  next ← ok_or invalid_redirect (net.join_url url location)
  map_err (λ e. invalid_redirect) (validate_redirect_target net.parse_url next)
  refuse_if (ltb max_redirects (followed + 1)) too_many_redirects
  ok next

-- The `loop` with fuel; without fuel it gives up like one redirect too many.
unfoldable pub redirect_loop : Net → ℕ → ℕ → Text → Result DownloadError Response
redirect_loop net zero followed url = err too_many_redirects
redirect_loop net (suc fuel) followed url = do
  response ← ok_or http (net.send url)
  elim (is_redirection response.status) [
    | false ↦ ok response
    | true ↦ redirect_target net url followed response >>= redirect_loop net fuel (followed + 1)
  ]

unfoldable pub response_with_redirects : Net → Text → Result DownloadError Response
response_with_redirects net initial_url = redirect_loop net 4 0 initial_url

unfoldable pub read_signature : ℕ → Text → List (Option Text) → Result DownloadError Text
read_signature total signature [] = ok signature
read_signature total signature (none ∷ rest) = err http
read_signature total signature (some chunk ∷ rest) =
    let total' = total + length chunk in
    let next = read_signature total' (signature ++ chunk) rest in
    if not (ltb total' u64_modulus)
    then err signature_too_large
    else if ltb max_signature_bytes total'
    then err signature_too_large
    else next

unfoldable pub fetch_signature : Net → Text → Result DownloadError Text
fetch_signature net url = do
  response ← response_with_redirects net url
  refuse_if (not (is_success response.status)) (http_status response.status)
  signature ← read_signature 0 [] response.chunks
  refuse_if (is_empty signature) invalid_signature
  ok signature
