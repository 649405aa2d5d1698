-- ===== src/Discovery/Fetch.antt =====
-- `fetch_bounded` of server/src/update_discovery.rs: a response body of a limited size.
use luminos.Prelude.{
  ℕ, ◌+◌, ◌≤◌, ◌<◌, ◌≡◌, refl, ◌↔◌, Bool, true, false, ◌&&◌, ◌||◌, not, Option, none, some, List,
  [], ◌∷◌, ◌++◌, Result, ok, err, ◌>>=◌, ◌>>◌, refuse_if, ok_or, ltb, leb, ◌==◌, if◌then◌else◌,
  length, arith, length-append, Result-cases, Option-cases, inl, inr, sym, ap, ◌∙◌,
}
use mathlib.Core.List.{append-nil, append_assoc}
use native.Mathlib.Nat.{add-zero}
use luminos.Text.{Text, u64_modulus}
use luminos.Discovery.Types.{
  DiscoveryError, http, http_status, response_too_large, Response, Crates,
}

abbrev pub is_redirection : ℕ → Bool
is_redirection status = leb 300 status && ltb status 400

abbrev pub is_success : ℕ → Bool
is_success status = leb 200 status && ltb status 300

-- The `while let Some(chunk)` loop; `total` and `body` are its variables.
unfoldable pub read_chunks : ℕ → ℕ → Text → List (Option Text) → Result DiscoveryError (ℕ × Text)
read_chunks maximum total body [] = ok (total, body)
read_chunks maximum total body (none ∷ rest) = err http
read_chunks maximum total body (some chunk ∷ rest) =
    let total' = total + length chunk in
    let next = read_chunks maximum total' (body ++ chunk) rest in
    if not (ltb total' u64_modulus)
    then err response_too_large
    else if ltb maximum total'
    then err response_too_large
    else next

abbrev pub is_bad_length : ℕ → Option ℕ → Bool
is_bad_length maximum none = false
is_bad_length maximum (some n) = n == 0 || ltb maximum n

unfoldable pub read_bounded : ℕ → Response → Result DiscoveryError Text
unfolding read_chunks
read_bounded maximum response = do
  refuse_if (is_redirection response.status) (http_status response.status)
  refuse_if (not (is_success response.status)) (http_status response.status)
  refuse_if (is_bad_length maximum response.content_length) response_too_large
  body ← read_chunks maximum 0 [] response.chunks
  refuse_if (body.0 == 0) response_too_large
  ok body.1

unfoldable pub fetch_bounded : Crates → Text → ℕ → Result DiscoveryError Text
fetch_bounded x url maximum = do response ← ok_or http (x.send url); read_bounded maximum response

-- All chunks joined; `none` if the transport fails in one of them.
abbrev pub concat : List (Option Text) → Option Text
concat [] = some []
concat (none ∷ rest) = none
concat (some chunk ∷ rest) = elim (concat rest) [ none ↦ none | some s ↦ some (chunk ++ s) ]

read_chunks-ok :
    (maximum total : ℕ) (body : Text) (chunks : List (Option Text)) (n : ℕ) (out : Text)
    → total ≡ length body
    → total ≤ maximum
    → read_chunks maximum total body chunks ≡ ok (n, out)
    → (n ≡ length out) × (n ≤ maximum)
unfolding read_chunks
read_chunks-ok maximum total body [] n out h b e = (ground arith, ground arith)
read_chunks-ok maximum total body (none ∷ rest) n out h b e = cc
read_chunks-ok maximum total body (some chunk ∷ rest) n out h b e =
    read_chunks-ok maximum (total + length chunk) (body ++ chunk) rest n out
      (omega (arith, length-append body chunk)) (ground arith) (ground arith)

read_chunks-concat :
    (maximum total : ℕ) (body : Text) (chunks : List (Option Text)) (n : ℕ) (out : Text)
    → read_chunks maximum total body chunks ≡ ok (n, out)
    → (s : Text) × (concat chunks ≡ some s) × (out ≡ body ++ s)
unfolding read_chunks
read_chunks-concat maximum total body [] n out e =
    let same : out ≡ body = ground arith in ([], refl, same ∙ sym (append-nil body))
read_chunks-concat maximum total body (none ∷ rest) n out e = cc
read_chunks-concat maximum total body (some chunk ∷ rest) n out e =
    let (s, joined, same) =
      read_chunks-concat maximum (total + length chunk) (body ++ chunk) rest n out (ground arith) in
    (chunk ++ s, rw joined, same ∙ append_assoc body chunk s)

read_chunks_complete :
    (maximum total : ℕ) (body : Text) (chunks : List (Option Text)) (s : Text)
    → concat chunks ≡ some s
    → total + length s ≤ maximum
    → maximum < u64_modulus
    → read_chunks maximum total body chunks ≡ ok (total + length s, body ++ s)
unfolding read_chunks
read_chunks_complete maximum total body [] s e b m =
    let same : s ≡ [] = ground arith in rw same (rw (append-nil body, add-zero total))
read_chunks_complete maximum total body (none ∷ rest) s e b m = cc
read_chunks_complete maximum total body (some chunk ∷ rest) s e b m =
    elim (Option-cases (concat rest)) [
      | inl missing ↦ absurd (ground arith)
      | inr (t, joined) ↦
          let same : s ≡ chunk ++ t = ground arith in
          let sized : length s ≡ length chunk + length t = ap length same ∙ length-append chunk t in
          let ih =
            read_chunks_complete maximum (total + length chunk) (body ++ chunk) rest t joined
              (omega arith) m in
          let whole : body ++ s ≡ (body ++ chunk) ++ t =
            ap (λ u. body ++ u) same ∙ sym (append_assoc body chunk t) in
          rw (whole, sized) (ground (arith, ih))
    ]

-- The body of a response that `fetch_bounded` may return.
pub record IsBounded (maximum : ℕ) (response : Response) (body : Text) : Type 0 where
  pub success : is_success response.status ≡ true
  pub declared : is_bad_length maximum response.content_length ≡ false
  pub joined : concat response.chunks ≡ some body
  pub nonempty : 0 < length body
  pub within : length body ≤ maximum

read_bounded_sound :
    (maximum : ℕ) (response : Response) (body : Text)
    → read_bounded maximum response ≡ ok body
    → IsBounded maximum response body
unfolding read_bounded
read_bounded_sound maximum response body h =
    elim (Result-cases (read_chunks maximum 0 [] response.chunks)) [
      | inr (e, failed) ↦ absurd (ground arith)
      | inl ((n, out), done) ↦
          let (sized, fits) =
            read_chunks-ok maximum 0 [] response.chunks n out refl (omega arith) done in
          let (s, whole, same) = read_chunks-concat maximum 0 [] response.chunks n out done in
          record {
            success = ground arith;
            declared = ground arith;
            joined = ground arith;
            nonempty = ground arith;
            within = ground arith;
          }
    ]

read_bounded_complete :
    (maximum : ℕ) (response : Response) (body : Text)
    → maximum < u64_modulus
    → IsBounded maximum response body
    → read_bounded maximum response ≡ ok body
unfolding read_bounded
read_bounded_complete maximum response body m b =
    let fits : 0 + length body ≤ maximum = omega (arith, b.within) in
    ground (arith, read_chunks_complete maximum 0 [] response.chunks body b.joined fits m)

pub fetch_bounded_sound :
    (x : Crates) (url : Text) (maximum : ℕ) (body : Text)
    → fetch_bounded x url maximum ≡ ok body
    → (response : Response) × (x.send url ≡ some response) × IsBounded maximum response body
unfolding fetch_bounded
fetch_bounded_sound x url maximum body h = elim (Option-cases (x.send url)) [
  | inl missing ↦ absurd (ground arith)
  | inr (response, sent) ↦ (response, sent, read_bounded_sound maximum response body (ground arith))
]

-- With a limit that fits 64 bits, `fetch_bounded` returns a body exactly if the response is a
-- success, its declared length (if any) is positive and within the limit, no chunk fails, and the
-- joined chunks, which are that body, are not empty and within the limit.
pub fetch_bounded_iff :
    (x : Crates) (url : Text) (maximum : ℕ) (body : Text)
    → maximum < u64_modulus
    → (fetch_bounded x url maximum ≡ ok body)
      ↔ ((response : Response) × (x.send url ≡ some response) × IsBounded maximum response body)
unfolding fetch_bounded
fetch_bounded_iff x url maximum body m = (
  fetch_bounded_sound x url maximum body,
  λ (response, sent, b). rw sent (read_bounded_complete maximum response body m b),
)
