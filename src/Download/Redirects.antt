-- ===== src/Download/Redirects.antt =====
-- The redirect loop of server/src/update_download.rs ends: the model's fuel is never used up.
use luminos.Prelude.{ℕ, zero, suc, ◌+◌, ◌≤◌, ◌≡◌, ok, arith, Result-cases, Option-cases, inl, inr}
use luminos.Text.{Text}
use luminos.Distribution.Policy.{can_follow_redirect}
use luminos.Download.Http.{Net, Response, redirect_target, redirect_loop, response_with_redirects}

redirect_target-counts :
    (net : Net) (url : Text) (followed : ℕ) (response : Response) (next : Text)
    → redirect_target net url followed response ≡ ok next
    → followed + 1 ≤ 3
unfolding redirect_target can_follow_redirect
redirect_target-counts net url followed response next h = ground arith

-- Two fuels that are enough for the redirects that may still be followed.
redirect_loop-enough :
    (net : Net) (a b followed : ℕ) (url : Text)
    → followed ≤ 3
    → 4 ≤ followed + a
    → 4 ≤ followed + b
    → redirect_loop net a followed url ≡ redirect_loop net b followed url
unfolding redirect_loop
redirect_loop-enough net zero b followed url few ha hb = absurd (omega arith)
redirect_loop-enough net (suc a) zero followed url few ha hb = absurd (omega arith)
redirect_loop-enough net (suc a) (suc b) followed url few ha hb =
    elim (Option-cases (net.send url)) [
      | inl missing ↦ ground arith
      | inr (response, sent) ↦ elim (Result-cases (redirect_target net url followed response)) [
        | inl (next, found) ↦ ground (
          arith,
          redirect_target-counts net url followed response next,
          redirect_loop-enough net a b (followed + 1) next,
        )
        | inr (e, refused) ↦ ground arith
      ]
    ]

-- With any fuel of at least four the redirect loop has the result that it has with four.
pub response_with_redirects-fuel :
    (net : Net) (fuel : ℕ) (url : Text)
    → 4 ≤ fuel
    → redirect_loop net fuel 0 url ≡ response_with_redirects net url
unfolding response_with_redirects
response_with_redirects-fuel net fuel url h =
    redirect_loop-enough net fuel 4 0 url (omega arith) (omega (arith, h)) (omega arith)
