-- ===== src/Tests/Agent.antt =====
-- The theorems on the Agent flow at concrete inputs.
use luminos.Prelude.{◌≡◌, ◌⊎◌, refl, [], ◌∷◌, ◌++◌, ok, err}
use luminos.Text.{codes, text_eq, starts_with, ends_with, contains_byte, split, is_lower_hex, Text}
use luminos.State.Validate.{file_name}
use luminos.Agent.Transport.{
  AgentResponse, Log, upload_file, post_request, upload_request, url, decode, send, post_json,
}
use luminos.Agent.Flow.{
  VerifiedAgentPackage, not_approved, approved, install_not_approved, staged_filename, expected,
  check_uploaded, parse_upload_identity, identity_eq, check_verified, upload_succeeded,
  valid_sha256, upload_and_verify, install_verified,
}
use luminos.Agent.Confirmed.{Confirms}
use luminos.Agent.Sent.{install_verified_sends, upload_and_verify_sends}
use luminos.Agent.Verified.{IsVerified, upload_and_verify_sound}
use luminos.Tests.Remote.{agent, transport, staged, filename}

abbrev verified_package : VerifiedAgentPackage
verified_package = record { identity = expected staged filename; version = codes "1.3.0" }

package_verified :
    (upload_and_verify agent transport staged (codes "1.3.0") []).0 ≡ ok verified_package
unfolding text_eq starts_with ends_with contains_byte split is_lower_hex file_name upload_file url
    decode send post_json staged_filename check_uploaded parse_upload_identity identity_eq
    check_verified upload_succeeded valid_sha256 upload_and_verify
package_verified = refl

upload_and_verify_sound_example :
    (name : Text) × (upload : AgentResponse) × (verify : AgentResponse) × IsVerified agent transport
      staged
      (codes "1.3.0")
      []
      name
      upload
      verify
    × (expected staged filename ≡ expected staged name)
    × (codes "1.3.0" ≡ codes "1.3.0")
upload_and_verify_sound_example =
    upload_and_verify_sound agent transport staged (codes "1.3.0") [] verified_package
      package_verified

install_verified_sends_example :
    (install_verified agent transport verified_package not_approved []
      ≡ (err install_not_approved, []))
    × ((install_verified agent transport verified_package approved []).1
        ≡ [] ++ post_request transport (codes "/install-package") filename ∷ [])
install_verified_sends_example = install_verified_sends agent transport verified_package []

abbrev log_of_upload : Text → Log
log_of_upload name = [] ++ upload_request transport (codes "/upload-package") name staged.path ∷ []

upload_and_verify_sends_example :
    ((upload_and_verify agent transport staged (codes "1.3.0") []).1 ≡ [])
    ⊎ ((name : Text) × (staged_filename staged ≡ ok name)
        × (((upload_and_verify agent transport staged (codes "1.3.0") []).1 ≡ log_of_upload name)
            ⊎ ((answer : AgentResponse) × ((upload_file agent transport
                    (codes "/upload-package")
                    name
                    staged.path
                    []).0
                  ≡ ok answer)
                × Confirms staged name answer
                × ((upload_and_verify agent transport staged (codes "1.3.0") []).1
                    ≡ log_of_upload name
                      ++ post_request transport (codes "/verify-package") name ∷ []))))
upload_and_verify_sends_example = upload_and_verify_sends agent transport staged (codes "1.3.0") []
