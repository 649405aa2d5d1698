-- ===== src/State/Channel.antt =====
-- `impl UpdateChannel` of server/src/update_state.rs: the stored names of the channels.
use luminos.Prelude.{Bool, true, false, Result, ok, err, if◌then◌else◌, ◌≡◌, refl}
use luminos.Text.{Text, codes, text_eq}
use luminos.State.Types.{UpdateChannel, stable, beta, disabled, UpdateStateError, invalid_channel}

unfoldable pub as_str : UpdateChannel → Text
as_str stable = codes "stable"
as_str beta = codes "beta"
as_str disabled = codes "disabled"

unfoldable pub from_db : Text → Result UpdateStateError UpdateChannel
from_db value =
    if text_eq value (codes "stable")
    then ok stable
    else if text_eq value (codes "beta")
    then ok beta
    else if text_eq value (codes "disabled")
    then ok disabled
    else err (invalid_channel value)

abbrev pub is_disabled : UpdateChannel → Bool
is_disabled disabled = true
is_disabled _ = false

pub from_db-as_str : (c : UpdateChannel) → from_db (as_str c) ≡ ok c
unfolding from_db as_str text_eq
from_db-as_str stable = refl
from_db-as_str _ = refl
