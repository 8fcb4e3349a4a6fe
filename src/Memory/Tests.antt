-- ===== src/Memory/Tests.antt =====
-- A small conversation.
use smallpieclaw.Prelude.{String, ◌≡◌, refl, List, [], ◌∷◌}
use smallpieclaw.Memory.{Message, new, from_dict, to_dict, Op, add_op, clear_op, replay}
use smallpieclaw.Memory.Window.{last, from_dict-to_dict}

abbrev message : String → Message
message content = record { role = "user"; content = content }

abbrev history : List Op
history =
    add_op "user" "a" ∷ clear_op ∷ add_op "user" "b" ∷ add_op "user" "c" ∷ add_op "user" "d" ∷ []

window : (replay history (new 2)).buffer ≡ message "c" ∷ message "d" ∷ []
unfolding replay
window = refl

from_dict-to_dict_example :
    (from_dict (to_dict (message "c" ∷ message "d" ∷ [])) 1).buffer
    ≡ last 1 (message "c" ∷ message "d" ∷ [])
from_dict-to_dict_example = from_dict-to_dict 1 (message "c" ∷ message "d" ∷ [])
