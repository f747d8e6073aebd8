-- ===== src/Service/Devices/Button.antt =====
-- When the command of a button panics.
use integration_home_assista.Prelude.{◌≡◌, ◌↔◌, refl, String, none, some, arith, eq_iff}
use integration_home_assista.Platform.{Platform}
use integration_home_assista.Api.{EntityCommand}
use integration_home_assista.Service.Commands.{CommandNames, push, cmd_from_str}
use integration_home_assista.Service.Devices.{split_dots, button_service, handle_button}

-- Without a dot, the first part is the whole text.
split_dots_whole : (s : String) → (split_dots s).1 ≡ none → (split_dots s).0 ≡ s
unfolding split_dots
split_dots_whole String.[] e = refl
split_dots_whole (String.◌∷◌ c s) e = ground (arith, split_dots_whole s)

script_parts : (s : String) → s ≡ "script" → split_dots s ≡ ("script", none)
unfolding split_dots
script_parts s e = rw e refl

-- A command that is the push of a button panics exactly if the entity id is the text "script".
pub handle_button_panics :
    (p : Platform) (names : CommandNames) (msg : EntityCommand p)
    → names.button msg.cmd_id ≡ some push
    → (handle_button p names msg ≡ none) ↔ (msg.entity_id ≡ "script")
unfolding handle_button cmd_from_str button_service
handle_button_panics p names msg e = ground (
  arith,
  split_dots_whole msg.entity_id,
  eq_iff (split_dots msg.entity_id).0 "script",
  script_parts msg.entity_id,
)
