-- ===== src/Service/Commands.antt =====
-- The commands of the entities, as the crate `uc_api` names them, and what the conversions share.
use Prim.Native.String
use integration_home_assista.Prelude.{String, Option, none, some}
use integration_home_assista.Json.{Value, Fields, get, put}
use integration_home_assista.Platform.{Platform}
use integration_home_assista.Errors.{Result, ok, err, bad_request}
use integration_home_assista.Api.{EntityCommand, EntityType}

pub data LightCommand : Type 0 where
  on off toggle : LightCommand

pub data SwitchCommand : Type 0 where
  on off toggle : SwitchCommand

pub data CoverCommand : Type 0 where
  open_cover close_cover stop position : CoverCommand

pub data ButtonCommand : Type 0 where
  push : ButtonCommand

pub data ClimateCommand : Type 0 where
  on off hvac_mode target_temperature : ClimateCommand

pub data RemoteCommand : Type 0 where
  on off toggle send_cmd send_cmd_sequence : RemoteCommand

-- `MediaPlayerCommand`; `unsupported` stands for each of the variants, by its name, that the code
-- answers with "Not supported".
pub data MediaPlayerCommand : Type 0 where
  on off toggle play_pause stop previous next seek volume volume_up volume_down : MediaPlayerCommand
  mute unmute repeat shuffle select_source select_sound_mode : MediaPlayerCommand
  unsupported : String → MediaPlayerCommand

-- `from_str` of the commands, with the text of their valid names: the crate `strum` derives both.
pub record CommandNames : Type 0 where
  pub light : String → Option LightCommand
  pub switch : String → Option SwitchCommand
  pub cover : String → Option CoverCommand
  pub button : String → Option ButtonCommand
  pub climate : String → Option ClimateCommand
  pub remote : String → Option RemoteCommand
  pub media_player : String → Option MediaPlayerCommand
  pub variants : String
  -- The `Display` of an entity type.
  pub entity_type_text : EntityType → String

-- A service with its data.
abbrev pub ServiceCall : Platform → Type 0
ServiceCall p = String × Option (Value p.F64)

-- `cmd_from_str`, with `T::from_str` given.
unfoldable pub cmd_from_str : {T : Type 0} → CommandNames → (String → Option T) → String → Result T
cmd_from_str names from_str cmd = elim (from_str cmd) [
  | some c ↦ ok c
  | none ↦ err (
      bad_request (
        String.◌++◌ "Invalid cmd_id: "
          (String.◌++◌ cmd (String.◌++◌ ". Valid commands: " names.variants))))
]

module _ {p : Platform} where
  unfoldable pub get_required_params : EntityCommand p → Result (Fields p.F64)
  get_required_params cmd = elim cmd.params [
    | some params ↦ ok params
    | none ↦ err (bad_request "Missing params object")
  ]

-- `copy_entry` of src/util/json.rs; its Boolean answer is not used.
unfoldable pub copy_entry : {F : Type 0} → Fields F → Fields F → String → Fields F
copy_entry source dest key = elim (get key source) [ none ↦ dest | some v ↦ put key v dest ]
