-- ===== src/Service/MediaPlayer.antt =====
-- src/client/service/media_player.rs
use integration_home_assista.Prelude.{
  ℕ, leb, String, true, false, Option, none, some, if◌then◌else◌,
}
use integration_home_assista.Json.{
  Value, end, bool, uint, float, str, obj, put, get_then, as_str, as_u64, as_bool,
}
use integration_home_assista.Platform.{Platform}
use integration_home_assista.Errors.{Result, ok, err, ◌>>=◌, bad_request}
use integration_home_assista.Api.{EntityCommand}
use integration_home_assista.Service.Commands.{
  MediaPlayerCommand, on, off, toggle, play_pause, stop, previous, next, seek, volume, volume_up,
  volume_down, mute, unmute, repeat, shuffle, select_source, select_sound_mode, unsupported,
  CommandNames, ServiceCall, cmd_from_str, get_required_params,
}

-- The volume of a remote, if it is one.
abbrev as_volume : {F : Type 0} → Value F → Option ℕ
as_volume (uint n) = if leb n 100 then some n else none
as_volume _ = none

module _ {p : Platform} (lower : String → String) where
  -- One required parameter, converted and stored under `key`, for `service`.
  with_param :
      {A : Type 0}
      → String
      → String
      → (Value p.F64 → Option A)
      → String
      → (A → Value p.F64)
      → String
      → EntityCommand p
      → Result (ServiceCall p)
  with_param service param read key write message msg = do
    params ← get_required_params msg
    elim (get_then read param params) [
      | none ↦ err (bad_request message)
      | some a ↦ ok (service, some (obj (put key (write a) end)))
    ]

  -- `lower` is `to_lowercase`.
  unfoldable pub media_player_call : EntityCommand p → MediaPlayerCommand → Result (ServiceCall p)
  unfolding with_param
  media_player_call msg on = ok ("turn_on", none)
  media_player_call msg off = ok ("turn_off", none)
  media_player_call msg toggle = ok ("toggle", none)
  media_player_call msg play_pause = ok ("media_play_pause", none)
  media_player_call msg stop = ok ("media_stop", none)
  media_player_call msg previous = ok ("media_previous_track", none)
  media_player_call msg next = ok ("media_next_track", none)
  media_player_call msg seek =
      with_param "media_seek" "media_position" as_u64 "seek_position" uint
        "Invalid or missing params.media_position attribute" msg
  media_player_call msg volume =
      with_param "volume_set" "volume" as_volume "volume_level" (λ n. float (p.hundredths n))
        "Invalid or missing params.volume attribute" msg
  media_player_call msg volume_up = ok ("volume_up", none)
  media_player_call msg volume_down = ok ("volume_down", none)
  media_player_call msg mute =
      ok ("volume_mute", some (obj (put "is_volume_muted" (bool true) end)))
  media_player_call msg unmute =
      ok ("volume_mute", some (obj (put "is_volume_muted" (bool false) end)))
  media_player_call msg repeat =
      with_param "repeat_set" "repeat" as_str "repeat" (λ s. str (lower s))
        "Invalid or missing params.repeat attribute" msg
  media_player_call msg shuffle =
      with_param "shuffle_set" "shuffle" as_bool "shuffle" bool
        "Invalid or missing params.shuffle attribute" msg
  media_player_call msg select_source =
      with_param "select_source" "source" as_str "source" str
        "Invalid or missing params.source attribute" msg
  media_player_call msg select_sound_mode =
      with_param "select_sound_mode" "mode" as_str "sound_mode" str
        "Invalid or missing params.mode attribute" msg
  media_player_call msg (unsupported _) = err (bad_request "Not supported")

  unfoldable pub handle_media_player : CommandNames → EntityCommand p → Result (ServiceCall p)
  handle_media_player names msg =
      cmd_from_str names names.media_player msg.cmd_id >>= media_player_call msg
