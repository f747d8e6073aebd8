-- ===== src/Entity/MediaPlayer.antt =====
-- src/client/entity/media_player.rs.
use Prim.Native.String
use Prim.Native.Char.{code}
use integration_home_assista.Prelude.{
  ℕ, String, Bool, true, false, Option, none, some, List, [], ◌∷◌, or_else, str_eq, decimal, ◌==◌,
  ◌||◌, ◌&&◌, if◌then◌else◌,
}
use integration_home_assista.Json.{
  Value, str, uint, Fields, end, put, get_then, as_str, move_entry, move_value,
}
use integration_home_assista.Platform.{Platform}
use integration_home_assista.Errors.{Result, ok, ◌>>=◌}
use integration_home_assista.Api.{media_player}
use integration_home_assista.Entity.Interface.{Convert, EventConvert}
use integration_home_assista.Entity.Events.{convert_ha_onoff_state}
use integration_home_assista.Entity.Common.{
  EntityLib, Feature, on_off, volume, volume_up_down, select_source, mute, unmute, play_pause,
  stop_media, next, previous, repeat, shuffle, select_sound_mode, seek, media_duration,
  media_position, media_title, media_artist, media_album, media_image_url, media_type, entity_name,
  supported_features, has_bit, push_if, feature_texts, as_f64, change_of,
}

-- The states of a media player, before the general ones.
unfoldable pub media_player_state : {F : Type 0} → String → Result (Value F)
unfolding convert_ha_onoff_state
media_player_state state =
    if str_eq state "playing"
    then ok (str "PLAYING")
    else if str_eq state "paused"
    then ok (str "PAUSED")
    else if str_eq state "standby"
    then ok (str "STANDBY")
    else if str_eq state "buffering"
    then ok (str "BUFFERING")
    else if str_eq state "idle"
    then ok (str "ON")
    else convert_ha_onoff_state state

-- `starts_with` of a text.
abbrev starts_with : String → String → Bool
starts_with String.[] s = true
starts_with (String.◌∷◌ c t) String.[] = false
starts_with (String.◌∷◌ c t) (String.◌∷◌ d s) =
    let rest = starts_with t s in code c == code d && rest

module _ {F : Type 0} where
  -- The attributes that are taken over in front of `repeat`, and behind it.
  unfoldable pub move_media : Fields F × Fields F → Fields F × Fields F
  unfolding move_entry move_value
  move_media both = move_entry "shuffle" (
      move_value "media_content_type" "media_type" (
        move_value "media_album_name" "media_album" (
          move_entry "media_artist" (
            move_entry "media_title" (
              move_entry "media_duration"
                (move_entry "media_position" (move_value "is_volume_muted" "muted" both)))))))

  unfoldable pub move_sources : Fields F × Fields F → Fields F × Fields F
  unfolding move_entry
  move_sources both =
      move_entry "sound_mode_list"
        (move_entry "sound_mode" (move_entry "source_list" (move_entry "source" both)))

  abbrev put_repeat : (String → String) → Fields F × Fields F → Fields F × Fields F
  put_repeat upper (ha_attr, attributes) = elim (get_then as_str "repeat" ha_attr) [
    | none ↦ (ha_attr, attributes)
    | some mode ↦ (ha_attr, put "repeat" (str (upper mode)) attributes)
  ]

module _ {p : Platform} (lib : EntityLib p) (server : p.Url) where
  abbrev put_volume : Fields p.F64 × Fields p.F64 → Fields p.F64 × Fields p.F64
  put_volume (ha_attr, attributes) = elim (get_then (as_f64 p) "volume_level" ha_attr) [
    | none ↦ (ha_attr, attributes)
    | some level ↦ (ha_attr, put "volume" (uint (lib.percent_u64 level)) attributes)
  ]

  -- The address of a picture; `none` where its format is only logged.
  unfoldable pub media_image : String → Option String
  media_image value =
      if starts_with "http" value
      then some value
      else if starts_with "/" value
      then some (
          String.◌++◌ (p.scheme server) (
            String.◌++◌ "://" (
              String.◌++◌ (or_else (p.host_str server) "") (
                String.◌++◌ ":"
                  (String.◌++◌ (decimal 5 (or_else (p.port_or_known_default server) 0)) value)))))
      else none

  unfoldable pub put_image : Fields p.F64 × Fields p.F64 → Fields p.F64
  unfolding media_image
  put_image (ha_attr, attributes) = elim (get_then as_str "entity_picture" ha_attr) [
    | none ↦ attributes
    | some value ↦ elim (media_image value) [
      | none ↦ attributes
      | some url ↦ put "media_image_url" (str url) attributes
    ]
  ]

  unfoldable pub media_attributes : Option (Fields p.F64) → Fields p.F64 → Fields p.F64
  unfolding move_media move_sources put_image
  media_attributes none attributes = attributes
  media_attributes (some ha_attr) attributes =
      put_image
        (move_sources (put_repeat lib.to_uppercase (move_media (put_volume (ha_attr, attributes)))))

  -- `map_media_player_attributes`
  unfoldable pub map_media_player_attributes :
      String → Option (Fields p.F64) → Result (Fields p.F64)
  unfolding media_player_state media_attributes
  map_media_player_attributes state ha_attr = do
    value ← media_player_state state
    ok (media_attributes ha_attr (put "state" value end))

  unfoldable pub media_player_event_to_entity_change : EventConvert p
  unfolding map_media_player_attributes
  media_player_event_to_entity_change = change_of media_player map_media_player_attributes

abbrev always_shown : List Feature
always_shown = media_title ∷ media_artist ∷ media_album ∷ media_image_url ∷ media_type ∷ []

-- The features of a media player, by the bits of its flags.
unfoldable pub media_player_features : ℕ → List Feature
media_player_features flags = push_if (has_bit 7 flags || has_bit 8 flags) (on_off ∷ []) (
    push_if (has_bit 2 flags) (volume ∷ []) (
      push_if (has_bit 10 flags) (volume_up_down ∷ []) (
        push_if (has_bit 11 flags) (select_source ∷ []) (
          push_if (has_bit 3 flags) (mute ∷ unmute ∷ []) (
            push_if (has_bit 0 flags || has_bit 14 flags) (play_pause ∷ []) (
              push_if (has_bit 12 flags) (stop_media ∷ []) (
                push_if (has_bit 5 flags) (next ∷ []) (
                  push_if (has_bit 4 flags) (previous ∷ []) (
                    push_if (has_bit 18 flags) (repeat ∷ []) (
                      push_if (has_bit 15 flags) (shuffle ∷ []) (
                        push_if (has_bit 16 flags) (select_sound_mode ∷ []) (
                          push_if (has_bit 1 flags) (seek ∷ media_duration ∷ media_position ∷ [])
                            always_shown))))))))))))

module _ {p : Platform} (lib : EntityLib p) where
  abbrev media_class : Option String → Option String
  media_class none = none
  media_class (some c) = lib.media_player_class c

  unfoldable pub convert_media_player_entity : p.Url → Convert p
  unfolding map_media_player_attributes media_player_features
  convert_media_player_entity server entity_id state ha_attr = do
    attributes ← map_media_player_attributes lib server state (some ha_attr)
    ok (record {
      entity_id = entity_id;
      device_id = none;
      entity_type = media_player;
      device_class = media_class (get_then as_str "device_class" ha_attr);
      name = entity_name entity_id ha_attr;
      features =
          some
            (feature_texts lib.feature_text (media_player_features (supported_features ha_attr)));
      area = none;
      options = none;
      attributes = some attributes;
    })
