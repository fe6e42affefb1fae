-- ===== src/Tests/LocalTests.antt =====
-- The theorems on TuyaLocalDriver, applied to samples.
use linker.Prelude.{String, none, some, ◌≡◌, refl, [], ◌∷◌, true, nat_Eq, string_Eq, arith}
use linker.Python.Exc.{Exc, ok, err}
use linker.Models.Identifier.{is_identifier, is_short_text}
use linker.Models.Descriptor
use linker.Models.Descriptor.{DeviceDescriptor}
use linker.Models.Light
use linker.Models.Rgb
use linker.Python.Text.{int16}
use linker.Python.Bytes.{be32, u32, pack_u32}
use linker.Tuya.Config.{
  TuyaDeviceConfig, new_device, check_key, check_name, check_link, is_bad_timeout,
}
use linker.Tuya.Dps.{parse_dps, state_from_dps, dps_of_value, indexed_dps, dp_index, white_of}
use linker.Tuya.Frame.{frame_bytes, parse_frame, read_frame, verify, trailer_size, read_exactly}
use linker.Tuya.Mapping.{
  brightness_from_dp, bounded_int, scale_from, level_from_dp, numeric, checked_level,
}
use linker.Tuya.Mapping.Color.{decode_color, decode_rgb_hex, parse_hex}
use linker.Tuya.Payload.{payload_for_command, decode_payload, without_retcode}
use linker.Tuya.Local.{
  missing, TuyaLocalDriver, blank, device, mapping_of, check_device, candidate_id, next_sequence,
  revisioned, reset, settle_all, disconnect,
}
use linker.Tuya.Local.Link.{write, connect, start_session, read_arrival}
use linker.Tuya.Local.Reader.{
  decoded, reader_step, read_one, take_frame, deliver, mapped_state, end_loop,
}
use linker.Tuya.Local.Exchange.{
  await_future, create_future, send, answer, request, pop_failed, attempt, after_attempt, attempts,
  exchange,
}
use linker.Tuya.Local.Polling.{
  poll_state, poll_device, query_body, keyed, read_dps, descriptor, device_descriptor,
}
use linker.Tuya.Local.Pairing.{
  pair, pair_device, confirm_pairing, reach_device, keep_pairing, save_pairing_state,
  move_callbacks, saved_state, chosen_device, paired_device, described, new_driver,
}
use linker.Tuya.Local.Pairing.Outcome.{IsPairOutcome, pair-IsPairOutcome, pair-unnamed}
use linker.Tuya.Local.Pairing.Restart.{pair-new_driver}
use linker.Tuya.Local.Events.{polls, step, Reach, constructed, after}
use linker.Tuya.Local.Events.Valid.{IsValid}
use linker.Tuya.Local.Events.Reachable.{Reach-IsValid}
use linker.Tests.LocalSamples.{answering, lamp_device, profile, idle, finder, scan_options}

Reach-idle : Reach answering idle
unfolding new_driver
Reach-idle = constructed (some lamp_device) scan_options (some profile) true missing idle refl

abbrev polled : TuyaLocalDriver
polled = step answering (polls "lamp0001") idle

Reach-polled : Reach answering polled
Reach-polled = after (polls "lamp0001") Reach-idle

Reach-IsValid_example : IsValid answering polled
Reach-IsValid_example = Reach-IsValid answering polled (λ n. refl) Reach-polled

finder-IsValid : (id : String) → IsValid answering (finder id)
unfolding blank candidate_id
finder-IsValid id = record {
  links = record {
    same = refl;
    word = omega arith;
    counted = omega arith;
    own_state = tt;
    fresh_pending = tt;
    fresh_futures = tt;
  };
  paired = tt;
  candidates = (refl, tt);
}

pair-IsPairOutcome_example :
    IsPairOutcome answering "light.5a"
      (finder "lamp0001")
      (pair answering "light.5a" (finder "lamp0001"))
pair-IsPairOutcome_example =
    pair-IsPairOutcome answering "light.5a" (finder "lamp0001") (λ n. refl)
      (finder-IsValid "lamp0001").links

abbrev paired_lamp : DeviceDescriptor
paired_lamp = record { id = "light.5a"; name = "LED lamp"; color_modes = "RGB" ∷ [] }

lamp_paired : (pair answering "light.5a" (finder "lamp0001")).0 ≡ ok (paired_lamp, "lamp0001")
unfolding pair pair_device confirm_pairing reach_device keep_pairing save_pairing_state
    move_callbacks saved_state chosen_device paired_device described disconnect reset settle_all
    candidate_id descriptor device_descriptor Descriptor.new is_identifier is_short_text new_device
    check_key check_name check_link is_bad_timeout poll_state poll_device mapping_of check_device
    query_body keyed read_dps mapped_state revisioned parse_dps dps_of_value indexed_dps dp_index
    bounded_int state_from_dps decode_color decode_rgb_hex brightness_from_dp scale_from Light.new
    Rgb.new parse_hex int16 level_from_dp numeric checked_level white_of exchange device attempts
    attempt after_attempt connect start_session next_sequence request pop_failed create_future
    answer send payload_for_command frame_bytes trailer_size write await_future reader_step read_one
    read_arrival read_frame parse_frame verify u32 be32 take_frame deliver end_loop decoded
    decode_payload without_retcode blank pack_u32 read_exactly
lamp_paired = refl

pair-new_driver_example :
    let t = (pair answering "light.5a" (finder "lamp0001")).1 in
    (u : TuyaLocalDriver) × (new_driver answering none t.discovery_options
        (some profile)
        true
        t.state_file
      ≡ (ok tt, u))
    × (u.device ≡ t.device)
    × (u.paired_light_id ≡ t.paired_light_id)
pair-new_driver_example =
    pair-new_driver answering profile "light.5a" (finder "lamp0001") (paired_lamp, "lamp0001")
      (λ n. refl) (finder-IsValid "lamp0001") (unfold blank in refl) (unfold blank in refl)
      lamp_paired

-- An id that the scan accepts and a light id does not.
abbrev shouting : TuyaDeviceConfig
shouting = record lamp_device { device_id = "LAMP0001" }

pair-unnamed_example : (e : Exc) × ((pair answering "light.5a" (finder "LAMP0001")).0 ≡ err e)
pair-unnamed_example =
    pair-unnamed answering "light.5a" (finder "LAMP0001") shouting (λ n. refl)
      (finder-IsValid "LAMP0001").links
      (unfold chosen_device blank paired_device new_device check_key check_name check_link
          is_bad_timeout is_short_text bounded_int in
        refl)
      (unfold is_identifier is_short_text in refl)
