-- ===== src/Jsonrpc/Methods/Light.antt =====
-- The methods set_light_from_hsbk and set_waveform: jsonrpc.c and core/proto.c. An int that is stored in an
-- unsigned field is reduced modulo the field's values; the assertions of core/proto.c on the ranges are
-- not modelled. `float_bits` gives the 32 bits of the float that a positive int is converted to.
use lightsd.Common.{
  ℕ, ◌^◌, List, [], ◌∷◌, Bool, true, false, none, some, get_or, ◌==◌, if◌then◌else◌,
}
use lightsd.Common.Int.{ℤ, pos, negsuc, pos_part, wrapped, ◌+ℤ◌}
use lightsd.Wire.PacketType
use lightsd.Wire.PacketTable.{PacketInfoMap}
use lightsd.Wire.Endian.{Host}
use lightsd.Wire.Payloads.{
  LightColor, encode_light_color, light_color_bytes, Waveform, encode_waveform, waveform_bytes,
  waveform_string_id_to_type, waveform_invalid,
}
use lightsd.Jsonrpc.Tokens.{Token, token_at, token_bytes}
use lightsd.Jsonrpc.Types.{char_at, type_string, type_bool, type_float_between_0_and_1}
use lightsd.Jsonrpc.Numbers.{type_integer, type_float_between_0_and_360, float_range_to_uint16}
use lightsd.Jsonrpc.Schema.{Node, Output}
use lightsd.Jsonrpc.Client.{Client}
use lightsd.Router.Sending.{Packet, send}
use lightsd.Jsonrpc.Methods.{Daemon, target_node, send_result}
use lightsd.Jsonrpc.Methods.Params.{
  Taken, refused, taken, ◌>>=◌, value_node, param_text, parse_int, is_kelvin, is_natural,
  is_positive, check_params_and_call,
}

-- The parameters of lgtd_proto_set_light_from_hsbk.
pub record Hsbk : Type 0 where
  pub hue : ℤ
  pub saturation : ℤ
  pub brightness : ℤ
  pub kelvin : ℤ
  pub transition : ℤ

abbrev pub light_schema : List Node
light_schema =
    target_node
    ∷ value_node "hue" 1 type_float_between_0_and_360 false
    ∷ value_node "saturation" 2 type_float_between_0_and_1 false
    ∷ value_node "brightness" 3 type_float_between_0_and_1 false
    ∷ value_node "kelvin" 4 type_integer false
    ∷ value_node "transition" 5 type_integer true
    ∷ []

-- The transition: 0 when it is not given.
abbrev pub parse_transition : Client → List Token → Output → Taken ℤ
parse_transition client tokens out = elim (get_or out.values 5 none) [
  | none ↦ taken (pos 0)
  | some ti ↦ parse_int is_natural (token_bytes client.json (token_at tokens ti))
]

unfoldable pub parse_hsbk : Client → List Token → Output → Taken Hsbk
parse_hsbk client tokens out = do
  let text : ℕ → Taken (List ℕ) = param_text client tokens out
  h ← text 1
  s ← text 2
  b ← text 3
  k ← parse_int is_kelvin (← text 4)
  t ← parse_transition client tokens out
  taken (record {
    hue = float_range_to_uint16 h 360;
    saturation = float_range_to_uint16 s 1;
    brightness = float_range_to_uint16 b 1;
    kelvin = k;
    transition = t;
  })

abbrev pub u16 : ℤ → ℕ
u16 v = wrapped (2 ^ 16) v

abbrev pub u32 : ℤ → ℕ
u32 v = wrapped (2 ^ 32) v

abbrev pub light_color_of : Hsbk → LightColor
light_color_of args = record {
  stream = 0;
  hue = u16 args.hue;
  saturation = u16 args.saturation;
  brightness = u16 args.brightness;
  kelvin = u16 args.kelvin;
  transition = u32 args.transition;
}

-- The parameters of lgtd_proto_set_waveform.
pub record WaveformArgs : Type 0 where
  pub waveform : ℕ
  pub hue : ℤ
  pub saturation : ℤ
  pub brightness : ℤ
  pub kelvin : ℤ
  pub period : ℤ
  pub cycles : ℤ
  pub skew_ratio : ℤ
  pub transient : Bool

abbrev pub waveform_schema : List Node
waveform_schema =
    target_node
    ∷ value_node "waveform" 1 type_string false
    ∷ value_node "hue" 2 type_float_between_0_and_360 false
    ∷ value_node "saturation" 3 type_float_between_0_and_1 false
    ∷ value_node "brightness" 4 type_float_between_0_and_1 false
    ∷ value_node "kelvin" 5 type_integer false
    ∷ value_node "period" 6 type_integer false
    ∷ value_node "cycles" 7 type_integer false
    ∷ value_node "skew_ratio" 8 type_float_between_0_and_1 false
    ∷ value_node "transient" 9 type_bool true
    ∷ []

-- `true` when it is not given.
abbrev pub parse_transient : Client → List Token → Output → Bool
parse_transient client tokens out = elim (get_or out.values 9 none) [
  | none ↦ true
  | some ti ↦ char_at client.json (token_at tokens ti).start == b't'
]

abbrev pub parse_waveform : List ℕ → Taken ℕ
parse_waveform s =
    let waveform : ℕ = waveform_string_id_to_type s in
    if waveform == waveform_invalid then refused else taken waveform

-- UINT16_MAX / 2 is subtracted from the skew ratio.
unfoldable pub parse_waveform_args : Client → List Token → Output → Taken WaveformArgs
parse_waveform_args client tokens out = do
  let text : ℕ → Taken (List ℕ) = param_text client tokens out
  waveform ← parse_waveform (← text 1)
  h ← text 2
  s ← text 3
  b ← text 4
  k ← parse_int is_kelvin (← text 5)
  period ← parse_int is_positive (← text 6)
  cycles ← parse_int is_positive (← text 7)
  skew_ratio ← text 8
  taken (record {
    waveform = waveform;
    hue = float_range_to_uint16 h 360;
    saturation = float_range_to_uint16 s 1;
    brightness = float_range_to_uint16 b 1;
    kelvin = k;
    period = period;
    cycles = cycles;
    skew_ratio = float_range_to_uint16 skew_ratio 1 +ℤ negsuc 32766;
    transient = parse_transient client tokens out;
  })

module _ (host : Host) (client_id : ℕ) (M : PacketInfoMap) (now : ℕ) where
  -- lgtd_router_send and SEND_RESULT
  unfoldable pub send_and_answer : Packet → Client → Daemon → List (List ℕ) → Client × Daemon
  send_and_answer pkt client daemon targets =
      let (ok, net) = send host client_id M daemon.net targets pkt now in
      (send_result client ok, record daemon { net = net })

  abbrev pub light_color_packet : Hsbk → Packet
  light_color_packet args =
      Packet.packet PacketType.set_light_color
        (some (light_color_bytes host (encode_light_color host (light_color_of args))))

  -- lgtd_proto_set_light_from_hsbk
  abbrev pub proto_set_light_from_hsbk : Hsbk → Client → Daemon → List (List ℕ) → Client × Daemon
  proto_set_light_from_hsbk args = send_and_answer (light_color_packet args)

  -- lgtd_jsonrpc_check_and_call_set_light_from_hsbk
  abbrev pub call_set_light_from_hsbk : Client → Daemon → Client × Daemon
  call_set_light_from_hsbk =
      check_params_and_call light_schema 6 parse_hsbk proto_set_light_from_hsbk

module _ (host : Host) (client_id : ℕ) (M : PacketInfoMap) (now : ℕ) (float_bits : ℕ → ℕ) where
  abbrev pub waveform_of : WaveformArgs → Waveform
  waveform_of args = record {
    stream = 0;
    transient = if args.transient then 1 else 0;
    hue = u16 args.hue;
    saturation = u16 args.saturation;
    brightness = u16 args.brightness;
    kelvin = u16 args.kelvin;
    period = u32 args.period;
    cycles = float_bits (pos_part args.cycles);
    skew_ratio = u16 args.skew_ratio;
    waveform = args.waveform;
  }

  abbrev pub waveform_packet : WaveformArgs → Packet
  waveform_packet args =
      Packet.packet PacketType.set_waveform
        (some (waveform_bytes host (encode_waveform host (waveform_of args))))

  -- lgtd_proto_set_waveform
  abbrev pub proto_set_waveform : WaveformArgs → Client → Daemon → List (List ℕ) → Client × Daemon
  proto_set_waveform args = send_and_answer host client_id M now (waveform_packet args)

  -- lgtd_jsonrpc_check_and_call_set_waveform
  abbrev pub call_set_waveform : Client → Daemon → Client × Daemon
  call_set_waveform =
      check_params_and_call waveform_schema 10 parse_waveform_args proto_set_waveform
