-- ===== src/Wire/PacketType/Light.antt =====
-- enum lgtd_lifx_packet_type of lifx/wire_proto.h: the packets of lights, of the network and of sensors.
use lightsd.Common.{ℕ}

abbrev pub get_light_state : ℕ
get_light_state = 0x65

abbrev pub set_light_color : ℕ
set_light_color = 0x66

abbrev pub set_waveform : ℕ
set_waveform = 0x67

abbrev pub set_dim_absolute : ℕ
set_dim_absolute = 0x68

abbrev pub set_dim_relative : ℕ
set_dim_relative = 0x69

abbrev pub set_rgbw : ℕ
set_rgbw = 0x6a

abbrev pub light_status : ℕ
light_status = 0x6b

abbrev pub get_rail_voltage : ℕ
get_rail_voltage = 0x6c

abbrev pub state_rail_voltage : ℕ
state_rail_voltage = 0x6d

abbrev pub get_temperature : ℕ
get_temperature = 0x6e

abbrev pub state_temperature : ℕ
state_temperature = 0x6f

abbrev pub set_calibration_coefficients : ℕ
set_calibration_coefficients = 0x70

abbrev pub set_simple_event : ℕ
set_simple_event = 0x71

abbrev pub get_simple_event : ℕ
get_simple_event = 0x72

abbrev pub state_simple_event : ℕ
state_simple_event = 0x73

abbrev pub get_power : ℕ
get_power = 0x74

abbrev pub set_power : ℕ
set_power = 0x75

abbrev pub state_power : ℕ
state_power = 0x76

abbrev pub set_waveform_optional : ℕ
set_waveform_optional = 0x77

abbrev pub connect_plain : ℕ
connect_plain = 0xc9

abbrev pub connect_key : ℕ
connect_key = 0xca

abbrev pub state_connect : ℕ
state_connect = 0xcb

abbrev pub get_auth_key : ℕ
get_auth_key = 0xcc

abbrev pub set_auth_key : ℕ
set_auth_key = 0xcd

abbrev pub state_auth_key : ℕ
state_auth_key = 0xce

abbrev pub set_keep_alive : ℕ
set_keep_alive = 0xcf

abbrev pub state_keep_alive : ℕ
state_keep_alive = 0xd0

abbrev pub set_host : ℕ
set_host = 0xd1

abbrev pub get_host : ℕ
get_host = 0xd2

abbrev pub state_host : ℕ
state_host = 0xd3

abbrev pub get_wifi_state : ℕ
get_wifi_state = 0x12d

abbrev pub set_wifi_state : ℕ
set_wifi_state = 0x12e

abbrev pub wifi_state : ℕ
wifi_state = 0x12f

abbrev pub get_access_points : ℕ
get_access_points = 0x130

abbrev pub set_access_points : ℕ
set_access_points = 0x131

abbrev pub state_access_points : ℕ
state_access_points = 0x132

abbrev pub get_access_point : ℕ
get_access_point = 0x133

abbrev pub state_access_point : ℕ
state_access_point = 0x134

abbrev pub set_access_point_broadcast : ℕ
set_access_point_broadcast = 0x135

abbrev pub get_ambient_light : ℕ
get_ambient_light = 0x191

abbrev pub state_ambient_light : ℕ
state_ambient_light = 0x192

abbrev pub get_dimmer_voltage : ℕ
get_dimmer_voltage = 0x193

abbrev pub state_dimmer_voltage : ℕ
state_dimmer_voltage = 0x194
