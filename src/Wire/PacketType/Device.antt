-- ===== src/Wire/PacketType/Device.antt =====
-- enum lgtd_lifx_packet_type of lifx/wire_proto.h: the packets of every device.
use lightsd.Common.{ℕ}

abbrev pub set_site : ℕ
set_site = 0x01

abbrev pub get_pan_gateway : ℕ
get_pan_gateway = 0x02

abbrev pub pan_gateway : ℕ
pan_gateway = 0x03

abbrev pub get_time : ℕ
get_time = 0x04

abbrev pub set_time : ℕ
set_time = 0x05

abbrev pub time_state : ℕ
time_state = 0x06

abbrev pub get_reset_switch_state : ℕ
get_reset_switch_state = 0x07

abbrev pub reset_switch_state : ℕ
reset_switch_state = 0x08

abbrev pub get_dummy_payload : ℕ
get_dummy_payload = 0x09

abbrev pub set_dummy_payload : ℕ
set_dummy_payload = 0x0a

abbrev pub state_dummy_payload : ℕ
state_dummy_payload = 0x0b

abbrev pub get_mesh_info : ℕ
get_mesh_info = 0x0c

abbrev pub mesh_info : ℕ
mesh_info = 0x0d

abbrev pub get_mesh_firmware : ℕ
get_mesh_firmware = 0x0e

abbrev pub mesh_firmware : ℕ
mesh_firmware = 0x0f

abbrev pub get_wifi_info : ℕ
get_wifi_info = 0x10

abbrev pub wifi_info : ℕ
wifi_info = 0x11

abbrev pub get_wifi_firmware_state : ℕ
get_wifi_firmware_state = 0x12

abbrev pub wifi_firmware_state : ℕ
wifi_firmware_state = 0x13

abbrev pub get_power_state : ℕ
get_power_state = 0x14

abbrev pub set_power_state : ℕ
set_power_state = 0x15

abbrev pub power_state : ℕ
power_state = 0x16

abbrev pub get_bulb_label : ℕ
get_bulb_label = 0x17

abbrev pub set_bulb_label : ℕ
set_bulb_label = 0x18

abbrev pub bulb_label : ℕ
bulb_label = 0x19

abbrev pub get_tags : ℕ
get_tags = 0x1a

abbrev pub set_tags : ℕ
set_tags = 0x1b

abbrev pub tags : ℕ
tags = 0x1c

abbrev pub get_tag_labels : ℕ
get_tag_labels = 0x1d

abbrev pub set_tag_labels : ℕ
set_tag_labels = 0x1e

abbrev pub tag_labels : ℕ
tag_labels = 0x1f

abbrev pub get_version : ℕ
get_version = 0x20

abbrev pub version_state : ℕ
version_state = 0x21

abbrev pub get_info : ℕ
get_info = 0x22

abbrev pub info_state : ℕ
info_state = 0x23

abbrev pub get_mcu_rail_voltage : ℕ
get_mcu_rail_voltage = 0x24

abbrev pub mcu_rail_voltage : ℕ
mcu_rail_voltage = 0x25

abbrev pub reboot : ℕ
reboot = 0x26

abbrev pub set_factory_test_mode : ℕ
set_factory_test_mode = 0x27

abbrev pub disable_factory_test_mode : ℕ
disable_factory_test_mode = 0x28

abbrev pub state_factory_test_mode : ℕ
state_factory_test_mode = 0x29

abbrev pub state_site : ℕ
state_site = 0x2a

abbrev pub state_reboot : ℕ
state_reboot = 0x2b

abbrev pub set_pan_gateway : ℕ
set_pan_gateway = 0x2c

abbrev pub ack : ℕ
ack = 0x2d

abbrev pub set_factory_reset : ℕ
set_factory_reset = 0x2e

abbrev pub state_factory_reset : ℕ
state_factory_reset = 0x2f

abbrev pub get_location : ℕ
get_location = 0x30

abbrev pub set_location : ℕ
set_location = 0x31

abbrev pub state_location : ℕ
state_location = 0x32

abbrev pub get_group : ℕ
get_group = 0x33

abbrev pub set_group : ℕ
set_group = 0x34

abbrev pub state_group : ℕ
state_group = 0x35

abbrev pub get_owner : ℕ
get_owner = 0x36

abbrev pub set_owner : ℕ
set_owner = 0x37

abbrev pub state_owner : ℕ
state_owner = 0x38

abbrev pub get_factory_test_mode : ℕ
get_factory_test_mode = 0x39

abbrev pub echo_request : ℕ
echo_request = 0x3a

abbrev pub echo_response : ℕ
echo_response = 0x3b
