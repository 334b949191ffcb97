-- ===== src/Handling/Payload.antt =====
-- lifx/wire_proto.c: the payloads that are decoded, by the handler that they are for. The bytes are those of
-- the packed struct, in the host's memory; a float is its 32 bits.
use lightsd.Common.{ℕ, List, ◌==◌, if◌then◌else◌, take, drop}
use lightsd.Wire.PacketInfo.{Handler}
use lightsd.Wire.Endian.{Host, letoh}
use lightsd.Wire.Receive.{from_memory}
use lightsd.Wire.Payloads.{TagLabels, decode_tag_labels}
use lightsd.Gateway.Hardware.{IpState, IpFirmwareInfo, ProductInfo, RuntimeInfo}
use lightsd.Gateway.Bulbs.{LightState, power_on, power_off}

-- The payloads by the functions lgtd_lifx_gateway_handle_* that read them.
pub data Payload : Type 0 where
  ignored : Payload
  light_status : LightState → Payload
  power_state : ℕ → Payload
  tag_labels : TagLabels → Payload
  tags : ℕ → Payload
  ip_state : IpState → Payload
  ip_firmware_info : IpFirmwareInfo → Payload
  product_info : ProductInfo → Payload
  runtime_info : RuntimeInfo → Payload
  bulb_label : List ℕ → Payload
  ambient_light : ℕ → Payload

-- A power that is not on is pulled down to off.
abbrev pub decode_power : ℕ → ℕ
decode_power power = if power == power_on then power_on else power_off

module _ (host : Host) where
  -- An integer of `k` bytes at an offset of the struct, and what leXXtoh makes of it.
  abbrev pub field : ℕ → ℕ → List ℕ → ℕ
  field k offset pkt = from_memory host (take k (drop offset pkt))

  abbrev pub le_field : ℕ → ℕ → List ℕ → ℕ
  le_field k offset pkt = letoh host k (field k offset pkt)

  -- lgtd_lifx_wire_decode_light_status
  unfoldable pub decode_light_status : List ℕ → LightState
  decode_light_status pkt = record {
    hue = le_field 2 0 pkt;
    saturation = le_field 2 2 pkt;
    brightness = le_field 2 4 pkt;
    kelvin = le_field 2 6 pkt;
    dim = le_field 2 8 pkt;
    power = decode_power (field 2 10 pkt);
    label = take 32 (drop 12 pkt);
    tags = le_field 8 44 pkt;
  }

  -- lgtd_lifx_wire_decode_ip_state
  unfoldable pub decode_ip_state : List ℕ → IpState
  decode_ip_state pkt = record {
    signal_strength = le_field 4 0 pkt;
    tx_bytes = le_field 4 4 pkt;
    rx_bytes = le_field 4 8 pkt;
    temperature = le_field 2 12 pkt;
  }

  -- lgtd_lifx_wire_decode_ip_firmware_info
  unfoldable pub decode_ip_firmware_info : List ℕ → IpFirmwareInfo
  decode_ip_firmware_info pkt = record {
    built_at = le_field 8 0 pkt;
    installed_at = le_field 8 8 pkt;
    version = le_field 4 16 pkt;
  }

  -- lgtd_lifx_wire_decode_product_info
  unfoldable pub decode_product_info : List ℕ → ProductInfo
  decode_product_info pkt = record {
    vendor_id = le_field 4 0 pkt;
    product_id = le_field 4 4 pkt;
    version = le_field 4 8 pkt;
  }

  -- lgtd_lifx_wire_decode_runtime_info
  unfoldable pub decode_runtime_info : List ℕ → RuntimeInfo
  decode_runtime_info pkt = record {
    time = le_field 8 0 pkt;
    uptime = le_field 8 8 pkt;
    downtime = le_field 8 16 pkt;
  }

  -- What the decoder of a packet's type and its handler make of the bytes.
  unfoldable pub decode_payload : Handler → List ℕ → Payload
  decode_payload Handler.light_status pkt = Payload.light_status (decode_light_status pkt)
  decode_payload Handler.power_state pkt = Payload.power_state (decode_power (field 2 0 pkt))
  decode_payload Handler.tag_labels pkt =
      Payload.tag_labels
        (decode_tag_labels host (record { tags = field 8 0 pkt; label = take 32 (drop 8 pkt) }))
  decode_payload Handler.tags pkt = Payload.tags (le_field 8 0 pkt)
  decode_payload Handler.ip_state pkt = Payload.ip_state (decode_ip_state pkt)
  decode_payload Handler.ip_firmware_info pkt =
      Payload.ip_firmware_info (decode_ip_firmware_info pkt)
  decode_payload Handler.product_info pkt = Payload.product_info (decode_product_info pkt)
  decode_payload Handler.runtime_info pkt = Payload.runtime_info (decode_runtime_info pkt)
  decode_payload Handler.bulb_label pkt = Payload.bulb_label (take 32 pkt)
  decode_payload Handler.ambient_light pkt = Payload.ambient_light (le_field 4 0 pkt)
  decode_payload _ pkt = Payload.ignored
