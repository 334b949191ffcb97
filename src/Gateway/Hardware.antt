-- ===== src/Gateway/Hardware.antt =====
-- lifx/bulb.h and lifx/bulb.c: what a bulb tells about its hardware. A float is its 32 bits.
use Prim.Native.String.{String}
use lightsd.Common.{ℕ, Option, none, some, ◌==◌, if◌then◌else◌}

-- struct lgtd_lifx_ip_state
pub record IpState : Type 0 where
  pub signal_strength : ℕ
  pub tx_bytes : ℕ
  pub rx_bytes : ℕ
  pub temperature : ℕ

-- struct lgtd_lifx_ip_firmware_info
pub record IpFirmwareInfo : Type 0 where
  pub built_at : ℕ
  pub installed_at : ℕ
  pub version : ℕ

-- struct lgtd_lifx_bulb_ip
pub record BulbIp : Type 0 where
  pub state : IpState
  pub state_updated_at : ℕ
  pub fw_info : IpFirmwareInfo
  pub fw_info_updated_at : ℕ

-- struct lgtd_lifx_product_info
pub record ProductInfo : Type 0 where
  pub vendor_id : ℕ
  pub product_id : ℕ
  pub version : ℕ

-- struct lgtd_lifx_runtime_info
pub record RuntimeInfo : Type 0 where
  pub time : ℕ
  pub uptime : ℕ
  pub downtime : ℕ

-- enum lgtd_lifx_bulb_ips
pub data BulbIps : Type 0 where
  mcu_ip wifi_ip : BulbIps

-- The fields of `struct lgtd_lifx_bulb` that these functions set. A model or a vendor that is NULL is
-- `none`.
pub record Hardware : Type 0 where
  pub mcu : BulbIp
  pub wifi : BulbIp
  pub product_info : ProductInfo
  pub vendor : Option String
  pub model : Option String
  pub runtime_info : RuntimeInfo
  pub runtime_info_updated_at : ℕ
  pub ambient_light : ℕ

abbrev pub no_ip : BulbIp
no_ip = record {
  state = record { signal_strength = 0; tx_bytes = 0; rx_bytes = 0; temperature = 0 };
  state_updated_at = 0;
  fw_info = record { built_at = 0; installed_at = 0; version = 0 };
  fw_info_updated_at = 0;
}

-- What calloc leaves.
abbrev pub no_hardware : Hardware
no_hardware = record {
  mcu = no_ip;
  wifi = no_ip;
  product_info = record { vendor_id = 0; product_id = 0; version = 0 };
  vendor = none;
  model = none;
  runtime_info = record { time = 0; uptime = 0; downtime = 0 };
  runtime_info_updated_at = 0;
  ambient_light = 0;
}

-- The switch of lgtd_lifx_bulb_get_model_name.
abbrev pub product_name : ℕ → String
product_name product_id =
    if product_id == 0x1
    then "Original 1000"
    else if product_id == 0x2
    then "Original 1000"
    else if product_id == 0x3
    then "Color 650"
    else if product_id == 0xa
    then "White 800"
    else if product_id == 0xb
    then "White 800"
    else if product_id == 0x12
    then "White 900 BR30"
    else if product_id == 0x14
    then "Color 1000 BR30"
    else if product_id == 0x16
    then "Color 1000"
    else if product_id == 0x1b
    then "A19"
    else if product_id == 0x1c
    then "BR30"
    else if product_id == 0x1d
    then "A19+"
    else if product_id == 0x1e
    then "BR30+"
    else if product_id == 0x1f
    then "Z"
    else "Unknown"

-- LGTD_LIFX_VENDOR_ID
abbrev pub lifx_vendor_id : ℕ
lifx_vendor_id = 1

-- lgtd_lifx_bulb_get_model_name
unfoldable pub get_model_name : ℕ → ℕ → String
get_model_name vendor_id product_id =
    if vendor_id == lifx_vendor_id then product_name product_id else "Unknown"

-- lgtd_lifx_bulb_get_vendor_name
unfoldable pub get_vendor_name : ℕ → String
get_vendor_name vendor_id = if vendor_id == lifx_vendor_id then "LIFX" else "Unknown"

abbrev pub set_ip : BulbIps → (BulbIp → BulbIp) → Hardware → Hardware
set_ip BulbIps.mcu_ip f hw = record hw { mcu = f hw.mcu }
set_ip BulbIps.wifi_ip f hw = record hw { wifi = f hw.wifi }

-- lgtd_lifx_bulb_set_ip_state
unfoldable pub set_ip_state : BulbIps → IpState → ℕ → Hardware → Hardware
set_ip_state ip_id state received_at =
    set_ip ip_id (λ ip. record ip { state = state; state_updated_at = received_at })

-- lgtd_lifx_bulb_set_ip_firmware_info
unfoldable pub set_ip_firmware_info : BulbIps → IpFirmwareInfo → ℕ → Hardware → Hardware
set_ip_firmware_info ip_id info received_at =
    set_ip ip_id (λ ip. record ip { fw_info = info; fw_info_updated_at = received_at })

-- lgtd_lifx_bulb_set_product_info
unfoldable pub set_product_info : ProductInfo → Hardware → Hardware
set_product_info info hw = record hw {
  product_info = info;
  vendor = some (get_vendor_name info.vendor_id);
  model = some (get_model_name info.vendor_id info.product_id);
}

-- lgtd_lifx_bulb_set_runtime_info
unfoldable pub set_runtime_info : RuntimeInfo → ℕ → Hardware → Hardware
set_runtime_info info received_at hw = record hw {
  runtime_info = info;
  runtime_info_updated_at = received_at;
}

-- lgtd_lifx_bulb_set_ambient_light
unfoldable pub set_ambient_light : ℕ → Hardware → Hardware
set_ambient_light illuminance hw = record hw { ambient_light = illuminance }
