-- ===== src/Wire/Payloads.antt =====
-- lifx/wire_proto.c: the payloads that are encoded or decoded, and the names of the waveforms. A float is
-- its 32 bits. The bytes of a payload are those of its packed struct, as the host has it in memory.
pub mod OnWire
use Prim.Native.String.{String}
use lightsd.Common.{ℕ, ◌+◌, List, [], ◌∷◌, ◌++◌, ◌==◌, if◌then◌else◌, take}
use lightsd.Common.Bytes.{codes, same_bytes}
use lightsd.Wire.Endian.{Host, htole, letoh, memory}

-- struct lgtd_lifx_packet_light_color
pub record LightColor : Type 0 where
  pub stream : ℕ
  pub hue : ℕ
  pub saturation : ℕ
  pub brightness : ℕ
  pub kelvin : ℕ
  pub transition : ℕ

unfoldable pub encode_light_color : Host → LightColor → LightColor
encode_light_color host pkt = record pkt {
  hue = htole host 2 pkt.hue;
  saturation = htole host 2 pkt.saturation;
  brightness = htole host 2 pkt.brightness;
  kelvin = htole host 2 pkt.kelvin;
  transition = htole host 4 pkt.transition;
}

unfoldable pub light_color_bytes : Host → LightColor → List ℕ
light_color_bytes host pkt =
    pkt.stream
    ∷ (memory host 2 pkt.hue
        ++ (memory host 2 pkt.saturation
            ++ (memory host 2 pkt.brightness
                ++ (memory host 2 pkt.kelvin ++ memory host 4 pkt.transition))))

-- struct lgtd_lifx_packet_waveform
pub record Waveform : Type 0 where
  pub stream : ℕ
  pub transient : ℕ
  pub hue : ℕ
  pub saturation : ℕ
  pub brightness : ℕ
  pub kelvin : ℕ
  pub period : ℕ
  pub cycles : ℕ
  pub skew_ratio : ℕ
  pub waveform : ℕ

unfoldable pub encode_waveform : Host → Waveform → Waveform
encode_waveform host pkt = record pkt {
  hue = htole host 2 pkt.hue;
  saturation = htole host 2 pkt.saturation;
  brightness = htole host 2 pkt.brightness;
  kelvin = htole host 2 pkt.kelvin;
  period = htole host 4 pkt.period;
  cycles = htole host 4 pkt.cycles;
  skew_ratio = htole host 2 pkt.skew_ratio;
}

unfoldable pub waveform_bytes : Host → Waveform → List ℕ
waveform_bytes host pkt =
    pkt.stream
    ∷ pkt.transient
    ∷ (memory host 2 pkt.hue
        ++ (memory host 2 pkt.saturation
            ++ (memory host 2 pkt.brightness
                ++ (memory host 2 pkt.kelvin
                    ++ (memory host 4 pkt.period
                        ++ (memory host 4 pkt.cycles
                            ++ (memory host 2 pkt.skew_ratio ++ (pkt.waveform ∷ []))))))))

-- LGTD_LIFX_WAVEFORM_INVALID
abbrev pub waveform_invalid : ℕ
waveform_invalid = 5

abbrev pub waveform_table : List String
waveform_table = "SAW" ∷ "SINE" ∷ "HALF_SINE" ∷ "TRIANGLE" ∷ "SQUARE" ∷ "INVALID" ∷ []

-- The loop over the table, from the entry `i` on.
unfoldable pub waveform_from : List String → ℕ → List ℕ → ℕ
waveform_from [] i s = waveform_invalid
waveform_from (entry ∷ entries) i s =
    let rest = waveform_from entries (i + 1) s in if same_bytes (codes entry) s then i else rest

-- lgtd_lifx_wire_waveform_string_id_to_type
abbrev pub waveform_string_id_to_type : List ℕ → ℕ
waveform_string_id_to_type s = waveform_from waveform_table 0 s

-- struct lgtd_lifx_packet_tag_labels
pub record TagLabels : Type 0 where
  pub tags : ℕ
  pub label : List ℕ

unfoldable pub encode_tag_labels : Host → TagLabels → TagLabels
encode_tag_labels host pkt = record pkt { tags = htole host 8 pkt.tags }

unfoldable pub tag_labels_bytes : Host → TagLabels → List ℕ
tag_labels_bytes host pkt = memory host 8 pkt.tags ++ pkt.label

-- The label's last byte becomes a zero.
unfoldable pub decode_tag_labels : Host → TagLabels → TagLabels
decode_tag_labels host pkt = record {
  tags = letoh host 8 pkt.tags;
  label = take 31 pkt.label ++ (0 ∷ []);
}
