-- ===== src/Wire/Payloads/OnWire.antt =====
-- The bytes of the payloads that carry a colour, as they go out.
use lightsd.Common.{◌≡◌, refl, [], ◌∷◌, ◌++◌}
use lightsd.Wire.Endian.{Host, le_bytes}
use lightsd.Wire.Endian.Laws.{memory-htole}
use lightsd.Wire.Payloads.{
  LightColor, encode_light_color, light_color_bytes, Waveform, encode_waveform, waveform_bytes,
}

-- On a host of either byte order the payloads of SET_LIGHT_COLOR and of SET_WAVEFORM are the same bytes:
-- their fields in order, each of one byte, of two or of four, the lowest byte first.
pub light_payloads-encoded :
    (host : Host) (color : LightColor) (wave : Waveform)
    → (light_color_bytes host (encode_light_color host color)
        ≡ color.stream
          ∷ (le_bytes 2 color.hue
              ++ (le_bytes 2 color.saturation
                  ++ (le_bytes 2 color.brightness
                      ++ (le_bytes 2 color.kelvin ++ le_bytes 4 color.transition)))))
      × (waveform_bytes host (encode_waveform host wave)
          ≡ wave.stream
            ∷ wave.transient
            ∷ (le_bytes 2 wave.hue
                ++ (le_bytes 2 wave.saturation
                    ++ (le_bytes 2 wave.brightness
                        ++ (le_bytes 2 wave.kelvin
                            ++ (le_bytes 4 wave.period
                                ++ (le_bytes 4 wave.cycles
                                    ++ (le_bytes 2 wave.skew_ratio ++ (wave.waveform ∷ [])))))))))
unfolding light_color_bytes encode_light_color waveform_bytes encode_waveform
light_payloads-encoded host color wave = (
  rw
      (
        memory-htole host 2 color.hue,
        memory-htole host 2 color.saturation,
        memory-htole host 2 color.brightness,
        memory-htole host 2 color.kelvin,
        memory-htole host 4 color.transition,
      )
      refl,
  rw
      (
        memory-htole host 2 wave.hue,
        memory-htole host 2 wave.saturation,
        memory-htole host 2 wave.brightness,
        memory-htole host 2 wave.kelvin,
        memory-htole host 4 wave.period,
        memory-htole host 4 wave.cycles,
        memory-htole host 2 wave.skew_ratio,
      )
      refl,
)
