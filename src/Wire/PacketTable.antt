-- ===== src/Wire/PacketTable.antt =====
-- lifx/wire_proto.c: the packets that the program knows of, and the tree that it finds them in.
-- The red-black trees of compat/generic/sys/tree.h are another project's: they are a parameter.
pub mod Implemented
pub mod Hardware
pub mod Device
pub mod Light
pub mod Network
pub mod Find
use lightsd.Common.{
  ℕ, ◌≡◌, refl, List, [], ◌∷◌, ◌++◌, Option, none, some, ◌==◌, if◌then◌else◌, arith,
}
use lightsd.Wire.PacketInfo.{PacketInfo}
use Implemented.{gateway_and_light_rows}
use Hardware.{hardware_rows}
use Device.{unimplemented_device_rows}
use Light.{unimplemented_light_rows}
use Network.{unimplemented_network_rows}

unfoldable pub packet_table : List PacketInfo
packet_table =
    gateway_and_light_rows
    ++ (hardware_rows
        ++ (unimplemented_device_rows ++ (unimplemented_light_rows ++ unimplemented_network_rows)))

-- The first of two results, if there is one.
abbrev pub or_else : Option PacketInfo → Option PacketInfo → Option PacketInfo
or_else (some p) q = some p
or_else none q = q

-- RB_INITIALIZER, RB_INSERT and RB_FIND of a tree of packet infos, compared by their types. An
-- insertion does not replace an element that compares equal.
pub record PacketInfoMap : Type 1 where
  pub Map : Type 0
  pub empty : Map
  pub insert : PacketInfo → Map → Map
  pub find : ℕ → Map → Option PacketInfo
  pub find-empty : (t : ℕ) → find t empty ≡ none
  pub find-insert :
      (t : ℕ) (p : PacketInfo) (m : Map)
      → find t (insert p m) ≡ or_else (find t m) (if p.type == t then some p else none)

module _ (M : PacketInfoMap) where
  open M use {Map, empty, insert, find}

  pub insert_all : Map → List PacketInfo → Map
  insert_all m [] = m
  insert_all m (p ∷ ps) = insert_all (insert p m) ps

  -- The tree that lgtd_lifx_wire_setup builds.
  pub load_packet_info_map : Map
  load_packet_info_map = insert_all empty packet_table

  pub get_packet_info : ℕ → Option PacketInfo
  get_packet_info packet_type = find packet_type load_packet_info_map
